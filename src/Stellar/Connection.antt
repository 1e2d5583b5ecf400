-- ===== src/Stellar/Connection.antt =====
-- packages/node/src/stellar/api.connection.ts, `StellarApiConnection`. `protocol_of` is the host's URL
-- parser.
pub mod Create
pub mod Errors
mod Tests
use subql_stellar.Prelude.{
  ℕ, String, Option, none, some, List, Bool, true, false, not, ◌&&◌, ◌||◌, ◌===◌, if◌then◌else◌,
  Result, ok, throw, JsError, new_error, ◌>>=◌, includes, starts_with, ◌≡◌, ◌↔◌, refl, sym, ap, ap₂,
  ◌∙◌, >>=-eq-ok, ok-injective, arith, subst, inl, inr,
}
use subql_stellar.Stellar.Utils.{IBlock}
use subql_stellar.Stellar.Soroban.{EventsCache}
use subql_stellar.Stellar.Api.{
  Horizon, StellarApi, StellarEndpointConfig, new_stellar_api, init, get_chain_id, get_genesis_hash,
  get_spec_name, connect, disconnect, replace_colon, page_limit_of, assertion_error,
}
use subql_stellar.Stellar.SafeApi.{SafeStellarProvider}

pub record NetworkMetadataPayload : Type 0 where
  pub chain : String
  pub spec_name : String
  pub genesis_hash : String

pub record StellarApiConnection : Type 0 where
  pub unsafe_api : StellarApi
  pub network_meta : NetworkMetadataPayload

-- The constructor.
unfoldable pub new_connection : StellarApi → Result StellarApiConnection
unfolding get_chain_id
new_connection unsafe_api = do
  chain ← get_chain_id unsafe_api
  genesis_hash ← get_genesis_hash unsafe_api
  ok (record {
    unsafe_api = unsafe_api;
    network_meta = record { chain = chain; spec_name = get_spec_name; genesis_hash = genesis_hash };
  })

unfoldable pub create_connection :
    (String → Result String)
    → Horizon
    → String
    → Option EventsCache
    → Option StellarEndpointConfig
    → Result StellarApiConnection
unfolding new_stellar_api init new_connection
create_connection protocol_of horizon endpoint soroban config = do
  api ← new_stellar_api protocol_of endpoint soroban config
  initialised ← init horizon api
  new_connection initialised

abbrev pub connection_safe_api : StellarApiConnection → ℕ → Result SafeStellarProvider
connection_safe_api connection height = throw (new_error "Not Implemented")

abbrev pub api_connect : StellarApiConnection → Result (Unit {0})
api_connect connection = connect

abbrev pub api_disconnect : StellarApiConnection → Result (Unit {0})
api_disconnect connection = disconnect

abbrev pub connection_fetch_blocks {ℓ} :
    {B : Type ℓ} → (StellarApi → List ℕ → Result B) → StellarApiConnection → List ℕ → Result B
connection_fetch_blocks fetch_blocks_batches connection heights =
    fetch_blocks_batches connection.unsafe_api heights

-- node-core's errors, each made from the error that is handled.
pub data ApiConnectionError : Type 0 where
  timeout_error disconnection_error rate_limit_error large_response_error :
      JsError → ApiConnectionError
  default_error : String → String → ApiConnectionError

unfoldable pub handle_connection_error : JsError → ApiConnectionError
handle_connection_error e =
    if includes e.message "Timeout"
    then timeout_error e
    else if starts_with e.message "disconnected from "
    then disconnection_error e
    else if includes e.message "Rate Limit Exceeded" || includes e.message "Too Many Requests"
    then rate_limit_error e
    else if includes e.message "limit must not exceed"
    then large_response_error e
    else default_error e.name e.message
