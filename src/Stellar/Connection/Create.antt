-- ===== src/Stellar/Connection/Create.antt =====
-- packages/node/src/stellar/api.connection.ts: what `StellarApiConnection.create` makes.
use subql_stellar.Prelude.{
  String, Option, some, Bool, true, false, ◌===◌, if◌then◌else◌, Result, ok, throw, JsError, ◌≡◌,
  refl, sym, ap, ap₂, ◌∙◌, >>=-eq-ok, ok-injective, subst,
}
use subql_stellar.Stellar.Soroban.{EventsCache}
use subql_stellar.Stellar.Api.{
  Horizon, StellarApi, StellarEndpointConfig, new_stellar_api, init, get_chain_id, page_limit_of,
  assertion_error,
}
use subql_stellar.Stellar.Connection.{StellarApiConnection, new_connection, create_connection}

new_stellar_api-eq-ok :
    (protocol_of : String → Result String) (endpoint : String) (soroban : Option EventsCache)
    (config : Option StellarEndpointConfig) (api : StellarApi)
    → new_stellar_api protocol_of endpoint soroban config ≡ ok api
    → (api.soroban_client ≡ soroban) × (api.page_limit ≡ page_limit_of config)
unfolding new_stellar_api
new_stellar_api-eq-ok protocol_of endpoint soroban config api h =
    let (protocol, e, h1) = >>=-eq-ok (protocol_of endpoint) _ h in allowed _ _ _ refl refl h1
  where
    allowed :
        (b : Bool) (err : JsError) (made : StellarApi)
        → made.soroban_client ≡ soroban
        → made.page_limit ≡ page_limit_of config
        → (if b then ok made else throw err) ≡ ok api
        → (api.soroban_client ≡ soroban) × (api.page_limit ≡ page_limit_of config)
    allowed true err made s l h =
        subst
          (λ (a : StellarApi). (a.soroban_client ≡ soroban) × (a.page_limit ≡ page_limit_of config))
          (ok-injective h) (s, l)
    allowed false err made s l h = cc h

get_chain_id-eq-ok :
    (api : StellarApi) (passphrase chain : String)
    → api.chain_id ≡ some passphrase
    → get_chain_id api ≡ ok chain
    → (passphrase === "" ≡ false) × (chain ≡ passphrase)
unfolding get_chain_id
get_chain_id-eq-ok api passphrase chain known h =
    not_empty (passphrase === "") (subst (λ r. r ≡ ok chain) (rw (known, get_chain_id) refl) h)
  where
    not_empty :
        (b : Bool)
        → ◌≡◌ {A = Result String}
            (if b then throw (assertion_error "Api has not been initialised") else ok passphrase)
            (ok chain)
        → (b ≡ false) × (chain ≡ passphrase)
    not_empty true h = cc h
    not_empty false h = (refl, sym (ok-injective h))

new_connection-eq-ok :
    (api : StellarApi) (passphrase : String) (connection : StellarApiConnection)
    → api.chain_id ≡ some passphrase
    → new_connection api ≡ ok connection
    → (passphrase === "" ≡ false)
      × (connection ≡ record {
        unsafe_api = api;
        network_meta = record {
          chain = passphrase;
          spec_name = "Stellar";
          genesis_hash = passphrase;
        };
      })
unfolding new_connection
new_connection-eq-ok api passphrase connection known h =
    let (chain, e1, h1) = >>=-eq-ok (get_chain_id api) _ h in
    let (genesis, e2, h2) = >>=-eq-ok (get_chain_id api) _ h1 in
    let (full, is_chain) = get_chain_id-eq-ok api passphrase chain known e1 in
    let (full', is_genesis) = get_chain_id-eq-ok api passphrase genesis known e2 in
    (
      full,
      sym (ok-injective h2)
          ∙ ap₂
              (λ c g. record {
                unsafe_api = api;
                network_meta = record { chain = c; spec_name = "Stellar"; genesis_hash = g };
              })
              is_chain is_genesis,
    )

-- A connection that is created asks for pages of the configured size and has the given client; its
-- network's passphrase is not empty, and is reported both as the chain and as the genesis hash.
pub create_connection-eq-ok :
    (protocol_of : String → Result String) (horizon : Horizon) (endpoint : String)
    (soroban : Option EventsCache) (config : Option StellarEndpointConfig)
    (connection : StellarApiConnection)
    → create_connection protocol_of horizon endpoint soroban config ≡ ok connection
    → (passphrase : String) × (horizon.network_passphrase ≡ ok passphrase)
      × (passphrase === "" ≡ false)
      × (connection.network_meta
          ≡ record { chain = passphrase; spec_name = "Stellar"; genesis_hash = passphrase })
      × (connection.unsafe_api.soroban_client ≡ soroban)
      × (connection.unsafe_api.page_limit ≡ page_limit_of config)
unfolding create_connection init
create_connection-eq-ok protocol_of horizon endpoint soroban config connection h =
    let (api, e, h1) = >>=-eq-ok (new_stellar_api protocol_of endpoint soroban config) _ h in
    let (initialised, e1, h2) = >>=-eq-ok (init horizon api) _ h1 in
    let (passphrase, e2, h3) = >>=-eq-ok horizon.network_passphrase _ e1 in
    let made = ok-injective h3 in
    let (full, known) =
      new_connection-eq-ok initialised passphrase connection
        (ap (λ (a : StellarApi). a.chain_id) (sym made)) h2 in
    let (client, limit) = new_stellar_api-eq-ok protocol_of endpoint soroban config api e in
    (
      passphrase,
      e2,
      full,
      ap (λ (c : StellarApiConnection). c.network_meta) known,
      ap (λ (c : StellarApiConnection). c.unsafe_api.soroban_client) known
          ∙ ap (λ (a : StellarApi). a.soroban_client) (sym made)
          ∙ client,
      ap (λ (c : StellarApiConnection). c.unsafe_api.page_limit) known
          ∙ ap (λ (a : StellarApi). a.page_limit) (sym made)
          ∙ limit,
    )
