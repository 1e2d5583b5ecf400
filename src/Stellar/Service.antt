-- ===== src/Stellar/Service.antt =====
-- packages/node/src/stellar/api.service.stellar.ts, `StellarApiService`: what `create` checks, makes
-- and hands to node-core's `createConnections`, and the retries of the proxy that `safeApi` returns.
pub mod Retry
pub mod Attempts
pub mod Clients
pub mod Create
mod Tests
use subql_stellar.Prelude.{
  ℕ, zero, suc, String, Option, none, some, List, [], ◌∷◌, ◌++◌, Bool, true, false, not, ◌&&◌,
  ◌===◌, if◌then◌else◌, truthy, or_default, Result, ok, throw, JsError, new_error, ◌>>=◌, ◌>>◌,
  ◌<+>◌, insert,
}
use subql_stellar.Types.{SubqlDatasource}
use subql_stellar.Project.{ds_has_soroban_event_handler}
use subql_stellar.Stellar.Api.{StellarEndpointConfig, replace_colon}
use subql_stellar.Stellar.SafeApi.{SafeStellarProvider}

-- `StellarProjectNetworkConfig`; the endpoints are a `Record` from URL to configuration.
pub record StellarProjectNetworkConfig : Type 0 where
  pub chain_id : String
  pub endpoint : List (String × StellarEndpointConfig)
  pub soroban_endpoint : Option String

-- The part of the project that `create` reads.
pub record ServiceProject : Type 0 where
  pub network : StellarProjectNetworkConfig
  pub data_sources : List SubqlDatasource
  pub templates : List SubqlDatasource

-- The `SorobanServer` that is made: its URL and whether it may use HTTP.
pub record SorobanClient : Type 0 where
  pub url : String
  pub allow_http : Bool

-- What `createConnections` is given: the network, and the client that each connection shares.
pub record ServiceSetup : Type 0 where
  pub network : StellarProjectNetworkConfig
  pub soroban_client : Option SorobanClient

-- `network.endpoint[endpoint] = config`, where the node's configuration names a primary endpoint.
unfoldable pub with_primary :
    Option (String × StellarEndpointConfig)
    → StellarProjectNetworkConfig
    → StellarProjectNetworkConfig
unfolding insert
with_primary none network = network
with_primary (some (endpoint, config)) network = record network {
  endpoint = insert endpoint config network.endpoint;
}

-- What `create` calls: `new URL(url).protocol` of the host, the constructor of the SDK's `rpc.Server` with
-- a URL and `allowHttp`, and node-core's `createConnections`.
pub record ServiceHost : Type 0 where
  pub protocol_of : String → Result String
  pub new_server : String → Bool → Result (Unit {0})
  pub create_connections : ServiceSetup → Result (Unit {0})

-- `sorobanEndpoint ? new SorobanServer(sorobanEndpoint, {allowHttp}) : undefined`
unfoldable pub new_soroban_client :
    ServiceHost → Option String → Bool → Result (Option SorobanClient)
new_soroban_client host none allow_http = ok none
new_soroban_client host (some url) allow_http = if url === "" then ok none else (do
  made ← host.new_server url allow_http
  ok (some (record { url = url; allow_http = allow_http })))

-- `new URL(undefined)` parses the text `undefined`. The branch that updates the project's endpoint
-- is never taken: it wants one variable to be falsy and truthy at once.
unfoldable pub create :
    ServiceHost → ServiceProject → Option (String × StellarEndpointConfig) → Result ServiceSetup
unfolding with_primary ds_has_soroban_event_handler replace_colon new_soroban_client
create host project primary =
    let network = with_primary primary project.network in
    let soroban_endpoint = network.soroban_endpoint in
    if ds_has_soroban_event_handler (project.data_sources ++ project.templates)
      && not (truthy soroban_endpoint)
    then throw (
        new_error (
          "Soroban network endpoint must be provided for network. chainId=\""
          <+> project.network.chain_id <+> "\""))
    else (do
      protocol ← host.protocol_of (or_default soroban_endpoint "undefined")
      soroban_client ← new_soroban_client host soroban_endpoint (replace_colon protocol === "http")
      let setup : ServiceSetup = record { network = network; soroban_client = soroban_client }
      connected ← host.create_connections setup
      ok setup)

module _ {ℓ} {A : Type ℓ} (call : ℕ → SafeStellarProvider → Result A)
    (get_safe_api : ℕ → Result SafeStellarProvider) where
  -- The loop of the wrapped method with the number of attempts that are left: `call i` is the attempt
  -- `i` with a provider, and `get_safe_api i` is what the pool's API gives for the attempt `i`.
  unfoldable pub safe_loop : ℕ → ℕ → SafeStellarProvider → Option JsError → Result A
  safe_loop zero retries current none =
      throw (new_error "Failed to make request, maximum retries failed")
  safe_loop zero retries current (some throwing_error) = throw throwing_error
  safe_loop (suc left) retries current throwing_error = elim (call retries current) [
    | ok a ↦ ok a
    | throw error ↦ elim (get_safe_api (suc retries)) [
      | throw error' ↦ throw error'
      | ok api ↦ safe_loop left (suc retries) api (some error)
    ]
  ]

  abbrev pub max_retries : ℕ
  max_retries = 5

  -- `safeApi(height)` and a call of a method of what it returns.
  unfoldable pub safe_call : Result A
  unfolding safe_loop
  safe_call = do target ← get_safe_api 0; safe_loop max_retries 0 target none
