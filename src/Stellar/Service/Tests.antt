-- ===== src/Stellar/Service/Tests.antt =====
-- The service at concrete projects and providers.
use subql_stellar.Prelude.{
  ◌==◌, ℕ, zero, suc, ◌<◌, String, Option, none, some, [], Bool, false, not, ◌&&◌, ◌||◌,
  starts_with, truthy, or_default, Result, ok, throw, JsError, new_error, ◌≡◌, ◌↔◌, refl, arith,
  ◌===◌, if◌then◌else◌,
}
use subql_stellar.Project.{ds_has_soroban_event_handler}
use subql_stellar.Stellar.Api.{replace_colon}
use subql_stellar.Stellar.SafeApi.{SafeStellarProvider}
use subql_stellar.Stellar.Service.{
  StellarProjectNetworkConfig, ServiceProject, ServiceSetup, SorobanClient, ServiceHost,
  with_primary, new_soroban_client, create, safe_call,
}
use subql_stellar.Stellar.Service.Clients.{IsClient}
use subql_stellar.Stellar.Service.Create.{handles_events, create_iff}
use subql_stellar.Stellar.Service.Attempts.{safe_call_bound}
use subql_stellar.Stellar.Service.Retry.{safe_call-first, safe_call-last}

abbrev invalid_url : JsError
invalid_url = record { name = "TypeError"; message = "Invalid URL" }

abbrev protocol_of : String → Result String
protocol_of url =
    if url === "https://rpc"
    then ok "https:"
    else if url === "ws://rpc"
    then ok "ws:"
    else throw invalid_url

abbrev insecure : JsError
insecure = new_error "Cannot connect to insecure Soroban RPC server if `allowHttp` isn't set"

abbrev new_server : String → Bool → Result (Unit {0})
new_server url allow_http = if starts_with url "https:" || allow_http then ok tt else throw insecure

abbrev network_with : Option String → StellarProjectNetworkConfig
network_with soroban = record { chain_id = "testnet"; endpoint = []; soroban_endpoint = soroban }

abbrev project_with : Option String → ServiceProject
project_with soroban = record { network = network_with soroban; data_sources = []; templates = [] }

abbrev host : ServiceHost
host = record {
  protocol_of = protocol_of;
  new_server = new_server;
  create_connections = λ setup. ok tt;
}

abbrev project : ServiceProject
project = project_with (some "https://rpc")

abbrev served : ServiceSetup
served = record {
  network = network_with (some "https://rpc");
  soroban_client = some (record { url = "https://rpc"; allow_http = false });
}

create_test : create host project none ≡ ok served
unfolding create with_primary new_soroban_client replace_colon ds_has_soroban_event_handler
create_test = refl

-- A URL that parses, of which the SDK makes no client.
create-ws_test : create host (project_with (some "ws://rpc")) none ≡ throw insecure
unfolding create with_primary new_soroban_client replace_colon ds_has_soroban_event_handler
create-ws_test = refl

create_iff_example : (create host project none ≡ ok served) ↔ (
    (handles_events project && not (truthy (some "https://rpc")) ≡ false)
    × ((protocol : String) × (client : Option SorobanClient) × (host.protocol_of
            (or_default (some "https://rpc") "undefined")
          ≡ ok protocol)
        × IsClient host (some "https://rpc") (replace_colon protocol === "http") client
        × (record { network = with_primary none project.network; soroban_client = client } ≡ served)
        × (host.create_connections served ≡ ok tt)))
create_iff_example = create_iff host project none served

abbrev provider : ℕ → SafeStellarProvider
provider i = record { block_height = 7 }

-- The third attempt succeeds.
abbrev third_time : ℕ → SafeStellarProvider → Result ℕ
third_time zero p = throw (new_error "down")
third_time (suc zero) p = throw (new_error "down")
third_time (suc (suc i)) p = ok 42

third_time-fails : (j : ℕ) → j < 2 → third_time j (provider j) ≡ throw (new_error "down")
third_time-fails zero lt = refl
third_time-fails (suc zero) lt = refl
third_time-fails (suc (suc j)) lt = absurd (omega arith)

safe_call-first_example : safe_call third_time (λ i. ok (provider i)) ≡ ok 42
safe_call-first_example =
    safe_call-first third_time (λ i. ok (provider i)) provider (λ i. refl) 2 42
      (λ j. new_error "down") (omega arith) third_time-fails refl

abbrev never : ℕ → SafeStellarProvider → Result ℕ
never i p = throw (record { name = "Error"; message = "down" })

safe_call-last_example : safe_call never (λ i. ok (provider i)) ≡ throw (new_error "down")
safe_call-last_example =
    safe_call-last never (λ i. ok (provider i)) provider (λ i. refl) (λ j. new_error "down")
      (λ j lt. refl)

-- The same for the first five attempts.
abbrev sixth_time : ℕ → SafeStellarProvider → Result ℕ
sixth_time i p = if i == 5 then ok 1 else throw (new_error "down")

sixth_time-never : (j : ℕ) (q : SafeStellarProvider) → j < 5 → sixth_time j q ≡ never j q
sixth_time-never j q lt = ground arith

safe_call_bound_example :
    safe_call sixth_time (λ i. ok (provider i)) ≡ safe_call never (λ i. ok (provider i))
safe_call_bound_example =
    safe_call_bound sixth_time never (λ i. ok (provider i)) (λ i. ok (provider i)) sixth_time-never
      (λ j le. refl)
