-- ===== src/Configure/Tests.antt =====
-- A project without a Soroban endpoint, started with one on the command line.
use subql_stellar.Prelude.{
  String, none, some, [], Bool, true, false, Result, ok, throw, JsError, new_error, ◌===◌,
  if◌then◌else◌, ◌≡◌, ◌⊎◌, inl, inr, refl,
}
use subql_stellar.Stellar.Service.{ServiceProject, ServiceSetup, ServiceHost}
use subql_stellar.Configure.Endpoint.{client_of, connected, start, start-client}

abbrev protocol_of : String → Result String
protocol_of url =
    if url === "http://rpc"
    then ok "http:"
    else throw (record { name = "TypeError"; message = "Invalid URL" })

abbrev project : ServiceProject
project = record {
  network = record { chain_id = "testnet"; endpoint = []; soroban_endpoint = none };
  data_sources = [];
  templates = [];
}

abbrev configured : Result (String × ServiceProject)
configured = ok ("config", project)

-- The SDK's constructor, and a pool that takes any connections.
abbrev insecure : JsError
insecure = new_error "Cannot connect to insecure Soroban RPC server if `allowHttp` isn't set"

abbrev host : ServiceHost
host = record {
  protocol_of = protocol_of;
  new_server = λ url allow_http. if allow_http then ok tt else throw insecure;
  create_connections = λ setup. ok tt;
}

http_makes :
    (allow_http : Bool)
    → (◌≡◌ {A = String} "http:" "https:") ⊎ (allow_http ≡ true)
    → host.new_server "http://rpc" allow_http ≡ ok tt
http_makes true h = refl
http_makes false (inl https) = cc https
http_makes false (inr allowed) = cc allowed

start-client_example :
    (setup : ServiceSetup) × (start host none configured (some "http://rpc") ≡ connected host setup)
    × (setup.soroban_client ≡ some (client_of "http://rpc" "http:"))
start-client_example =
    start-client host none {Config = String} "config" project "http://rpc" "http:" http_makes refl
      refl (inr refl)
