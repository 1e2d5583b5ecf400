-- ===== src/Configure/Endpoint.antt =====
-- packages/node/src/configure/configure.module.ts beside `create` of packages/node/src/stellar/api.service.stellar.ts:
-- the Soroban endpoint of the command line, up to the client of the API service.
use subql_stellar.Prelude.{
  String, Option, some, Bool, true, false, ◌&&◌, ◌===◌, if◌then◌else◌, Result, ok, ◌>>=◌, ◌≡◌, ◌⊎◌,
  inl, inr, refl, ap,
}
use subql_stellar.Stellar.Api.{StellarEndpointConfig, replace_colon}
use subql_stellar.Stellar.Service.{
  ServiceProject, ServiceSetup, ServiceHost, SorobanClient, with_primary, new_soroban_client,
  create,
}
use subql_stellar.Stellar.Service.Create.{soroban_endpoint-with_primary}
use subql_stellar.Configure.{with_endpoint, get_instance}

unguarded {ℓ} : {A : Type ℓ} (b : Bool) (x y : A) → (if b && false then x else y) ≡ y
unguarded true x y = refl
unguarded false x y = refl

-- The client that a URL gets by its protocol.
abbrev pub client_of : String → String → SorobanClient
client_of url protocol = record { url = url; allow_http = replace_colon protocol === "http" }

-- What is left once the client is made.
abbrev pub connected : ServiceHost → ServiceSetup → Result ServiceSetup
connected host setup = do done ← host.create_connections setup; ok setup

-- A service of a project that names a Soroban endpoint.
create-client :
    (host : ServiceHost) (primary : Option (String × StellarEndpointConfig))
    (project : ServiceProject) (url protocol : String)
    → (url === "") ≡ false
    → host.protocol_of url ≡ ok protocol
    → host.new_server url (replace_colon protocol === "http") ≡ ok tt
    → project.network.soroban_endpoint ≡ some url
    → (setup : ServiceSetup) × (create host project primary ≡ connected host setup)
      × (setup.soroban_client ≡ some (client_of url protocol))
unfolding create with_primary new_soroban_client
create-client host primary project url protocol full parsed made named = (
  record {
    network = with_primary primary project.network;
    soroban_client = some (client_of url protocol);
  },
  simp
      (soroban_endpoint-with_primary primary project.network, named, full, parsed, made, unguarded),
  refl,
)

module _ (host : ServiceHost) (primary : Option (String × StellarEndpointConfig))
    {Config : Type 0} where
  -- The start of the node: its configuration, then the API service of the project.
  abbrev pub start : Result (Config × ServiceProject) → Option String → Result ServiceSetup
  start register_app argv = do
    (node_config, project) ← get_instance register_app argv
    create host project primary

  -- Where the SDK makes a client of any URL of the protocol https, and of others where HTTP is allowed: a Soroban
  -- endpoint on the command line that parses as a URL of the protocol https or http is the one that the node uses,
  -- whatever the project names and whether or not it handles events. A client is made for it, which may use HTTP
  -- exactly where the protocol is http, and the API service is created where node-core makes the connections with
  -- that client, and fails with its error otherwise.
  pub start-client :
      (node_config : Config) (project : ServiceProject) (url protocol : String)
      → ((allow_http : Bool)
          → (protocol ≡ "https:") ⊎ (allow_http ≡ true)
          → host.new_server url allow_http ≡ ok tt)
      → (url === "") ≡ false
      → host.protocol_of url ≡ ok protocol
      → (protocol ≡ "https:") ⊎ (protocol ≡ "http:")
      → (setup : ServiceSetup) × (start (ok (node_config, project)) (some url)
          ≡ connected host setup)
        × (setup.soroban_client ≡ some (client_of url protocol))
  unfolding get_instance with_endpoint replace_colon
  start-client node_config project url protocol sdk full parsed known =
      let allowed : (protocol ≡ "https:") ⊎ ((replace_colon protocol === "http") ≡ true) =
        elim known [
          | inl https ↦ inl https
          | inr http ↦ inr (ap (λ p. replace_colon p === "http") http)
        ] in
      rw full (
        create-client host primary
          (record project { network = record project.network { soroban_endpoint = some url } }) url
          protocol full parsed (sdk (replace_colon protocol === "http") allowed) refl)
