-- ===== src/Stellar/Service/Create.antt =====
-- packages/node/src/stellar/api.service.stellar.ts, `create`: on what it depends.
use subql_stellar.Prelude.{
  String, Option, none, some, ◌++◌, Bool, true, false, not, ◌&&◌, if◌then◌else◌, truthy, or_default,
  Result, ok, throw, JsError, ◌>>=◌, >>=-eq-ok, ok-injective, ◌===◌, ◌≡◌, ◌≢◌, ◌↔◌, refl, sym, ap,
  subst, ◌∙◌,
}
use subql_stellar.Project.{ds_has_soroban_event_handler}
use subql_stellar.Stellar.Api.{StellarEndpointConfig, replace_colon}
use subql_stellar.Stellar.Service.{
  StellarProjectNetworkConfig, ServiceProject, ServiceSetup, SorobanClient, ServiceHost,
  with_primary, new_soroban_client, create,
}
use subql_stellar.Stellar.Service.Clients.{IsClient, new_soroban_client_iff}

-- Some datasource or template handles events.
abbrev pub handles_events : ServiceProject → Bool
handles_events project = ds_has_soroban_event_handler (project.data_sources ++ project.templates)

pub soroban_endpoint-with_primary :
    (primary : Option (String × StellarEndpointConfig)) (network : StellarProjectNetworkConfig)
    → (with_primary primary network).soroban_endpoint ≡ network.soroban_endpoint
unfolding with_primary
soroban_endpoint-with_primary none network = refl
soroban_endpoint-with_primary (some (endpoint, config)) network = refl

-- A result behind a guard, after three calls.
module _ {A B C : Type 0} (m : Result A) (n : A → Result B) (f : B → C)
    (k : C → Result (Unit {0})) where
  abbrev guarded : Bool → JsError → Result C
  guarded refused err = if refused then throw err else (do a ← m; b ← n a; done ← k (f b); ok (f b))

  guarded_iff :
      (refused : Bool) (err : JsError) (c : C)
      → (guarded refused err ≡ ok c) ↔ (
          (refused ≡ false)
          × ((a : A) × (b : B) × (m ≡ ok a) × (n a ≡ ok b) × (f b ≡ c) × (k c ≡ ok tt)))
  guarded_iff refused err c = (only refused, conversely refused)
    where
      only :
          (refused : Bool)
          → guarded refused err ≡ ok c
          → (refused ≡ false)
            × ((a : A) × (b : B) × (m ≡ ok a) × (n a ≡ ok b) × (f b ≡ c) × (k c ≡ ok tt))
      only true h = cc h
      only false h =
          let (a, e, h1) = >>=-eq-ok m _ h in
          let (b, e1, h2) = >>=-eq-ok (n a) _ h1 in
          let (done, e2, h3) = >>=-eq-ok (k (f b)) _ h2 in
          let same = ok-injective h3 in
          (refl, (a, b, e, e1, same, subst (λ c. k c ≡ ok tt) same e2))

      conversely :
          (refused : Bool)
          → (refused ≡ false)
            × ((a : A) × (b : B) × (m ≡ ok a) × (n a ≡ ok b) × (f b ≡ c) × (k c ≡ ok tt))
          → guarded refused err ≡ ok c
      conversely true (free, rest) = cc free
      conversely false (free, (a, b, e, e1, same, e2)) =
          rw (e, e1) (subst (λ d. (do done ← k d; ok d) ≡ ok c) (sym same) (rw e2 refl))

module _ (host : ServiceHost) (project : ServiceProject)
    (primary : Option (String × StellarEndpointConfig)) where
  -- The service is created exactly where all of this holds: a project that handles events names a Soroban
  -- endpoint; the Soroban endpoint, or the text `undefined` where there is none, parses as a URL; where
  -- there is one, the SDK makes a client of it, which may use HTTP exactly where the protocol is http; and
  -- node-core makes the connections with that client, over the project's network with the primary endpoint.
  pub create_iff :
      (setup : ServiceSetup)
      → (create host project primary ≡ ok setup) ↔ (
          (handles_events project && not (truthy project.network.soroban_endpoint) ≡ false)
          × ((protocol : String) × (client : Option SorobanClient) × (host.protocol_of
                  (or_default project.network.soroban_endpoint "undefined")
                ≡ ok protocol)
              × IsClient host project.network.soroban_endpoint
                  (replace_colon protocol === "http")
                  client
              × (record { network = with_primary primary project.network; soroban_client = client }
                  ≡ setup)
              × (host.create_connections setup ≡ ok tt)))
  unfolding create
  create_iff setup = rw (soroban_endpoint-with_primary primary project.network) (
      let endpoint = project.network.soroban_endpoint in
      let (there, back) =
        guarded_iff (host.protocol_of (or_default endpoint "undefined"))
          (λ protocol. new_soroban_client host endpoint (replace_colon protocol === "http"))
          (λ client. record {
            network = with_primary primary project.network;
            soroban_client = client;
          })
          host.create_connections (handles_events project && not (truthy endpoint)) _ setup in
      (
        λ h.
            let (free, (protocol, client, parsed, made, same, connected)) = there h in
            (
              free,
              (
                protocol,
                client,
                parsed,
                (new_soroban_client_iff host endpoint _ client).0 made,
                same,
                connected,
              ),
            ),
        λ (free, (protocol, client, parsed, made, same, connected)). back (
          free,
          (
            protocol,
            client,
            parsed,
            (new_soroban_client_iff host endpoint _ client).1 made,
            same,
            connected,
          ),
        ),
      ))

  -- Where the parser refuses the text `undefined`, a project without a Soroban endpoint is never
  -- served, whether or not it handles events.
  pub create-no_endpoint :
      (e : JsError) (setup : ServiceSetup)
      → host.protocol_of "undefined" ≡ throw e
      → project.network.soroban_endpoint ≡ none
      → create host project primary ≢ ok setup
  create-no_endpoint e setup refused absent h =
      let (free, (protocol, client, parsed, made, same, connected)) = (create_iff setup).0 h in
      cc (sym parsed ∙ ap (λ o. host.protocol_of (or_default o "undefined")) absent ∙ refused)
