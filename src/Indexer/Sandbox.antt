-- ===== src/Indexer/Sandbox.antt =====
-- packages/node/src/indexer/indexer.manager.ts, `indexBlock`, `getDsProcessor`, `getApi` and `prepareFilteredData`, and
-- worker/worker.service.ts beside it, `processFetchedBlock`: what the handlers' sandboxes are given. The sandbox service
-- of node-core is the parameter `sandbox`, which is given the
-- `StellarApi` for its Horizon server; node-core's `internalIndexBlock` is the parameter `internal_index_block`.
use subql_stellar.Prelude.{
  Option, none, some, List, Bool, true, false, if◌then◌else◌, is_some, Result, ok, throw, ◌>>=◌,
  >>=-eq-ok, ok-injective, ◌≡◌, sym, ap,
}
use subql_stellar.Types.{StellarHandlerKind, StellarBlockWrapper, SubqlDatasource}
use subql_stellar.Stellar.Utils.{IBlock}
use subql_stellar.Stellar.Soroban.{EventsCache}
use subql_stellar.Stellar.SafeApi.{SafeStellarProvider}
use subql_stellar.Stellar.Api.{StellarApi, soroban_client, assertion_error}
use subql_stellar.Indexer.{DataOf}

-- `this.nodeConfig.unsafe ? this.apiService.unsafeApi.sorobanClient : undefined`
abbrev pub unsafe_soroban_api : Bool → StellarApi → Result (Option EventsCache)
unsafe_soroban_api true api = do client ← soroban_client api; ok (some client)
unsafe_soroban_api false api = ok none

module _ {Sandbox : Type 0}
    (sandbox : SubqlDatasource
      → Option SafeStellarProvider
      → StellarApi
      → Option EventsCache
      → Result Sandbox) where
  unfoldable pub get_ds_processor :
      Bool → StellarApi → SubqlDatasource → Option SafeStellarProvider → Result Sandbox
  unfolding soroban_client
  get_ds_processor unsafe unsafe_api ds safe_api = do
    unsafe_soroban_api ← unsafe_soroban_api unsafe unsafe_api
    sandbox ds safe_api unsafe_api unsafe_soroban_api

-- No safe API is handed out.
abbrev pub get_api : StellarBlockWrapper → Result (Option SafeStellarProvider)
get_api block = ok none

abbrev pub prepare_filtered_data :
    (kind : StellarHandlerKind) → DataOf kind → SubqlDatasource → Result (DataOf kind)
prepare_filtered_data kind x ds = ok x

module _ {Response : Type 0}
    (internal_index_block : IBlock
      → List SubqlDatasource
      → Result (Option SafeStellarProvider)
      → Result Response) where
  abbrev pub index_block : IBlock → List SubqlDatasource → Result Response
  index_block block data_sources = internal_index_block block data_sources (get_api block.block)

  abbrev pub process_fetched_block : IBlock → List SubqlDatasource → Result Response
  process_fetched_block block data_sources = index_block block data_sources

unsafe_soroban_api-eq-ok :
    (unsafe : Bool) (api : StellarApi) (client : Option EventsCache)
    → unsafe_soroban_api unsafe api ≡ ok client
    → (client ≡ (if unsafe then api.soroban_client else none)) × (is_some client ≡ unsafe)
unfolding soroban_client
unsafe_soroban_api-eq-ok false api client h = let e = ok-injective h in (sym e, ap is_some (sym e))
unsafe_soroban_api-eq-ok true api client h = of_getter api.soroban_client h
  where
    of_getter :
        (o : Option EventsCache)
        → ((elim o [
          | none ↦ throw (assertion_error "Soraban client is not initialized")
          | some cache ↦ ok cache
        ])
            >>= λ client. ok (some client))
          ≡ ok client
        → (client ≡ o) × (is_some client ≡ true)
    of_getter none h = cc h
    of_getter (some cache) h = let e = ok-injective h in (sym e, ap is_some (sym e))

-- A sandbox is made with the Soroban client of the node exactly in the unsafe mode, and then only where there is one: in
-- the unsafe mode a node without a Soroban client makes no sandbox at all.
pub get_ds_processor-eq-ok :
    {Sandbox : Type 0}
    (sandbox : SubqlDatasource
      → Option SafeStellarProvider
      → StellarApi
      → Option EventsCache
      → Result Sandbox)
    (unsafe : Bool) (api : StellarApi) (ds : SubqlDatasource)
    (safe_api : Option SafeStellarProvider) (made : Sandbox)
    → get_ds_processor sandbox unsafe api ds safe_api ≡ ok made
    → (client : Option EventsCache) × (sandbox ds safe_api api client ≡ ok made)
      × (client ≡ (if unsafe then api.soroban_client else none))
      × (is_some client ≡ unsafe)
unfolding get_ds_processor
get_ds_processor-eq-ok sandbox unsafe api ds safe_api made h =
    let (client, e, h') = >>=-eq-ok (unsafe_soroban_api unsafe api) _ h in
    let (same, given) = unsafe_soroban_api-eq-ok unsafe api client e in (client, h', same, given)
