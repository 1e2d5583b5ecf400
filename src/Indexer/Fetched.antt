-- ===== src/Indexer/Fetched.antt =====
-- packages/node/src/stellar/api.stellar.ts and packages/node/src/indexer/indexer.manager.ts together: what of
-- a fetched ledger reaches the handlers.
use subql_stellar.Prelude.{
  ℕ, some, none, List, [], ◌∷◌, ◌++◌, ◌===◌, any, map, flat_map, zero, suc, get_elem?, or_default,
  All, All-mono, map-append, map-map, map_self, map-flat_map-map, map-flat_map-map_all, Bool-cases,
  inl, inr, Result, ok, some-injective, ◌≡◌, refl, sym, ap, ap₂, ◌∙◌,
}
use subql_stellar.Types.{
  StellarHandlerKind, EventRef, SorobanEvent, StellarEffect, StellarOperation, StellarTransaction,
  StellarBlock, SubqlDatasource,
}
use subql_stellar.Stellar.Soroban.{EventsCache, GetEventsRequest, GetEventsResponse}
use subql_stellar.Stellar.Utils.{IBlock, format_block_util}
use subql_stellar.Stellar.Api.{Horizon, StellarApi}
use subql_stellar.Stellar.Api.Ledger.{
  assemble, LedgerData, fetch_ledger_data, fetch_ledger_events, fetch_and_wrap_ledger,
}
use subql_stellar.Stellar.Api.Outline.{operation_outline, outline, expected, assemble-outline}
use subql_stellar.Stellar.Api.Refs.{RefersTo, assemble-HoldsItsEvents}
use subql_stellar.Stellar.Api.Blocks.{assemble-raw}
use subql_stellar.Stellar.Api.Parts.{wrapped, fetch_and_wrap_ledger-parts}
use subql_stellar.Indexer.{DataOf, Step, the_event, invokes_host_function, index_block_data}
use subql_stellar.Indexer.RawCalls.{
  raw_of, raw_call, raw_calls_for, operation_raw_calls, calls_contract, transaction_ds_raw_calls,
  transaction_raw_calls, block_raw_calls,
}
use subql_stellar.Indexer.Order.{
  Call, calls_for, transaction_ds_calls, transaction_calls, operation_calls, block_calls, run,
  index_block_data-run,
}

module _ (dss : List SubqlDatasource) where
  raw-calls_for :
      (kind : StellarHandlerKind) (x : DataOf kind)
      → map raw_call (calls_for dss kind x) ≡ raw_calls_for dss kind (raw_of kind x)
  raw-calls_for kind x = map-map _ raw_call dss

  raw-operation_calls :
      (events : List SorobanEvent) (op : StellarOperation)
      → All (λ r. (the_event events r).raw ≡ r.raw) op.events
      → map raw_call (operation_calls dss events op)
        ≡ operation_raw_calls dss (operation_outline op)
  raw-operation_calls events op h =
      rw (map-append, map-append)
        (ap₂ (◌++◌) (raw-calls_for StellarHandlerKind.operation op) (
          ap₂ (◌++◌)
            (map-flat_map-map_all raw_call _ (λ (e : StellarEffect). e.raw) _
              (raw-calls_for StellarHandlerKind.effects) op.effects)
            (map-flat_map-map raw_call _ (λ (r : EventRef). r.raw) _ op.events
              (All-mono
                (λ r e.
                  raw-calls_for StellarHandlerKind.event (the_event events r)
                  ∙ ap (raw_calls_for dss StellarHandlerKind.event) e)
                op.events h))))

  calls_contract-outline :
      (ops : List StellarOperation)
      → any (λ (op : StellarOperation). op.raw.type === "invoke_host_function") ops
        ≡ calls_contract (map operation_outline ops)
  calls_contract-outline [] = refl
  calls_contract-outline (op ∷ ops) = rw (calls_contract-outline ops)

  raw-transaction_ds_calls :
      (tx : StellarTransaction) (ds : SubqlDatasource)
      → map raw_call (transaction_ds_calls dss tx ds) ≡ transaction_ds_raw_calls dss (outline tx) ds
  raw-transaction_ds_calls tx ds =
      rw (sym (calls_contract-outline tx.operations))
        (elim (Bool-cases (invokes_host_function tx)) [ inl call ↦ rw call | inr other ↦ rw other ])

  raw-transaction_calls :
      (events : List SorobanEvent) (tx : StellarTransaction)
      → All
          (λ (op : StellarOperation). All (λ r. (the_event events r).raw ≡ r.raw) op.events)
          tx.operations
      → map raw_call
          (transaction_calls dss tx ++ flat_map (operation_calls dss events) tx.operations)
        ≡ transaction_raw_calls dss (outline tx)
  raw-transaction_calls events tx h = rw map-append (
      ap₂ (◌++◌)
        (map-flat_map-map_all raw_call (transaction_ds_calls dss tx) (λ ds. ds)
            (transaction_ds_raw_calls dss (outline tx)) (raw-transaction_ds_calls tx) dss
          ∙ ap (flat_map (transaction_ds_raw_calls dss (outline tx))) (map_self dss))
        (map-flat_map-map raw_call _ operation_outline _ tx.operations
          (All-mono (raw-operation_calls events) tx.operations h)))

the_event-raw :
    (events : List SorobanEvent) (r : EventRef)
    → RefersTo (map (λ (e : SorobanEvent). e.raw) events) r
    → (the_event events r).raw ≡ r.raw
the_event-raw events r h = at_place events r.place h
  where
    at_place :
        (es : List SorobanEvent) (i : ℕ)
        → get_elem? (map (λ (e : SorobanEvent). e.raw) es) i ≡ some r.raw
        → (or_default
            (get_elem? es i)
            (record { raw = r.raw; ledger = none; transaction = none; operation = none })).raw
          ≡ r.raw
    at_place [] i h = refl
    at_place (e ∷ es) zero h = some-injective _ _ h
    at_place (e ∷ es) (suc i) h = at_place es i h

-- The calls that indexing a wrapped block makes, by what was fetched.
raw-block_calls :
    (dss : List SubqlDatasource) (d : LedgerData) (events : List SorobanEvent)
    (block : StellarBlock)
    → assemble d.ledger d.transactions d.operations d.effects events ≡ ok block
    → map raw_call (block_calls dss (wrapped block))
      ≡ block_raw_calls dss d.ledger (
          map
            (expected d.operations d.effects (map (λ (e : SorobanEvent). e.raw) events))
            d.transactions)
raw-block_calls dss d events block h =
    let hold =
      assemble-HoldsItsEvents d.ledger d.transactions d.operations d.effects events block h in
    let reads =
      All-mono
        (λ (tx : StellarTransaction).
          All-mono (λ (op : StellarOperation). All-mono (the_event-raw block.events) op.events)
            tx.operations)
        block.transactions hold in
    rw map-append (
      ap₂ (◌++◌)
        (raw-calls_for dss StellarHandlerKind.block block
          ∙ ap (raw_calls_for dss StellarHandlerKind.block)
              (assemble-raw d.ledger d.transactions d.operations d.effects events block h))
        (map-flat_map-map raw_call _ outline (transaction_raw_calls dss) block.transactions
            (All-mono (raw-transaction_calls dss block.events) block.transactions reads)
          ∙ ap (flat_map (transaction_raw_calls dss))
              (assemble-outline d.ledger d.transactions d.operations d.effects events block h)))

module _ {ℓ} {S : Type ℓ}
    (index_data : (kind : StellarHandlerKind) → DataOf kind → SubqlDatasource → Step S)
    (rpc : ℕ → GetEventsRequest → Result GetEventsResponse) (latest_ledger : Result ℕ)
    (horizon : Horizon) (fuel now : ℕ) (api : StellarApi) where
  -- A ledger that is fetched and then indexed: its data and its events were fetched, and indexing makes
  -- exactly these calls of `indexData`, up to the first that throws, told by the records that are passed: the
  -- ledger; for each transaction that was fetched the transaction, and right after it the same as a Soroban
  -- transaction where an operation with its hash invokes a host function; then each operation with its
  -- hash, the effects whose id begins with the operation's, and the events of the transaction that name the
  -- operation's place in it. Each is passed once for each datasource.
  pub fetch_and_wrap_ledger-index_block_data :
      (cache cache' : EventsCache) (sequence : ℕ) (block : IBlock) (dss : List SubqlDatasource)
      → fetch_and_wrap_ledger rpc latest_ledger horizon fuel now api cache sequence
        ≡ some (ok block, cache')
      → (d : LedgerData) × (events : List SorobanEvent) × (calls : List Call) × (fetch_ledger_data
            rpc latest_ledger horizon fuel now api sequence
          ≡ some (ok d))
        × (fetch_ledger_events rpc latest_ledger horizon fuel now api cache sequence d.operations
            ≡ some (ok events, cache'))
        × ((s : S) → index_block_data index_data dss block.block s ≡ run index_data calls s)
        × (map raw_call calls
            ≡ block_raw_calls dss d.ledger (
                map
                  (expected d.operations d.effects (map (λ (e : SorobanEvent). e.raw) events))
                  d.transactions))
  unfolding format_block_util
  fetch_and_wrap_ledger-index_block_data cache cache' sequence block dss h =
      let (d, events, b, fetched, evs, e, is_wrapped) =
        fetch_and_wrap_ledger-parts rpc latest_ledger horizon fuel now api cache cache' sequence
          block h in
      (
        d,
        events,
        block_calls dss block.block,
        fetched,
        evs,
        index_block_data-run index_data dss block.block,
        ap (λ (b : IBlock). map raw_call (block_calls dss b.block)) is_wrapped
            ∙ raw-block_calls dss d events b e,
      )
