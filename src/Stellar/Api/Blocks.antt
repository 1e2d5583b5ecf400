-- ===== src/Stellar/Api/Blocks.antt =====
-- packages/node/src/stellar/api.stellar.ts: the events of a wrapped block, the batch of blocks, and an API
-- without a Soroban client.
use subql_stellar.Prelude.{
  ℕ, zero, suc, Option, none, some, List, [], ◌∷◌, Result, ok, >>=-eq-ok, ok-injective,
  some-injective, map, ◌≡◌, ◌≢◌, refl, sym, ap, ap₂, ◌∙◌, JsNumber, try_group_from,
}
use subql_stellar.Types.{
  LedgerRecord, TransactionRecord, OperationRecord, EffectRecord, EventResponse, EventRef,
  SorobanEvent, StellarTransaction, StellarBlock,
}
use subql_stellar.Stellar.Soroban.{EventsCache, GetEventsRequest, GetEventsResponse}
use subql_stellar.Stellar.Utils.{IBlock, format_block_util, stellar_block_to_header}
use subql_stellar.Stellar.Api.{Horizon, StellarApi, soroban_client}
use subql_stellar.Stellar.Api.Paging.{
  fetch_transactions_for_ledger, fetch_operations_for_ledger, fetch_effects_for_ledger,
}
use subql_stellar.Stellar.Api.Wrapping.{
  EventStore, event_refs, write_at, write_all, effect_key, wrap_transaction,
  wrap_transactions_for_ledger,
}
use subql_stellar.Stellar.Api.Ledger.{
  assemble, LedgerData, fetch_ledger_data, fetch_ledger_events, fetch_and_wrap_ledger, fetch_blocks,
}
use subql_stellar.Stellar.Api.Parts.{
  done-eq-ok, then_result-eq-ok, then_cached-eq-ok, fetch_and_wrap_ledger-parts,
}

-- What a write leaves of an event: its data, and the absence of an operation.
abbrev pub kept : SorobanEvent → EventResponse × Option (Unit {0})
kept e = (e.raw, elim e.operation [ none ↦ none | some o ↦ some tt ])

module _ (f : SorobanEvent → SorobanEvent) (keeps : (e : SorobanEvent) → kept (f e) ≡ kept e) where
  kept-write_at :
      (place : ℕ) (store : EventStore) → map kept (write_at place f store) ≡ map kept store
  kept-write_at place [] = refl
  kept-write_at zero (e ∷ es) = ap (λ k. k ∷ map kept es) (keeps e)
  kept-write_at (suc place) (e ∷ es) = ap (◌∷◌ (kept e)) (kept-write_at place es)

  kept-write_all :
      (rs : List EventRef) (store : EventStore) → map kept (write_all f rs store) ≡ map kept store
  unfolding write_all
  kept-write_all [] store = refl
  kept-write_all (r ∷ rs) store =
      kept-write_all rs (write_at r.place f store) ∙ kept-write_at r.place store

kept-wrap_transactions :
    (operations : List OperationRecord) (effects : List EffectRecord) (events : List EventRef)
    (txs : List TransactionRecord) (store store' : EventStore) (wrapped : List StellarTransaction)
    → wrap_transactions_for_ledger operations effects events txs store ≡ ok (wrapped, store')
    → map kept store' ≡ map kept store
unfolding wrap_transactions_for_ledger wrap_transaction
kept-wrap_transactions operations effects events [] store store' wrapped h =
    ap (λ (p : List StellarTransaction × EventStore). map kept p.1) (sym (ok-injective h))
kept-wrap_transactions operations effects events (tx ∷ txs) store store' wrapped h =
    let ((w, s1), e, h') = >>=-eq-ok (wrap_transaction operations effects events tx store) _ h in
    let ((ws, s2), e', h'') =
      >>=-eq-ok (wrap_transactions_for_ledger operations effects events txs s1) _ h' in
    let (groups, e1, e2) = >>=-eq-ok (try_group_from effect_key [] effects) _ e in
    ap (λ (p : List StellarTransaction × EventStore). map kept p.1) (sym (ok-injective h''))
    ∙ kept-wrap_transactions operations effects events txs s1 s2 ws e'
    ∙ ap (λ (p : StellarTransaction × EventStore). map kept p.1) (sym (ok-injective e2))
    ∙ kept-write_all _ (λ e. refl) _ store

-- A wrapped block holds the events that were fetched, in their order and with their data unchanged;
-- wrapping never sets an event's operation.
pub assemble-events :
    (ledger : LedgerRecord) (transactions : List TransactionRecord)
    (operations : List OperationRecord) (effects : List EffectRecord) (events : EventStore)
    (block : StellarBlock)
    → assemble ledger transactions operations effects events ≡ ok block
    → map kept block.events ≡ map kept events
unfolding assemble
assemble-events ledger transactions operations effects events block h =
    let ((ws, store), e, h') =
      >>=-eq-ok
        (wrap_transactions_for_ledger operations effects (event_refs events) transactions events) _
        h in
    ap (λ (b : StellarBlock). map kept b.events) (sym (ok-injective h'))
    ∙ kept-write_all _ (λ e. refl) _ store
    ∙ kept-wrap_transactions operations effects (event_refs events) transactions events store ws e

pub assemble-raw :
    (ledger : LedgerRecord) (transactions : List TransactionRecord)
    (operations : List OperationRecord) (effects : List EffectRecord) (events : EventStore)
    (block : StellarBlock)
    → assemble ledger transactions operations effects events ≡ ok block
    → block.raw ≡ ledger
unfolding assemble
assemble-raw ledger transactions operations effects events block h =
    let ((ws, store), e, h') =
      >>=-eq-ok
        (wrap_transactions_for_ledger operations effects (event_refs events) transactions events) _
        h in
    ap (λ (b : StellarBlock). b.raw) (sym (ok-injective h'))

module _ (rpc : ℕ → GetEventsRequest → Result GetEventsResponse) (latest_ledger : Result ℕ)
    (horizon : Horizon) (fuel now : ℕ) (api : StellarApi) where
  -- Without a Soroban client no batch with a ledger is ever fetched, whatever the servers answer: not even
  -- one of ledgers without a contract call, whose events are never asked for.
  pub fetch_blocks-no_client :
      (cache cache' : EventsCache) (sequence : ℕ) (heights : List ℕ) (blocks : List IBlock)
      → api.soroban_client ≡ none
      → fetch_blocks rpc latest_ledger horizon fuel now api cache (sequence ∷ heights)
        ≢ some (ok blocks, cache')
  unfolding fetch_blocks fetch_ledger_events soroban_client
  fetch_blocks-no_client cache cache' sequence heights blocks no_client h =
      let (block, c1, e1, h1) =
        then_cached-eq-ok
          (fetch_and_wrap_ledger rpc latest_ledger horizon fuel now api cache sequence) _ h in
      let (d, events, b, fetched, evs, e, is_wrapped) =
        fetch_and_wrap_ledger-parts rpc latest_ledger horizon fuel now api cache c1 sequence block
          e1 in
      cc (rw no_client at evs)

  module _
      (names : (s : ℕ) (l : LedgerRecord)
        → horizon.ledger (JsNumber.pos s) ≡ ok l
        → l.sequence ≡ s) where
    fetch_ledger_data-sequence :
        (sequence : ℕ) (d : LedgerData)
        → fetch_ledger_data rpc latest_ledger horizon fuel now api sequence ≡ some (ok d)
        → d.ledger.sequence ≡ sequence
    unfolding fetch_ledger_data
    fetch_ledger_data-sequence sequence d h =
        let (l, e, h1) = then_result-eq-ok (some (horizon.ledger (JsNumber.pos sequence))) _ h in
        let (txs, e1, h2) =
          then_result-eq-ok (fetch_transactions_for_ledger horizon api fuel sequence) _ h1 in
        let (ops, e2, h3) =
          then_result-eq-ok (fetch_operations_for_ledger horizon api fuel sequence) _ h2 in
        let (effs, e3, h4) =
          then_result-eq-ok (fetch_effects_for_ledger horizon api fuel sequence) _ h3 in
        ap (λ (d : LedgerData). d.ledger.sequence) (sym (ok-injective (some-injective _ _ h4)))
        ∙ names sequence l (some-injective _ _ e)

    fetch_and_wrap_ledger-height :
        (cache cache' : EventsCache) (sequence : ℕ) (block : IBlock)
        → fetch_and_wrap_ledger rpc latest_ledger horizon fuel now api cache sequence
          ≡ some (ok block, cache')
        → block.header.block_height ≡ sequence
    unfolding format_block_util stellar_block_to_header
    fetch_and_wrap_ledger-height cache cache' sequence block h =
        let (d, events, b, fetched, evs, e, is_wrapped) =
          fetch_and_wrap_ledger-parts rpc latest_ledger horizon fuel now api cache cache' sequence
            block h in
        ap (λ (b : IBlock). b.header.block_height) is_wrapped
        ∙ ap (λ (r : LedgerRecord). r.sequence)
            (assemble-raw d.ledger d.transactions d.operations d.effects events b e)
        ∙ fetch_ledger_data-sequence sequence d fetched

    -- Where the Horizon server answers a ledger by the number asked for, a batch that is fetched holds
    -- the blocks of the heights that were asked for, in the order in which they were asked for.
    pub fetch_blocks-heights :
        (cache cache' : EventsCache) (heights : List ℕ) (blocks : List IBlock)
        → fetch_blocks rpc latest_ledger horizon fuel now api cache heights
          ≡ some (ok blocks, cache')
        → map (λ (b : IBlock). b.header.block_height) blocks ≡ heights
    unfolding fetch_blocks
    fetch_blocks-heights cache cache' [] blocks h =
        ap (map (λ (b : IBlock). b.header.block_height))
          (sym (ok-injective (done-eq-ok _ cache cache' h)))
    fetch_blocks-heights cache cache' (s ∷ ss) blocks h =
        let (b, c1, e1, h1) =
          then_cached-eq-ok (fetch_and_wrap_ledger rpc latest_ledger horizon fuel now api cache s) _
            h in
        let (bs, c2, e2, h2) =
          then_cached-eq-ok (fetch_blocks rpc latest_ledger horizon fuel now api c1 ss) _ h1 in
        ap (map (λ (b : IBlock). b.header.block_height))
          (sym (ok-injective (done-eq-ok _ c2 cache' h2)))
        ∙ ap₂ (◌∷◌) (fetch_and_wrap_ledger-height cache c1 s b e1)
            (fetch_blocks-heights c1 c2 ss bs e2)
