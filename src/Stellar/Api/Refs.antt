-- ===== src/Stellar/Api/Refs.antt =====
-- packages/node/src/stellar/api.stellar.ts: the events that the operations of a wrapped block hold are
-- objects of the block's own list.
use subql_stellar.Prelude.{
  ℕ, suc, ◌+◌, String, some, List, [], ◌∷◌, ok, >>=-eq-ok, ok-injective, map, map_index, map-map,
  get_elem?, lookup, All, All-map, All-map_index, All-filter, ◌===◌, to_decimal, group_of,
  group_from, try_group_from, group_of-group_from, arith, ◌≡◌, sym, ap, subst, ◌∙◌,
}
use subql_stellar.Types.{
  LedgerRecord, TransactionRecord, OperationRecord, EffectRecord, EventResponse, EventRef,
  SorobanEvent, StellarOperation, StellarTransaction, StellarBlock, ClonedTransaction,
}
use subql_stellar.Stellar.Api.Wrapping.{
  EventStore, event_refs, event_index_key, wrap_operation, wrap_operations_for_tx, set_transaction,
  effect_key, event_tx_hash, op_tx_hash, wrap_transaction, wrap_transactions_for_ledger,
}
use subql_stellar.Stellar.Api.Ledger.{set_ledger, set_transaction_ledger, assemble}
use subql_stellar.Stellar.Api.Blocks.{kept, assemble-events}

-- Reading the store at the reference's place gives the reference's event.
abbrev pub RefersTo : List EventResponse → EventRef → Type 0
RefersTo raws r = get_elem? raws r.place ≡ some r.raw

abbrev pub HoldsOnly : (EventRef → Type 0) → StellarTransaction → Type 0
HoldsOnly P tx = All (λ (op : StellarOperation). All P op.events) tx.operations

refs_from-RefersTo :
    (raws : List EventResponse) (i : ℕ) (es : EventStore)
    → ((j : ℕ) → get_elem? raws (j + i) ≡ get_elem? (map (λ (e : SorobanEvent). e.raw) es) j)
    → All
        (RefersTo raws)
        (map_index (λ i (e : SorobanEvent). record { place = i; raw = e.raw }) i es)
refs_from-RefersTo raws i [] read = tt
refs_from-RefersTo raws i (e ∷ es) read = (
  ap (get_elem? raws) (omega arith) ∙ read 0,
  refs_from-RefersTo raws (suc i) es λ j. ap (get_elem? raws) (omega arith) ∙ read (suc j),
)

event_refs-RefersTo :
    (store : EventStore)
    → All (RefersTo (map (λ (e : SorobanEvent). e.raw) store)) (event_refs store)
event_refs-RefersTo store =
    refs_from-RefersTo (map (λ (e : SorobanEvent). e.raw) store) 0 store
      (λ j. ap (get_elem? (map (λ (e : SorobanEvent). e.raw) store)) (omega arith))

pub assemble-raw_events :
    (ledger : LedgerRecord) (transactions : List TransactionRecord)
    (operations : List OperationRecord) (effects : List EffectRecord) (events : EventStore)
    (block : StellarBlock)
    → assemble ledger transactions operations effects events ≡ ok block
    → map (λ (e : SorobanEvent). e.raw) block.events ≡ map (λ (e : SorobanEvent). e.raw) events
assemble-raw_events ledger transactions operations effects events block h =
    sym (map-map kept (λ k. k.0) block.events)
    ∙ ap (map (λ k. k.0)) (assemble-events ledger transactions operations effects events block h)
    ∙ map-map kept (λ k. k.0) events

module _ (P : EventRef → Type 0) where
  All-group :
      (key : EventRef → String) (k : String) (events : List EventRef)
      → All P events
      → All P (group_of k (group_from key [] events))
  unfolding lookup
  All-group key k events h =
      subst (All P) (sym (group_of-group_from key k [] events))
        (All-filter (λ r. key r === k) P events h)

  wrap_operations-HoldsOnly :
      (ops : List OperationRecord) (groups : List (String × List EffectRecord))
      (events : List EventRef) (store : EventStore) (c : ClonedTransaction)
      → All P events
      → All
          (λ (op : StellarOperation). All P op.events)
          (map (set_transaction c) (wrap_operations_for_tx ops groups events store))
  unfolding wrap_operations_for_tx wrap_operation set_transaction
  wrap_operations-HoldsOnly ops groups events store c h =
      All-map (λ (op : StellarOperation). All P op.events)
        (λ (op : StellarOperation). All P op.events) (set_transaction c) (λ op k. k) _
        (All-map_index (λ (op : StellarOperation). All P op.events) _
          (λ i op. All-group event_index_key (to_decimal i) events h) 0 ops)

  wrap_transactions-HoldsOnly :
      (operations : List OperationRecord) (effects : List EffectRecord) (events : List EventRef)
      (txs : List TransactionRecord) (store store' : EventStore) (wrapped : List StellarTransaction)
      → All P events
      → wrap_transactions_for_ledger operations effects events txs store ≡ ok (wrapped, store')
      → All (HoldsOnly P) wrapped
  unfolding wrap_transactions_for_ledger wrap_transaction
  wrap_transactions-HoldsOnly operations effects events [] store store' wrapped all h =
      subst (λ (p : List StellarTransaction × EventStore). All (HoldsOnly P) p.0) (ok-injective h)
        tt
  wrap_transactions-HoldsOnly operations effects events (tx ∷ txs) store store' wrapped all h =
      let ((w, s1), e, h') = >>=-eq-ok (wrap_transaction operations effects events tx store) _ h in
      let ((ws, s2), e', h'') =
        >>=-eq-ok (wrap_transactions_for_ledger operations effects events txs s1) _ h' in
      let (groups, e1, e2) = >>=-eq-ok (try_group_from effect_key [] effects) _ e in
      subst (λ (p : List StellarTransaction × EventStore). All (HoldsOnly P) p.0) (ok-injective h'')
        (
          subst (λ (p : StellarTransaction × EventStore). HoldsOnly P p.0) (ok-injective e2)
              (wrap_operations-HoldsOnly (group_of tx.hash (group_from op_tx_hash [] operations))
                groups (group_of tx.hash (group_from event_tx_hash [] events)) store
                (record { raw = tx }) (All-group event_tx_hash tx.hash events all)),
          wrap_transactions-HoldsOnly operations effects events txs s1 s2 ws all e',
        )

  assemble-HoldsOnly :
      (ledger : LedgerRecord) (transactions : List TransactionRecord)
      (operations : List OperationRecord) (effects : List EffectRecord) (events : EventStore)
      (block : StellarBlock)
      → All P (event_refs events)
      → assemble ledger transactions operations effects events ≡ ok block
      → All (HoldsOnly P) block.transactions
  unfolding assemble set_transaction_ledger set_ledger
  assemble-HoldsOnly ledger transactions operations effects events block all h =
      let ((ws, store), e, h') =
        >>=-eq-ok
          (wrap_transactions_for_ledger operations effects (event_refs events) transactions events)
          _ h in
      subst (λ (b : StellarBlock). All (HoldsOnly P) b.transactions) (ok-injective h')
        (All-map (HoldsOnly P) (HoldsOnly P) _
          (λ tx k.
            All-map (λ (op : StellarOperation). All P op.events)
              (λ (op : StellarOperation). All P op.events) _ (λ op k. k) tx.operations k)
          ws
          (wrap_transactions-HoldsOnly operations effects (event_refs events) transactions events
            store ws all e))

-- The same of the block's own list, whose data are those that were fetched.
abbrev pub HoldsItsEvents : StellarBlock → Type 0
HoldsItsEvents block =
    All (HoldsOnly (RefersTo (map (λ (e : SorobanEvent). e.raw) block.events))) block.transactions

pub assemble-HoldsItsEvents :
    (ledger : LedgerRecord) (transactions : List TransactionRecord)
    (operations : List OperationRecord) (effects : List EffectRecord) (events : EventStore)
    (block : StellarBlock)
    → assemble ledger transactions operations effects events ≡ ok block
    → HoldsItsEvents block
assemble-HoldsItsEvents ledger transactions operations effects events block h =
    subst (λ raws. All (HoldsOnly (RefersTo raws)) block.transactions)
      (sym (assemble-raw_events ledger transactions operations effects events block h))
      (assemble-HoldsOnly (RefersTo (map (λ (e : SorobanEvent). e.raw) events)) ledger transactions
        operations effects events block (event_refs-RefersTo events) h)
