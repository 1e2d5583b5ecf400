-- ===== src/Stellar/Api/Outline.antt =====
-- packages/node/src/stellar/api.stellar.ts: the raw records that a wrapped block holds, and where.
use subql_stellar.Prelude.{
  ℕ, suc, String, Option, none, some, List, [], ◌∷◌, Bool, false, ◌==◌, ◌===◌, ok, >>=-eq-ok,
  ok-injective, map, map_index, filter, ◌≡◌, refl, sym, ap, ap₂, ◌∙◌, arith, eq_iff, eq_refl,
  Bool-cases, inl, inr, to_decimal, group_of, group_from, try_group_from, key_is,
  group_of-group_from, group_of-try_group_from, map-map, map-map_index, map-filter, map_ext,
  map_index_ext, map_self, to_decimal-injective, undefined-ne-to_decimal, ==_iff, lookup,
}
use subql_stellar.Types.{
  LedgerRecord, TransactionRecord, OperationRecord, EffectRecord, EventResponse, EventRef,
  SorobanEvent, StellarEffect, StellarOperation, StellarTransaction, StellarBlock,
  ClonedTransaction, ClonedLedger,
}
use subql_stellar.Stellar.Api.Wrapping.{
  EventStore, event_refs, index_key, event_index_key, wrap_effect, wrap_operation,
  wrap_operations_for_tx, effect_key, set_transaction, event_tx_hash, op_tx_hash, wrap_transaction,
  wrap_transactions_for_ledger,
}
use subql_stellar.Stellar.Api.Ledger.{set_ledger, set_transaction_ledger, assemble}

abbrev pub OperationOutline : Type 0
OperationOutline = OperationRecord × List EffectRecord × List EventResponse

-- The raw records of an operation, of its effects and of its events.
abbrev pub operation_outline : StellarOperation → OperationOutline
operation_outline op =
    (op.raw, map (λ (e : StellarEffect). e.raw) op.effects, map (λ (r : EventRef). r.raw) op.events)

abbrev pub outline : StellarTransaction → TransactionRecord × List OperationOutline
outline tx = (tx.raw, map operation_outline tx.operations)

abbrev pub is_at_index : ℕ → EventResponse → Bool
is_at_index index e = elim e.operation_index [ none ↦ false | some n ↦ n == index ]

abbrev pub expected_operation :
    List EffectRecord → List EventResponse → ℕ → OperationRecord → OperationOutline
expected_operation effects tx_events index op =
    (op, filter (key_is effect_key op.id) effects, filter (is_at_index index) tx_events)

-- What a transaction is to hold: the operations with its hash in their order; with each operation
-- the effects whose id begins with the operation's, and the transaction's events that name the
-- operation's place among the transaction's operations.
abbrev pub expected :
    List OperationRecord
    → List EffectRecord
    → List EventResponse
    → TransactionRecord
    → TransactionRecord × List OperationOutline
expected operations effects events tx = (
  tx,
  map_index
      (expected_operation effects (filter (λ (e : EventResponse). e.tx_hash === tx.hash) events)) 0
      (filter (λ (op : OperationRecord). op.transaction_hash === tx.hash) operations),
)

operation_outline-set_transaction :
    (c : ClonedTransaction) (op : StellarOperation)
    → operation_outline (set_transaction c op) ≡ operation_outline op
unfolding set_transaction
operation_outline-set_transaction c op = rw map-map refl

operation_outline-set_ledger :
    (c : ClonedLedger) (op : StellarOperation)
    → operation_outline (set_ledger c op) ≡ operation_outline op
unfolding set_ledger
operation_outline-set_ledger c op = rw map-map refl

outline-set_transaction_ledger :
    (c : ClonedLedger) (tx : StellarTransaction)
    → outline (set_transaction_ledger c tx) ≡ outline tx
unfolding set_transaction_ledger
outline-set_transaction_ledger c tx =
    rw (map-map, map_ext _ _ (operation_outline-set_ledger c)) refl

index_key_is_at :
    (index : ℕ) (o : Option ℕ)
    → (index_key o === to_decimal index) ≡ elim o [ none ↦ false | some n ↦ n == index ]
index_key_is_at index none = elim (Bool-cases ("undefined" === to_decimal index)) [
  | inl same ↦
      absurd (undefined-ne-to_decimal index ((eq_iff "undefined" (to_decimal index)).0 same))
  | inr other ↦ other
]
index_key_is_at index (some n) = elim (Bool-cases (n == index)) [
  | inl same ↦ rw (same, (==_iff n index).0 same) (eq_refl (to_decimal index))
  | inr other ↦ elim (Bool-cases (to_decimal n === to_decimal index)) [
    | inl same ↦
        let e = to_decimal-injective n index ((eq_iff (to_decimal n) (to_decimal index)).0 same) in
        ground (arith, e, other)
    | inr other' ↦ rw (other, other')
  ]
]

index_key_is :
    (index : ℕ) (r : EventRef) → (event_index_key r === to_decimal index) ≡ is_at_index index r.raw
index_key_is index r = index_key_is_at index r.raw.operation_index

raw-event_refs :
    (store : EventStore)
    → map (λ (r : EventRef). r.raw) (event_refs store) ≡ map (λ (e : SorobanEvent). e.raw) store
raw-event_refs store = raw_refs-from 0 store
  where
    raw_refs-from :
        (i : ℕ) (es : EventStore)
        → map
            (λ (r : EventRef). r.raw)
            (map_index (λ i (e : SorobanEvent). record { place = i; raw = e.raw }) i es)
          ≡ map (λ (e : SorobanEvent). e.raw) es
    raw_refs-from i [] = refl
    raw_refs-from i (e ∷ es) = ap (◌∷◌ e.raw) (raw_refs-from (suc i) es)

operation_outline-wrap_operation :
    (groups : List (String × List EffectRecord)) (effects : List EffectRecord)
    (events : List EventRef) (store : EventStore) (index : ℕ) (op : OperationRecord)
    → try_group_from effect_key [] effects ≡ ok groups
    → operation_outline
        (wrap_operation groups (group_from event_index_key [] events) store index op)
      ≡ expected_operation effects (map (λ (r : EventRef). r.raw) events) index op
unfolding wrap_operation wrap_effect lookup
operation_outline-wrap_operation groups effects events store index op h =
    ap₂ (λ (l : List EffectRecord) (r : List EventResponse). (op, l, r)) effects_of events_of
  where
    effects_of :
        map
          (λ (e : StellarEffect). e.raw)
          (wrap_operation groups (group_from event_index_key [] events) store index op).effects
        ≡ filter (key_is effect_key op.id) effects
    effects_of =
        map-map _ _ _ ∙ map_self _ ∙ group_of-try_group_from effect_key op.id [] groups effects h

    events_of :
        map
          (λ (r : EventRef). r.raw)
          (group_of (to_decimal index) (group_from event_index_key [] events))
        ≡ filter (is_at_index index) (map (λ (r : EventRef). r.raw) events)
    events_of =
        ap (map (λ (r : EventRef). r.raw))
          (group_of-group_from event_index_key (to_decimal index) [] events)
        ∙ map-filter (λ (r : EventRef). r.raw) _ (is_at_index index) (index_key_is index) events

outline_operations :
    (groups : List (String × List EffectRecord)) (effects : List EffectRecord)
    (events : List EventRef) (store : EventStore) (ops : List OperationRecord)
    (c : ClonedTransaction)
    → try_group_from effect_key [] effects ≡ ok groups
    → map operation_outline
        (map (set_transaction c) (wrap_operations_for_tx ops groups events store))
      ≡ map_index (expected_operation effects (map (λ (r : EventRef). r.raw) events)) 0 ops
unfolding wrap_operations_for_tx
outline_operations groups effects events store ops c h =
    map-map _ _ _
    ∙ map_ext _ _ (operation_outline-set_transaction c)
        (wrap_operations_for_tx ops groups events store)
    ∙ map-map_index _ _ 0 ops
    ∙ map_index_ext _ _
        (λ i op. operation_outline-wrap_operation groups effects events store i op h) 0 ops

raw-events_of :
    (hash : String) (events : List EventRef)
    → map (λ (r : EventRef). r.raw) (group_of hash (group_from event_tx_hash [] events))
      ≡ filter (λ (e : EventResponse). e.tx_hash === hash) (map (λ (r : EventRef). r.raw) events)
unfolding lookup
raw-events_of hash events =
    ap (map (λ (r : EventRef). r.raw)) (group_of-group_from event_tx_hash hash [] events)
    ∙ map-filter (λ (r : EventRef). r.raw) _ (λ (e : EventResponse). e.tx_hash === hash) (λ r. refl)
        events

outline-wrap_transaction :
    (operations : List OperationRecord) (effects : List EffectRecord) (events : List EventRef)
    (tx : TransactionRecord) (store store' : EventStore) (wrapped : StellarTransaction)
    → wrap_transaction operations effects events tx store ≡ ok (wrapped, store')
    → outline wrapped ≡ expected operations effects (map (λ (r : EventRef). r.raw) events) tx
unfolding wrap_transaction lookup
outline-wrap_transaction operations effects events tx store store' wrapped h =
    let (groups, e, h') = >>=-eq-ok (try_group_from effect_key [] effects) _ h in
    let same = ap (λ (p : StellarTransaction × EventStore). outline p.0) (sym (ok-injective h')) in
    same
    ∙ ap (λ l. (tx, l))
        (outline_operations groups effects _ store _ (record { raw = tx }) e
          ∙ ap₂ (λ es os. map_index (expected_operation effects es) 0 os)
              (raw-events_of tx.hash events) (group_of-group_from op_tx_hash tx.hash [] operations))

outline-wrap_transactions :
    (operations : List OperationRecord) (effects : List EffectRecord) (events : List EventRef)
    (txs : List TransactionRecord) (store store' : EventStore) (wrapped : List StellarTransaction)
    → wrap_transactions_for_ledger operations effects events txs store ≡ ok (wrapped, store')
    → map outline wrapped
      ≡ map (expected operations effects (map (λ (r : EventRef). r.raw) events)) txs
unfolding wrap_transactions_for_ledger
outline-wrap_transactions operations effects events [] store store' wrapped h =
    ap (λ (p : List StellarTransaction × EventStore). map outline p.0) (sym (ok-injective h))
outline-wrap_transactions operations effects events (tx ∷ txs) store store' wrapped h =
    let ((w, s1), e, h') = >>=-eq-ok (wrap_transaction operations effects events tx store) _ h in
    let ((ws, s2), e', h'') =
      >>=-eq-ok (wrap_transactions_for_ledger operations effects events txs s1) _ h' in
    ap (λ (p : List StellarTransaction × EventStore). map outline p.0) (sym (ok-injective h''))
    ∙ ap₂ (◌∷◌) (outline-wrap_transaction operations effects events tx store s1 w e)
        (outline-wrap_transactions operations effects events txs s1 s2 ws e')

-- A wrapped block holds the ledger's transactions in their order. Each holds the operations with its
-- hash in their order; each operation holds the effects whose id begins with the operation's, as
-- numbers, and the events of the transaction that name the operation's place in the transaction.
pub assemble-outline :
    (ledger : LedgerRecord) (transactions : List TransactionRecord)
    (operations : List OperationRecord) (effects : List EffectRecord) (events : EventStore)
    (block : StellarBlock)
    → assemble ledger transactions operations effects events ≡ ok block
    → map outline block.transactions
      ≡ map (expected operations effects (map (λ (e : SorobanEvent). e.raw) events)) transactions
unfolding assemble
assemble-outline ledger transactions operations effects events block h =
    let ((ws, store), e, h') =
      >>=-eq-ok
        (wrap_transactions_for_ledger operations effects (event_refs events) transactions events) _
        h in
    ap (λ (b : StellarBlock). map outline b.transactions) (sym (ok-injective h'))
    ∙ map-map _ _ _
    ∙ map_ext _ _ (outline-set_transaction_ledger _) ws
    ∙ outline-wrap_transactions operations effects (event_refs events) transactions events store ws
        e
    ∙ ap (λ es. map (expected operations effects es) transactions) (raw-event_refs events)
