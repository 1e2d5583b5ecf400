-- ===== src/Stellar/Api/Links.antt =====
-- packages/node/src/stellar/api.stellar.ts: the references of a wrapped block from its parts to what they
-- belong to.
use subql_stellar.Prelude.{
  ℕ, String, some, List, [], ◌∷◌, ok, >>=-eq-ok, ok-injective, map, flat_map, All, All-map,
  All-map-All, All-map_index, map-flat_map, flat_map-map, ◌≡◌, refl, sym, ap, subst, ◌∙◌,
  option_map, group_of, group_from, try_group_from,
}
use subql_stellar.Types.{
  LedgerRecord, TransactionRecord, OperationRecord, EffectRecord, EventRef, StellarEffect,
  StellarOperation, StellarTransaction, StellarBlock, ClonedTransaction, ClonedOperation,
  ClonedLedger,
}
use subql_stellar.Stellar.Api.Wrapping.{
  EventStore, event_refs, event_index_key, wrap_operation, wrap_operations_for_tx, set_transaction,
  effect_key, event_tx_hash, op_tx_hash, wrap_transaction, wrap_transactions_for_ledger,
}
use subql_stellar.Stellar.Api.Ledger.{set_ledger, set_transaction_ledger, assemble}

-- An effect points at its operation, its transaction and its ledger.
abbrev EffectOf : OperationRecord → StellarEffect → Type 0
EffectOf op e = option_map (λ (c : ClonedOperation). c.raw) e.operation ≡ some op

abbrev EffectIn : OperationRecord → ClonedTransaction → StellarEffect → Type 0
EffectIn op c e = EffectOf op e × (e.transaction ≡ some c)

abbrev OperationIn : ClonedTransaction → StellarOperation → Type 0
OperationIn c op = (op.transaction ≡ some c) × All (EffectIn op.raw c) op.effects

abbrev IsEffectLinked : LedgerRecord → OperationRecord → ClonedTransaction → StellarEffect → Type 0
IsEffectLinked ledger op c e =
    EffectIn op c e × (option_map (λ (c : ClonedLedger). c.raw) e.ledger ≡ some ledger)

abbrev IsOperationLinked : LedgerRecord → ClonedTransaction → StellarOperation → Type 0
IsOperationLinked ledger c op =
    (op.transaction ≡ some c)
    × (option_map (λ (c : ClonedLedger). c.raw) op.ledger ≡ some ledger)
    × All (IsEffectLinked ledger op.raw c) op.effects

abbrev effects_of : StellarTransaction → List StellarEffect
effects_of tx = flat_map (λ (op : StellarOperation). op.effects) tx.operations

abbrev IsWrapped : StellarTransaction → Type 0
IsWrapped tx =
    All (OperationIn (record { raw = tx.raw })) tx.operations × (tx.effects ≡ effects_of tx)

-- A transaction points at its ledger, its operations at it and the ledger, and their effects at all
-- three; its own list of effects is that of its operations in their order.
abbrev pub IsLinked : LedgerRecord → StellarTransaction → Type 0
IsLinked ledger tx =
    (option_map (λ (c : ClonedLedger). c.raw) tx.ledger ≡ some ledger)
    × All (IsOperationLinked ledger (record { raw = tx.raw })) tx.operations
    × (tx.effects ≡ effects_of tx)

wrap_operation-EffectOf :
    (groups : List (String × List EffectRecord)) (events : List (String × List EventRef))
    (store : EventStore) (i : ℕ) (op : OperationRecord)
    → All (EffectOf op) (wrap_operation groups events store i op).effects
unfolding wrap_operation
wrap_operation-EffectOf groups events store i op =
    All-map-All (EffectOf op) _ (λ e. refl) (group_of op.id groups)

set_transaction-OperationIn :
    (c : ClonedTransaction) (op : StellarOperation)
    → All (EffectOf op.raw) op.effects
    → OperationIn c (set_transaction c op)
unfolding set_transaction
set_transaction-OperationIn c op h =
    (refl, All-map (EffectOf op.raw) (EffectIn op.raw c) _ (λ e k. (k, refl)) op.effects h)

wrap_operations-OperationIn :
    (ops : List OperationRecord) (groups : List (String × List EffectRecord))
    (events : List EventRef) (store : EventStore) (c : ClonedTransaction)
    → All (OperationIn c) (map (set_transaction c) (wrap_operations_for_tx ops groups events store))
unfolding wrap_operations_for_tx wrap_operation
wrap_operations-OperationIn ops groups events store c =
    All-map (λ op. All (EffectOf op.raw) op.effects) (OperationIn c) (set_transaction c)
      (set_transaction-OperationIn c) _
      (All-map_index (λ op. All (EffectOf op.raw) op.effects) _
        (λ i op. wrap_operation-EffectOf groups (group_from event_index_key [] events) store i op) 0
        ops)

wrap_transaction-IsWrapped :
    (operations : List OperationRecord) (effects : List EffectRecord) (events : List EventRef)
    (tx : TransactionRecord) (store store' : EventStore) (wrapped : StellarTransaction)
    → wrap_transaction operations effects events tx store ≡ ok (wrapped, store')
    → IsWrapped wrapped
unfolding wrap_transaction
wrap_transaction-IsWrapped operations effects events tx store store' wrapped h =
    let (groups, e, h') = >>=-eq-ok (try_group_from effect_key [] effects) _ h in
    subst (λ (p : StellarTransaction × EventStore). IsWrapped p.0) (ok-injective h')
      (
        wrap_operations-OperationIn (group_of tx.hash (group_from op_tx_hash [] operations)) groups
            (group_of tx.hash (group_from event_tx_hash [] events)) store (record { raw = tx }),
        refl,
      )

wrap_transactions-IsWrapped :
    (operations : List OperationRecord) (effects : List EffectRecord) (events : List EventRef)
    (txs : List TransactionRecord) (store store' : EventStore) (wrapped : List StellarTransaction)
    → wrap_transactions_for_ledger operations effects events txs store ≡ ok (wrapped, store')
    → All IsWrapped wrapped
unfolding wrap_transactions_for_ledger
wrap_transactions-IsWrapped operations effects events [] store store' wrapped h =
    subst (λ (p : List StellarTransaction × EventStore). All IsWrapped p.0) (ok-injective h) tt
wrap_transactions-IsWrapped operations effects events (tx ∷ txs) store store' wrapped h =
    let ((w, s1), e, h') = >>=-eq-ok (wrap_transaction operations effects events tx store) _ h in
    let ((ws, s2), e', h'') =
      >>=-eq-ok (wrap_transactions_for_ledger operations effects events txs s1) _ h' in
    subst (λ (p : List StellarTransaction × EventStore). All IsWrapped p.0) (ok-injective h'')
      (
        wrap_transaction-IsWrapped operations effects events tx store s1 w e,
        wrap_transactions-IsWrapped operations effects events txs s1 s2 ws e',
      )

set_ledger-IsOperationLinked :
    (c : ClonedLedger) (t : ClonedTransaction) (op : StellarOperation)
    → OperationIn t op
    → IsOperationLinked c.raw t (set_ledger c op)
unfolding set_ledger
set_ledger-IsOperationLinked c t op h = (
  h.0,
  refl,
  All-map (EffectIn op.raw t) (IsEffectLinked c.raw op.raw t) _ (λ e k. (k, refl)) op.effects h.1,
)

set_transaction_ledger-IsLinked :
    (c : ClonedLedger) (tx : StellarTransaction)
    → IsWrapped tx
    → IsLinked c.raw (set_transaction_ledger c tx)
unfolding set_transaction_ledger set_ledger
set_transaction_ledger-IsLinked c tx h = (
  refl,
  All-map (OperationIn (record { raw = tx.raw }))
      (IsOperationLinked c.raw (record { raw = tx.raw })) (set_ledger c)
      (set_ledger-IsOperationLinked c (record { raw = tx.raw })) tx.operations h.0,
  ap (map _) h.1
      ∙ map-flat_map _ _ tx.operations
      ∙ sym (flat_map-map (set_ledger c) _ tx.operations),
)

-- In a wrapped block every transaction points at the ledger, every operation at the ledger and its
-- transaction, and every effect at those and its operation; a transaction's effects are those of its
-- operations, in order.
pub assemble-IsLinked :
    (ledger : LedgerRecord) (transactions : List TransactionRecord)
    (operations : List OperationRecord) (effects : List EffectRecord) (events : EventStore)
    (block : StellarBlock)
    → assemble ledger transactions operations effects events ≡ ok block
    → All (IsLinked ledger) block.transactions
unfolding assemble
assemble-IsLinked ledger transactions operations effects events block h =
    let ((ws, store), e, h') =
      >>=-eq-ok
        (wrap_transactions_for_ledger operations effects (event_refs events) transactions events) _
        h in
    subst (λ (b : StellarBlock). All (IsLinked ledger) b.transactions) (ok-injective h')
      (All-map IsWrapped (IsLinked ledger) _ (set_transaction_ledger-IsLinked _) ws (
        wrap_transactions-IsWrapped operations effects (event_refs events) transactions events store
          ws e))

-- The block's operations are those of its transactions, in order, and its effects are those of its
-- operations.
pub assemble-flattens :
    (ledger : LedgerRecord) (transactions : List TransactionRecord)
    (operations : List OperationRecord) (effects : List EffectRecord) (events : EventStore)
    (block : StellarBlock)
    → assemble ledger transactions operations effects events ≡ ok block
    → (block.operations ≡ flat_map (λ (tx : StellarTransaction). tx.operations) block.transactions)
      × (block.effects ≡ flat_map (λ (op : StellarOperation). op.effects) block.operations)
unfolding assemble
assemble-flattens ledger transactions operations effects events block h =
    let ((ws, store), e, h') =
      >>=-eq-ok
        (wrap_transactions_for_ledger operations effects (event_refs events) transactions events) _
        h in
    subst
      (λ (b : StellarBlock).
        (b.operations ≡ flat_map (λ (tx : StellarTransaction). tx.operations) b.transactions)
        × (b.effects ≡ flat_map (λ (op : StellarOperation). op.effects) b.operations))
      (ok-injective h') (refl, refl)
