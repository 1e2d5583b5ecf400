-- ===== src/Stellar/Api/Wrapping.antt =====
-- packages/node/src/stellar/api.stellar.ts: `wrapEffect`, `wrapOperationsForTx` and
-- `wrapTransactionsForLedger`. The events are objects that are written through the operations that
-- hold them; `EventStore` is the list of them, and an `EventRef` says which one is meant.
use subql_stellar.Prelude.{
  ℕ, zero, suc, String, Option, none, some, List, [], ◌∷◌, Result, ok, ◌>>=◌, map, map_index,
  flat_map, get_elem?, to_decimal, big_int, before_dash, group_of, group_from, try_group_from,
}
use subql_stellar.Types.{
  TransactionRecord, OperationRecord, EffectRecord, EventRef, SorobanEvent, StellarEffect,
  StellarOperation, StellarTransaction, ClonedTransaction, ClonedOperation, ClonedEvent,
}

abbrev pub EventStore : Type 0
EventStore = List SorobanEvent

-- `eventsForSequence`, as references into the store.
abbrev pub event_refs : EventStore → List EventRef
event_refs store = map_index (λ i (e : SorobanEvent). record { place = i; raw = e.raw }) 0 store

-- A write to the event objects at some places.
abbrev pub write_at : ℕ → (SorobanEvent → SorobanEvent) → EventStore → EventStore
write_at place f [] = []
write_at zero f (e ∷ es) = f e ∷ es
write_at (suc place) f (e ∷ es) = e ∷ write_at place f es

unfoldable pub write_all : (SorobanEvent → SorobanEvent) → List EventRef → EventStore → EventStore
write_all f [] store = store
write_all f (r ∷ rs) store = write_all f rs (write_at r.place f store)

-- What `cloneDeep` makes of an event that an operation or a ledger holds.
abbrev pub clone_event : SorobanEvent → ClonedEvent
clone_event e = record { raw = e.raw; transaction = e.transaction }

clone_ref : EventStore → EventRef → ClonedEvent
clone_ref store r = elim (get_elem? store r.place) [
  | none ↦ record { raw = r.raw; transaction = none }
  | some e ↦ clone_event e
]

unfoldable pub wrap_effect : EffectRecord → StellarEffect
wrap_effect effect = record { raw = effect; operation = none; transaction = none; ledger = none }

-- The key of an event's group: a number as a property's name, or `undefined`.
abbrev pub index_key : Option ℕ → String
index_key none = "undefined"
index_key (some n) = to_decimal n

abbrev pub event_index_key : EventRef → String
event_index_key r = index_key r.raw.operation_index

unfoldable pub wrap_operation :
    List (String × List EffectRecord)
    → List (String × List EventRef)
    → EventStore
    → ℕ
    → OperationRecord
    → StellarOperation
unfolding clone_ref
wrap_operation effects_for_sequence grouped_evts store index op =
    let events = group_of (to_decimal index) grouped_evts in
    let cloned_op : ClonedOperation = record { raw = op; events = map (clone_ref store) events } in
    record {
      raw = op;
      effects =
          map (λ (e : EffectRecord). record (wrap_effect e) { operation = some cloned_op })
            (group_of op.id effects_for_sequence);
      transaction = none;
      ledger = none;
      events = events;
    }

unfoldable pub wrap_operations_for_tx :
    List OperationRecord
    → List (String × List EffectRecord)
    → List EventRef
    → EventStore
    → List StellarOperation
wrap_operations_for_tx operations effects_for_sequence events store =
    map_index (wrap_operation effects_for_sequence (group_from event_index_key [] events) store) 0
      operations

-- `BigInt(item.id.split('-')[0]).toString()`
unfoldable pub effect_key : EffectRecord → Result String
effect_key item = do n ← big_int (before_dash item.id); ok (to_decimal n)

-- `op.transaction = clonedTx`, and the same of its effects.
unfoldable pub set_transaction : ClonedTransaction → StellarOperation → StellarOperation
set_transaction cloned_tx op = record op {
  transaction = some cloned_tx;
  effects = map (λ (e : StellarEffect). record e { transaction = some cloned_tx }) op.effects;
}

abbrev pub event_tx_hash : EventRef → String
event_tx_hash r = r.raw.tx_hash

abbrev pub op_tx_hash : OperationRecord → String
op_tx_hash op = op.transaction_hash

-- One round of the map over the transactions, with the store that it leaves.
unfoldable pub wrap_transaction :
    List OperationRecord
    → List EffectRecord
    → List EventRef
    → TransactionRecord
    → EventStore
    → Result (StellarTransaction × EventStore)
wrap_transaction operations effects events tx store = do
  grouped_effects ← try_group_from effect_key [] effects
  let cloned_tx : ClonedTransaction = record { raw = tx }
  let tx_operations = group_of tx.hash (group_from op_tx_hash [] operations)
  let tx_events = group_of tx.hash (group_from event_tx_hash [] events)
  let wrapped =
      map (set_transaction cloned_tx)
        (wrap_operations_for_tx tx_operations grouped_effects tx_events store)
  let held = flat_map (λ (op : StellarOperation). op.events) wrapped
  ok (
    record {
      raw = tx;
      ledger = none;
      operations = wrapped;
      effects = flat_map (λ (op : StellarOperation). op.effects) wrapped;
      events = held;
    },
    write_all (λ e. record e { transaction = some cloned_tx }) held store,
  )

unfoldable pub wrap_transactions_for_ledger :
    List OperationRecord
    → List EffectRecord
    → List EventRef
    → List TransactionRecord
    → EventStore
    → Result (List StellarTransaction × EventStore)
wrap_transactions_for_ledger operations effects events [] store = ok ([], store)
wrap_transactions_for_ledger operations effects events (tx ∷ txs) store = do
  (wrapped, store') ← wrap_transaction operations effects events tx store
  (rest, store'') ← wrap_transactions_for_ledger operations effects events txs store'
  ok (wrapped ∷ rest, store'')
