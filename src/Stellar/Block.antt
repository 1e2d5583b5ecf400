-- ===== src/Stellar/Block.antt =====
-- packages/node/src/stellar/block.stellar.ts, `StellarBlockWrapped`, and
-- packages/node/src/utils/string.ts: whether a handler's filter takes a piece of data.
-- `Date.getTime` on a ledger's closing time, node-core's `filterBlockTimestamp` and the SDK's
-- `scValToNative` are parameters.
pub mod Criteria
pub mod Topics
pub mod Accepted
mod Tests
use subql_stellar.Prelude.{
  ℕ, zero, suc, ◌%◌, String, Option, none, some, List, Bool, true, false, not, ◌&&◌, ◌==◌, ◌===◌,
  if◌then◌else◌, truthy, some_is, option_map, length, get_elem?, to_lower_case, ltb, ◌-◌,
}
use subql_stellar.Types.{
  StellarBlock, StellarTransaction, StellarOperation, StellarEffect, SorobanEvent,
  StellarBlockWrapper, StellarBlockFilter, StellarTransactionFilter, StellarOperationFilter,
  StellarEffectFilter, SorobanEventFilter, NativeValue, LedgerRecord, TransactionRecord,
  OperationRecord, EffectRecord, EventResponse,
}

-- The constructor; the getters are the fields.
abbrev pub stellar_block_wrapped :
    StellarBlock
    → List StellarTransaction
    → List StellarOperation
    → List StellarEffect
    → List SorobanEvent
    → StellarBlockWrapper
stellar_block_wrapped block transactions operations effects events = record {
  block = block;
  transactions = transactions;
  operations = operations;
  effects = effects;
  events = events;
}

unfoldable pub string_normalized_eq : String → Option String → Bool
string_normalized_eq a b = some_is (option_map to_lower_case b) (to_lower_case a)

-- `criterion && criterion !== value`
abbrev pub rejects : Option String → String → Bool
rejects criterion value = truthy criterion && not (some_is criterion value)

-- The same where the value may be `undefined`.
abbrev pub rejects_optional : Option String → Option String → Bool
rejects_optional criterion none = truthy criterion
rejects_optional criterion (some value) = rejects criterion value

-- `address && !stringNormalizedEq(address, value)`
abbrev pub rejects_address : Option String → Option String → Bool
rejects_address none value = false
rejects_address (some address) value =
    not (address === "") && not (string_normalized_eq address value)

-- `filter.modulo && sequence % filter.modulo !== 0`
abbrev pub rejects_modulo : Option ℕ → ℕ → Bool
rejects_modulo none sequence = false
rejects_modulo (some m) sequence = not (m == 0) && not (sequence % m == 0)

module _ (get_time : String → ℕ) (filter_block_timestamp : ℕ → StellarBlockFilter → Bool) where
  unfoldable pub filter_blocks_processor :
      LedgerRecord → Option StellarBlockFilter → Option String → Bool
  filter_blocks_processor block none address = true
  filter_blocks_processor block (some filter) address =
      if rejects_modulo filter.modulo block.sequence
      then false
      else if not (filter_block_timestamp (get_time block.closed_at) filter)
      then false
      else true

unfoldable pub filter_transaction_processor :
    TransactionRecord → Option StellarTransactionFilter → Option String → Bool
filter_transaction_processor tx none address = true
filter_transaction_processor tx (some filter) address =
    if rejects filter.account tx.source_account then false else true

unfoldable pub filter_operation_processor :
    OperationRecord → Option StellarOperationFilter → Option String → Bool
filter_operation_processor op none address = true
filter_operation_processor op (some filter) address =
    if rejects filter.source_account op.source_account
    then false
    else if rejects filter.type op.type
    then false
    else true

unfoldable pub filter_effect_processor :
    EffectRecord → Option StellarEffectFilter → Option String → Bool
filter_effect_processor effect none address = true
filter_effect_processor effect (some filter) address =
    if rejects filter.account effect.account
    then false
    else if rejects filter.type effect.type
    then false
    else true

-- `topic !== scValToNative(…)`
abbrev pub native_is : NativeValue → String → Bool
native_is (NativeValue.text s) t = t === s
native_is (NativeValue.other s) t = false

-- `Math.min(n, 4)`
abbrev pub min_four : ℕ → ℕ
min_four n = if ltb n 4 then n else 4

-- `filter.topics[i]`: out of range it is `undefined`, as is a topic left out.
abbrev pub topic_at : List (Option String) → ℕ → Option String
topic_at topics i = elim (get_elem? topics i) [ none ↦ none | some topic ↦ topic ]

module _ (sc_val_to_native : String → NativeValue) where
  -- One round of the loop over the topics: whether it goes on.
  abbrev pub topic_passes : Option String → Option String → Bool
  topic_passes none given = true
  topic_passes (some topic) none = topic === ""
  topic_passes (some topic) (some given) =
      if topic === "" then true else native_is (sc_val_to_native given) topic

  -- The loop from round `i` on, with `rounds` left.
  unfoldable pub topics_pass : ℕ → ℕ → List (Option String) → List String → Bool
  topics_pass zero i topics given = true
  topics_pass (suc rounds) i topics given =
      topic_passes (topic_at topics i) (get_elem? given i)
      && topics_pass rounds (suc i) topics given

  abbrev pub all_topics_pass : Option (List (Option String)) → List String → Bool
  all_topics_pass none given = true
  all_topics_pass (some topics) given = topics_pass (min_four (length topics)) 0 topics given

  unfoldable pub filter_event_processor :
      EventResponse → Option SorobanEventFilter → Option String → Bool
  filter_event_processor event filter address =
      if rejects_address address event.contract_id then false else (elim filter [
        | none ↦ true
        | some f ↦
            if rejects_optional f.contract_id event.contract_id
            then false
            else all_topics_pass f.topics event.topic
      ])
