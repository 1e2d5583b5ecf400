-- ===== src/Stellar/Api/Ledger.antt =====
-- packages/node/src/stellar/api.stellar.ts: `getAndWrapEvents`, `fetchAndWrapLedger`, `fetchBlocks`.
-- The requests that run at once under `Promise.all` are made here one after another; where several
-- fail, the first in the code's order is the error. The outer `Option` is the fuel of the loops.
use subql_stellar.Prelude.{
  ℕ, Option, none, some, List, [], ◌∷◌, Bool, ◌===◌, if◌then◌else◌, Result, ok, throw, JsError,
  new_error, ◌>>=◌, map, flat_map, any, to_decimal, ◌<+>◌, JsNumber,
}
use subql_stellar.Types.{
  LedgerRecord, TransactionRecord, OperationRecord, EffectRecord, EventResponse, SorobanEvent,
  StellarEffect, StellarOperation, StellarTransaction, StellarBlock, ClonedLedger,
}
use subql_stellar.Stellar.Soroban.{EventsCache, GetEventsRequest, GetEventsResponse, get_events}
use subql_stellar.Stellar.Utils.{IBlock, format_block_util}
use subql_stellar.Stellar.Block.{stellar_block_wrapped}
use subql_stellar.Stellar.Api.{Horizon, StellarApi, soroban_client}
use subql_stellar.Stellar.Api.Paging.{
  fetch_transactions_for_ledger, fetch_operations_for_ledger, fetch_effects_for_ledger,
}
use subql_stellar.Stellar.Api.Wrapping.{
  EventStore, event_refs, clone_event, write_all, wrap_transactions_for_ledger,
}

-- The object's own `ledger` is `null` at first, in place of the number that the response has there: `raw` is the
-- response as it came.
unfoldable pub wrap_event : EventResponse → SorobanEvent
wrap_event event = record { raw = event; ledger = none; transaction = none; operation = none }

-- `op.type.toString() === 'invoke_host_function'` for some operation
abbrev pub has_invoke_host_function : List OperationRecord → Bool
has_invoke_host_function operations =
    any (λ (op : OperationRecord). op.type === "invoke_host_function") operations

-- What the `forEach` over the wrapped transactions does to an operation, and to a transaction. The
-- effects of a transaction are those of its operations: they are the same objects.
unfoldable pub set_ledger : ClonedLedger → StellarOperation → StellarOperation
set_ledger cloned_ledger op = record op {
  ledger = some cloned_ledger;
  effects = map (λ (e : StellarEffect). record e { ledger = some cloned_ledger }) op.effects;
}

unfoldable pub set_transaction_ledger : ClonedLedger → StellarTransaction → StellarTransaction
set_transaction_ledger cloned_ledger tx = record tx {
  ledger = some cloned_ledger;
  operations = map (set_ledger cloned_ledger) tx.operations;
  effects = map (λ (e : StellarEffect). record e { ledger = some cloned_ledger }) tx.effects;
}

-- From the ledger's data to the wrapped block.
unfoldable pub assemble :
    LedgerRecord
    → List TransactionRecord
    → List OperationRecord
    → List EffectRecord
    → EventStore
    → Result StellarBlock
assemble ledger transactions operations effects events = do
  (wrapper_txs, store) ←
      wrap_transactions_for_ledger operations effects (event_refs events) transactions events
  let cloned_ledger : ClonedLedger = record { raw = ledger; events = map clone_event store }
  let txs = map (set_transaction_ledger cloned_ledger) wrapper_txs
  let ops = flat_map (λ (tx : StellarTransaction). tx.operations) txs
  ok (record {
    raw = ledger;
    transactions = txs;
    operations = ops;
    effects = flat_map (λ (op : StellarOperation). op.effects) ops;
    events =
        write_all (λ e. record e { ledger = some cloned_ledger })
          (flat_map (λ (op : StellarOperation). op.events) ops) store;
  })

-- The `catch` around `getAndWrapEvents`; `latest` is what `getLatestLedger` answers.
unfoldable pub soroban_error : Result ℕ → ℕ → JsError → JsError
soroban_error latest sequence e =
    if e.message === "start is after newest ledger"
    then (elim latest [
      | throw e' ↦ e'
      | ok latest_ledger ↦ new_error (
          "The requested events for ledger number "
          <+> to_decimal sequence
          <+> " is not available on the current soroban node.\n                This is because you're trying to access a ledger that is after the latest ledger number "
          <+> to_decimal latest_ledger
          <+> " stored in this node.\n                To resolve this issue, please check you endpoint node start height")
    ])
    else if e.message === "start is before oldest ledger"
    then new_error (
        "The requested events for ledger number "
        <+> to_decimal sequence
        <+> " is not available on the current soroban node.\n                This is because you're trying to access a ledger that is older than the oldest ledger stored in this node.\n                To resolve this issue, you can either:\n                1. Increase the start ledger to a more recent one, or\n                2. Connect to a different node that might have a longer history of ledgers.")
    else e

-- `x.then(f)`, where the fuel may have run out.
abbrev pub then_result {ℓ κ} :
    {A : Type ℓ} {B : Type κ} → Option (Result A) → (A → Option (Result B)) → Option (Result B)
then_result none f = none
then_result (some (throw e)) f = some (throw e)
then_result (some (ok a)) f = f a

-- The same beside the event cache.
abbrev pub then_cached {ℓ κ} :
    {A : Type ℓ} {B : Type κ}
    → Option (Result A × EventsCache)
    → (A → EventsCache → Option (Result B × EventsCache))
    → Option (Result B × EventsCache)
then_cached none f = none
then_cached (some (throw e, cache)) f = some (throw e, cache)
then_cached (some (ok a, cache)) f = f a cache

abbrev pub beside {ℓ} :
    {A : Type ℓ} → EventsCache → Option (Result A) → Option (Result A × EventsCache)
beside cache none = none
beside cache (some r) = some (r, cache)

pub record LedgerData : Type 0 where
  pub ledger : LedgerRecord
  pub transactions : List TransactionRecord
  pub operations : List OperationRecord
  pub effects : List EffectRecord

module _ (rpc : ℕ → GetEventsRequest → Result GetEventsResponse) (latest_ledger : Result ℕ)
    (horizon : Horizon) (fuel now : ℕ) (api : StellarApi) where
  -- The four requests.
  unfoldable pub fetch_ledger_data : ℕ → Option (Result LedgerData)
  fetch_ledger_data sequence = then_result (some (horizon.ledger (JsNumber.pos sequence))) λ ledger.
      then_result (fetch_transactions_for_ledger horizon api fuel sequence) λ transactions.
        then_result (fetch_operations_for_ledger horizon api fuel sequence) λ operations.
          then_result (fetch_effects_for_ledger horizon api fuel sequence) λ effects. some (
            ok (record {
              ledger = ledger;
              transactions = transactions;
              operations = operations;
              effects = effects;
            }))

  unfoldable pub get_and_wrap_events :
      EventsCache → ℕ → Option (Result (List SorobanEvent) × EventsCache)
  get_and_wrap_events cache height =
      then_cached
        (get_events rpc fuel now cache (record {
          start_ledger = some height;
          end_ledger = none;
          cursor = none;
          limit = some api.page_limit;
        }))
        λ response cache'. some (ok (map wrap_event response.events), cache')

  -- `catch`
  abbrev pub recover :
      ℕ
      → Option (Result (List SorobanEvent) × EventsCache)
      → Option (Result (List SorobanEvent) × EventsCache)
  recover sequence none = none
  recover sequence (some (ok events, cache)) = some (ok events, cache)
  recover sequence (some (throw e, cache)) =
      some (throw (soroban_error latest_ledger sequence e), cache)

  -- `if (this.sorobanClient && hasInvokeHostFunctionOp) { … }`: the getter throws where there is no
  -- client.
  unfoldable pub fetch_ledger_events :
      EventsCache → ℕ → List OperationRecord → Option (Result (List SorobanEvent) × EventsCache)
  fetch_ledger_events cache sequence operations = elim (soroban_client api) [
    | throw e ↦ some (throw e, cache)
    | ok client ↦
        if has_invoke_host_function operations
        then recover sequence (get_and_wrap_events cache sequence)
        else some (ok [], cache)
  ]

  unfoldable pub fetch_and_wrap_ledger : EventsCache → ℕ → Option (Result IBlock × EventsCache)
  fetch_and_wrap_ledger cache sequence =
      then_cached (beside cache (fetch_ledger_data sequence)) λ d cache.
        then_cached (fetch_ledger_events cache sequence d.operations) λ events cache'.
          then_cached
            (some (assemble d.ledger d.transactions d.operations d.effects events, cache'))
            λ block cache''. some (
              ok (
                  format_block_util (
                    stellar_block_wrapped block block.transactions block.operations block.effects
                      block.events)),
              cache'',
            )

  -- The ledgers of the batch, one after another.
  unfoldable pub fetch_blocks : EventsCache → List ℕ → Option (Result (List IBlock) × EventsCache)
  fetch_blocks cache [] = some (ok [], cache)
  fetch_blocks cache (sequence ∷ buffer_blocks) =
      then_cached (fetch_and_wrap_ledger cache sequence) λ block cache'.
        then_cached (fetch_blocks cache' buffer_blocks)
          λ blocks cache''. some (ok (block ∷ blocks), cache'')
