-- ===== src/Indexer.antt =====
-- packages/node/src/indexer/indexer.manager.ts, `IndexerManager`, packages/node/src/indexer/types.ts
-- and worker/worker.service.ts: what is given to node-core's `indexData`, and in which order; which
-- filter and which kind of processor go with a kind of handler; the size of a block.
-- `indexData` is the parameter `index_data`: it takes what is indexed and a state that holds all it
-- can change, and gives the next state, with the error where it threw.
mod Example
pub mod Fetched
pub mod Order
pub mod RawCalls
pub mod Sandbox
mod FetchedTests
mod Tests
use subql_stellar.Prelude.{
  ℕ, ◌+◌, String, Option, none, some, List, [], ◌∷◌, Bool, true, false, ◌===◌, if◌then◌else◌, any,
  get_elem?, or_default, option_map, JsError, Result, ok, throw, ◌>>=◌,
}
use subql_stellar.Types.{
  StellarHandlerKind, LedgerRecord, TransactionRecord, OperationRecord, EffectRecord, EventRef,
  SorobanEvent, StellarEffect, StellarOperation, StellarTransaction, StellarBlock,
  StellarBlockWrapper, StellarBlockFilter, SubqlHandlerFilter, SubqlDatasource, NativeValue,
  address, as_block_filter, as_transaction_filter, as_operation_filter, as_effect_filter,
  as_event_filter,
}
use subql_stellar.Project.{
  SecondLayerHandlerProcessor, is_block_handler_processor, is_transaction_handler_processor,
  is_soroban_transaction_handler_processor, is_operation_handler_processor,
  is_effect_handler_processor, is_event_handler_processor,
}
use subql_stellar.Stellar.Utils.{Header, IBlock, stellar_block_to_header}
use subql_stellar.Stellar.Block.{
  filter_blocks_processor, filter_transaction_processor, filter_operation_processor,
  filter_effect_processor, filter_event_processor,
}

-- `StellarRuntimeHandlerInputMap`
abbrev pub DataOf : StellarHandlerKind → Type 0
DataOf StellarHandlerKind.block = StellarBlock
DataOf StellarHandlerKind.transaction = StellarTransaction
DataOf StellarHandlerKind.soroban_transaction = StellarTransaction
DataOf StellarHandlerKind.operation = StellarOperation
DataOf StellarHandlerKind.effects = StellarEffect
DataOf StellarHandlerKind.event = SorobanEvent

-- An operation holds an event by reference; the block has the object.
abbrev pub the_event : List SorobanEvent → EventRef → SorobanEvent
the_event events r =
    or_default (get_elem? events r.place)
      (record { raw = r.raw; ledger = none; transaction = none; operation = none })

-- `tx.operations.some((op) => op.type.toString() === 'invoke_host_function')`
abbrev pub invokes_host_function : StellarTransaction → Bool
invokes_host_function tx =
    any (λ (op : StellarOperation). op.raw.type === "invoke_host_function") tx.operations

-- A step with the state: the next state, and the error where it threw.
abbrev pub Step {ℓ} : Type ℓ → Type ℓ
Step S = S → S × Option JsError

abbrev pub after_step {ℓ} : {S : Type ℓ} → S × Option JsError → Step S → S × Option JsError
after_step (s, some e) next = (s, some e)
after_step (s, none) next = next s

-- `for (const x of xs) { await f(x); }`
unfoldable pub for_each {ℓ κ} : {S : Type ℓ} {A : Type κ} → (A → Step S) → List A → Step S
for_each f [] s = (s, none)
for_each f (x ∷ xs) s = after_step (f x s) (for_each f xs)

module _ {ℓ} {S : Type ℓ}
    (index_data : (kind : StellarHandlerKind) → DataOf kind → SubqlDatasource → Step S)
    (data_sources : List SubqlDatasource) where
  unfoldable pub index_block_content : StellarBlock → Step S
  unfolding for_each
  index_block_content block = for_each (index_data StellarHandlerKind.block block) data_sources

  -- The body of the loop over the datasources.
  abbrev index_transaction_ds : StellarTransaction → SubqlDatasource → Step S
  index_transaction_ds tx ds s =
      after_step (index_data StellarHandlerKind.transaction tx ds s) λ s'.
        if invokes_host_function tx
        then index_data StellarHandlerKind.soroban_transaction tx ds s'
        else (s', none)

  unfoldable pub index_transaction : StellarTransaction → Step S
  unfolding for_each
  index_transaction tx = for_each (index_transaction_ds tx) data_sources

  unfoldable pub index_operation : StellarOperation → Step S
  unfolding for_each
  index_operation operation =
      for_each (index_data StellarHandlerKind.operation operation) data_sources

  unfoldable pub index_effect : StellarEffect → Step S
  unfolding for_each
  index_effect effect = for_each (index_data StellarHandlerKind.effects effect) data_sources

  unfoldable pub index_event : SorobanEvent → Step S
  unfolding for_each
  index_event event = for_each (index_data StellarHandlerKind.event event) data_sources

  -- The bodies of the loops of `indexBlockData`.
  unfoldable pub index_operation_data : List SorobanEvent → StellarOperation → Step S
  unfolding for_each index_operation index_effect index_event
  index_operation_data events operation s = after_step (index_operation operation s) λ s.
      after_step (for_each index_effect operation.effects s)
        (for_each (λ r. index_event (the_event events r)) operation.events)

  unfoldable pub index_transaction_data : List SorobanEvent → StellarTransaction → Step S
  unfolding for_each index_transaction index_operation_data
  index_transaction_data events tx s =
      after_step (index_transaction tx s) (for_each (index_operation_data events) tx.operations)

  unfoldable pub index_block_data : StellarBlockWrapper → Step S
  unfolding for_each index_block_content index_transaction_data
  index_block_data wrapper s =
      after_step (index_block_content wrapper.block s)
        (for_each (index_transaction_data wrapper.block.events) wrapper.transactions)

-- `ProcessorTypeMap`
abbrev pub processor_type_map : StellarHandlerKind → SecondLayerHandlerProcessor → Bool
processor_type_map StellarHandlerKind.block = is_block_handler_processor
processor_type_map StellarHandlerKind.transaction = is_transaction_handler_processor
processor_type_map StellarHandlerKind.soroban_transaction = is_soroban_transaction_handler_processor
processor_type_map StellarHandlerKind.operation = is_operation_handler_processor
processor_type_map StellarHandlerKind.effects = is_effect_handler_processor
processor_type_map StellarHandlerKind.event = is_event_handler_processor

module _ (get_time : String → ℕ) (filter_block_timestamp : ℕ → StellarBlockFilter → Bool)
    (sc_val_to_native : String → NativeValue) where
  -- `FilterTypeMap`
  unfoldable pub filter_type_map :
      (kind : StellarHandlerKind) → DataOf kind → Option SubqlHandlerFilter → SubqlDatasource → Bool
  unfolding filter_blocks_processor filter_transaction_processor filter_operation_processor
      filter_effect_processor filter_event_processor address
  filter_type_map StellarHandlerKind.block x filter ds =
      filter_blocks_processor get_time filter_block_timestamp x.raw
        (option_map as_block_filter filter) (address ds)
  filter_type_map StellarHandlerKind.transaction x filter ds =
      filter_transaction_processor x.raw (option_map as_transaction_filter filter) (address ds)
  filter_type_map StellarHandlerKind.soroban_transaction x filter ds =
      filter_transaction_processor x.raw (option_map as_transaction_filter filter) (address ds)
  filter_type_map StellarHandlerKind.operation x filter ds =
      filter_operation_processor x.raw (option_map as_operation_filter filter) (address ds)
  filter_type_map StellarHandlerKind.effects x filter ds =
      filter_effect_processor x.raw (option_map as_effect_filter filter) (address ds)
  filter_type_map StellarHandlerKind.event x filter ds =
      filter_event_processor sc_val_to_native x.raw (option_map as_event_filter filter) (address ds)

-- `getBlockSize`
unfoldable pub get_block_size : StellarBlockWrapper → ℕ
get_block_size wrapper =
    or_default wrapper.block.raw.tx_set_operation_count
      (wrapper.block.raw.successful_transaction_count + wrapper.block.raw.failed_transaction_count)
    + wrapper.block.raw.operation_count

-- The worker's `fetchChainBlock`: `const [block] = …`, which is `undefined` for an empty answer.
unfoldable pub fetch_chain_block : (List ℕ → Result (List IBlock)) → ℕ → Result (Option IBlock)
fetch_chain_block fetch_blocks height = do
  blocks ← fetch_blocks (height ∷ [])
  ok (get_elem? blocks 0)

-- The worker's `toBlockResponse`.
unfoldable pub to_block_response : StellarBlockWrapper → Header
unfolding stellar_block_to_header
to_block_response wrapper = stellar_block_to_header wrapper.block.raw
