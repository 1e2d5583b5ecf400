-- ===== src/Indexer/Tests.antt =====
-- A block with one contract call, indexed for one datasource that logs what it is given.
use subql_stellar.Prelude.{
  Option, none, false, is_some, if◌then◌else◌, Result, ok, [], ◌∷◌, ◌≡◌, refl,
}
use subql_stellar.Types.{
  LedgerRecord, StellarTransaction, StellarOperation, StellarBlock, StellarBlockWrapper,
  SubqlDatasource,
}
use subql_stellar.Indexer.{
  for_each, index_block_content, index_transaction, index_operation, index_effect, index_event,
  index_operation_data, index_transaction_data, index_block_data, get_block_size,
}
use subql_stellar.Stellar.Soroban.{EventsCache}
use subql_stellar.Stellar.SafeApi.{SafeStellarProvider}
use subql_stellar.Stellar.Api.{StellarApi}
use subql_stellar.Indexer.Sandbox.{get_ds_processor, get_ds_processor-eq-ok}
use subql_stellar.Indexer.Order.{run, block_calls, index_block_data-run}
use subql_stellar.Indexer.Example.{log_kind, runtime_ds}

abbrev call_op : StellarOperation
call_op = record {
  raw = record {
    id = "1";
    type = "invoke_host_function";
    source_account = "GA";
    transaction_hash = "t";
  };
  effects =
      record {
        raw = record { id = "1-1"; type = "account_debited"; account = "GA" };
        operation = none;
        transaction = none;
        ledger = none;
      }
      ∷ [];
  transaction = none;
  ledger = none;
  events = [];
}

abbrev call_tx : StellarTransaction
call_tx = record {
  raw = record { hash = "t"; source_account = "GA" };
  effects = [];
  ledger = none;
  operations = call_op ∷ [];
  events = [];
}

abbrev call_ledger : LedgerRecord
call_ledger = record {
  sequence = 7;
  closed_at = "2024-01-01T00:00:00Z";
  successful_transaction_count = 1;
  failed_transaction_count = 2;
  operation_count = 4;
  tx_set_operation_count = none;
}

abbrev call_block : StellarBlock
call_block = record {
  raw = call_ledger;
  effects = [];
  operations = call_op ∷ [];
  transactions = call_tx ∷ [];
  events = [];
}

abbrev call_wrapper : StellarBlockWrapper
call_wrapper = record {
  block = call_block;
  transactions = call_tx ∷ [];
  operations = call_op ∷ [];
  effects = [];
  events = [];
}

order_test : index_block_data log_kind (runtime_ds ∷ []) call_wrapper [] ≡ (
  "stellar/BlockHandler" ∷ "stellar/TransactionHandler" ∷ "soroban/TransactionHandler"
      ∷ "stellar/OperationHandler" ∷ "stellar/EffectHandler" ∷ [],
  none,
)
unfolding index_block_data index_block_content index_transaction_data index_transaction
    index_operation_data index_operation index_effect index_event for_each
order_test = refl

size_test : get_block_size call_wrapper ≡ 7
unfolding get_block_size
size_test = refl

index_block_data-run_example :
    index_block_data log_kind (runtime_ds ∷ []) call_wrapper []
    ≡ run log_kind (block_calls (runtime_ds ∷ []) call_wrapper) []
index_block_data-run_example = index_block_data-run log_kind (runtime_ds ∷ []) call_wrapper []

abbrev no_client : StellarApi
no_client = record {
  endpoint = "https://horizon";
  soroban_client = none;
  chain_id = none;
  page_limit = 150;
  allow_http = false;
}

abbrev keep_client :
    SubqlDatasource
    → Option SafeStellarProvider
    → StellarApi
    → Option EventsCache
    → Result (Option EventsCache)
keep_client ds safe_api api client = ok client

get_ds_processor-eq-ok_example :
    (client : Option EventsCache) × (keep_client runtime_ds none no_client client ≡ ok none)
    × (client ≡ (if false then no_client.soroban_client else none))
    × (is_some client ≡ false)
unfolding get_ds_processor
get_ds_processor-eq-ok_example =
    get_ds_processor-eq-ok keep_client false no_client runtime_ds none none refl
