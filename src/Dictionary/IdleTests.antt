-- ===== src/Dictionary/IdleTests.antt =====
-- A block without what a query for payments asks for.
use subql_stellar.Prelude.{
  String, none, List, [], ◌∷◌, ◌++◌, true, false, any, filter, is_empty, if◌then◌else◌, inl, inr,
  to_lower_case, ◌≡◌, refl,
}
use subql_stellar.Types.{
  StellarHandlerKind, kind_text, switch_kind, find_kind, LedgerRecord, StellarOperation,
  StellarTransaction, StellarBlockWrapper, SubqlDatasource,
}
use subql_stellar.Project.{is_runtime_ds}
use subql_stellar.Indexer.{DataOf, Step, index_block_data}
use subql_stellar.Dictionary.{
  operation_filter_to_query_entry, contribution, handler_entries, all_entries,
}
use subql_stellar.Dictionary.Query.{
  sort_by_field, insert_by_field, same_key, uniq_from, build_dictionary_query_entries,
}
use subql_stellar.Dictionary.Skips.{takes, BlockIsNotAsked}
use subql_stellar.Dictionary.Idle.{HasNoSorobanHandler, index_block_data-not_asked}
use subql_stellar.Dictionary.Example.{one_payment_ds, native, at_any_time}

-- One that logs the kind of what a handler takes.
abbrev log_taken : (kind : StellarHandlerKind) → DataOf kind → SubqlDatasource → Step (List String)
log_taken kind x ds log =
    if any (takes (λ t. 0) at_any_time native kind x ds) ds.mapping.handlers
    then (log ++ kind_text kind ∷ [], none)
    else (log, none)

log_taken-only :
    (kind : StellarHandlerKind) (x : DataOf kind) (ds : SubqlDatasource)
    → is_runtime_ds ds ≡ true
    → any (takes (λ t. 0) at_any_time native kind x ds) ds.mapping.handlers ≡ false
    → (s : List String) → log_taken kind x ds s ≡ (s, none)
log_taken-only kind x ds runtime free s = rw free refl

abbrev account_creation : StellarOperation
account_creation = record {
  raw = record {
    id = "1";
    type = "create_account";
    source_account = "GABC";
    transaction_hash = "t";
  };
  effects = [];
  transaction = none;
  ledger = none;
  events = [];
}

abbrev creation_tx : StellarTransaction
creation_tx = record {
  raw = record { hash = "t"; source_account = "GABC" };
  effects = [];
  ledger = none;
  operations = account_creation ∷ [];
  events = [];
}

abbrev ledger : LedgerRecord
ledger = record {
  sequence = 7;
  closed_at = "2024-01-01T00:00:00Z";
  successful_transaction_count = 1;
  failed_transaction_count = 0;
  operation_count = 1;
  tx_set_operation_count = none;
}

abbrev creation_block : StellarBlockWrapper
creation_block = record {
  block = record {
    raw = ledger;
    effects = [];
    operations = account_creation ∷ [];
    transactions = creation_tx ∷ [];
    events = [];
  };
  transactions = creation_tx ∷ [];
  operations = account_creation ∷ [];
  effects = [];
  events = [];
}

creation_block-not_asked :
    BlockIsNotAsked
      (λ t. 0)
      at_any_time
      native
      (build_dictionary_query_entries 100 (one_payment_ds ∷ []))
      creation_block
unfolding build_dictionary_query_entries all_entries handler_entries contribution switch_kind
    find_kind operation_filter_to_query_entry uniq_from same_key sort_by_field insert_by_field
    to_lower_case
creation_block-not_asked = (
  (
    λ h. elim h [ inl (entity, conditions) ↦ cc entity | inr none_left ↦ none_left ],
    (
      (
        λ h. elim h [
          | inl (entity, ((v, is_v, of_type), rest)) ↦ elim of_type [
            | inl (field, value) ↦ cc (is_v, value)
            | inr (field, value) ↦ cc field
          ]
          | inr none_left ↦ none_left
        ],
        tt,
        tt,
      ),
      tt,
    ),
  ),
  tt,
)

no_soroban_handler : HasNoSorobanHandler one_payment_ds
unfolding switch_kind find_kind
no_soroban_handler = ((λ e. cc e), tt)

is_runtime : is_runtime_ds one_payment_ds ≡ true
unfolding is_runtime_ds
is_runtime = refl

has_entries : is_empty (build_dictionary_query_entries 100 (one_payment_ds ∷ [])) ≡ false
unfolding build_dictionary_query_entries all_entries handler_entries contribution switch_kind
    find_kind uniq_from
has_entries = refl

index_block_data-not_asked_example :
    index_block_data log_taken (filter (λ ds. true) (one_payment_ds ∷ [])) creation_block []
    ≡ ([], none)
index_block_data-not_asked_example =
    index_block_data-not_asked log_taken (λ t. 0) at_any_time native log_taken-only 100
      (one_payment_ds ∷ []) (λ ds. true) creation_block [] (is_runtime, tt) (no_soroban_handler, tt)
      has_entries creation_block-not_asked
