-- ===== src/Stellar/Block/Tests.antt =====
-- The filters at concrete data.
use subql_stellar.Prelude.{
  ℕ, Bool, Option, ◌↔◌, String, none, some, [], ◌∷◌, true, false, ◌≡◌, refl, to_lower_case,
}
use subql_stellar.Types.{
  LedgerRecord, OperationRecord, EffectRecord, StellarBlockFilter, StellarTransactionFilter,
  StellarOperationFilter, StellarEffectFilter, NativeValue, EventResponse, SorobanEventFilter,
  TransactionRecord,
}
use subql_stellar.Stellar.Block.{
  filter_event_processor, string_normalized_eq, topics_pass, filter_transaction_processor,
  filter_blocks_processor,
}
use subql_stellar.Stellar.Block.Criteria.{Each, IsMultiple, filter_blocks_processor_iff}
use subql_stellar.Stellar.Block.Accepted.{
  AddressAdmits, AdmitsOptional, TopicsAdmit, filter_event_processor_iff,
}

abbrev native : String → NativeValue
native s = NativeValue.text s

abbrev transfer : EventResponse
transfer = record {
  id = "1";
  ledger = 7;
  tx_hash = "tx";
  operation_index = some 0;
  contract_id = some "CABC";
  topic = "transfer" ∷ "GX" ∷ [];
}

abbrev wanted : SorobanEventFilter
wanted = record { contract_id = none; topics = some (some "transfer" ∷ none ∷ []) }

taken : filter_event_processor native transfer (some wanted) (some "cabc") ≡ true
unfolding filter_event_processor string_normalized_eq topics_pass to_lower_case
taken = refl

third_topic_missing :
    filter_event_processor native transfer
      (some (record { contract_id = none; topics = some (none ∷ none ∷ some "x" ∷ []) }))
      none
    ≡ false
unfolding filter_event_processor topics_pass
third_topic_missing = refl

other_account :
    filter_transaction_processor
      (record { hash = "h"; source_account = "GA" })
      (some (record { account = some "ga" }))
      none
    ≡ false
unfolding filter_transaction_processor
other_account = refl

filter_event_processor_iff_example :
    (filter_event_processor native transfer (some wanted) (some "cabc") ≡ true) ↔ (
      AddressAdmits (some "cabc") transfer.contract_id
      × Each (some wanted) (λ (f : SorobanEventFilter).
        AdmitsOptional f.contract_id transfer.contract_id
        × TopicsAdmit native f.topics transfer.topic))
filter_event_processor_iff_example =
    filter_event_processor_iff native transfer (some wanted) (some "cabc")

abbrev payer : TransactionRecord
payer = record { hash = "h"; source_account = "GA" }

abbrev of_payer : Option StellarTransactionFilter
of_payer = some (record { account = some "GA" })

abbrev payment : OperationRecord
payment = record { id = "1"; type = "payment"; source_account = "GA"; transaction_hash = "h" }

abbrev payments : Option StellarOperationFilter
payments = some (record { type = some "payment"; source_account = none })

abbrev credit : EffectRecord
credit = record { id = "1-1"; type = "account_credited"; account = "GA" }

abbrev credits : Option StellarEffectFilter
credits = some (record { type = some "account_credited"; account = some "GA" })

abbrev tenth : LedgerRecord
tenth = record {
  sequence = 10;
  closed_at = "2024-01-01T00:00:00Z";
  successful_transaction_count = 1;
  failed_transaction_count = 0;
  operation_count = 1;
  tx_set_operation_count = none;
}

abbrev every_fifth : Option StellarBlockFilter
every_fifth = some (record { modulo = some 5; timestamp = none })

abbrev at_any_time : ℕ → StellarBlockFilter → Bool
at_any_time time f = true

filter_blocks_processor_iff_example :
    (filter_blocks_processor (λ t. 0) at_any_time tenth every_fifth none ≡ true)
    ↔ Each every_fifth
        (λ (f : StellarBlockFilter). IsMultiple f.modulo tenth.sequence × (at_any_time 0 f ≡ true))
filter_blocks_processor_iff_example =
    filter_blocks_processor_iff (λ t. 0) at_any_time tenth every_fifth none
