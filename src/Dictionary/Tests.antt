-- ===== src/Dictionary/Tests.antt =====
-- A project with handlers of operations and events, and the theorems at it.
use subql_stellar.Prelude.{
  none, some, [], ◌∷◌, ◌++◌, true, false, is_empty, Any, ◌≢◌, Result, ok, throw, new_error, ◌≡◌,
  refl, map, filter, ◌===◌, if◌then◌else◌, to_lower_case,
}
use subql_stellar.Types.{
  SubqlDatasource, StellarHandlerKind, switch_kind, find_kind, StellarOperation, SubqlHandler,
}
use subql_stellar.Stellar.Block.{filter_operation_processor}
use subql_stellar.Indexer.{filter_type_map}
use subql_stellar.Dictionary.{
  ConditionValue, Matcher, DictionaryQueryEntry, operation_filter_to_query_entry, contribution,
  handler_entries, all_entries,
}
use subql_stellar.Dictionary.Query.{
  sort_by_field, insert_by_field, same_key, uniq_from, build_dictionary_query_entries,
}
use subql_stellar.Dictionary.Unique.{AreApart, AreAsked, build-AreApart}
use subql_stellar.Dictionary.Handlers.{without_soroban, build-without_soroban}
use subql_stellar.Dictionary.Asks.{AsksFor, build-AsksFor}
use subql_stellar.Dictionary.Service.{
  DictionaryUrls, DictionaryProject, StellarDictionaryV1, configured_urls, is_valid,
  init_dictionaries, init_dictionaries-eq-ok,
}
use subql_stellar.Dictionary.Example.{
  no_filter, payments, on_payment, project_ds, one_payment_ds, native, at_any_time,
}

abbrev payment_entry : DictionaryQueryEntry
payment_entry = record {
  entity = "operations";
  conditions =
      record { field = "type"; value = ConditionValue.one "payment"; matcher = Matcher.equal_to }
      ∷ record {
        field = "sourceAccount";
        value = ConditionValue.one "gabc";
        matcher = Matcher.equal_to;
      }
      ∷ [];
}

-- The entry that both handlers add is asked for once.
build_test : build_dictionary_query_entries 100 (project_ds ∷ []) ≡ payment_entry ∷ []
unfolding build_dictionary_query_entries all_entries handler_entries contribution switch_kind
    find_kind operation_filter_to_query_entry uniq_from same_key sort_by_field insert_by_field
    to_lower_case
build_test = refl

abbrev payment : StellarOperation
payment = record {
  raw = record { id = "1"; type = "payment"; source_account = "GABC"; transaction_hash = "t" };
  effects = [];
  transaction = none;
  ledger = none;
  events = [];
}

payment-taken :
    filter_type_map
      (λ t. 0)
      at_any_time
      native
      StellarHandlerKind.operation
      payment
      (some payments)
      one_payment_ds
    ≡ true
unfolding filter_type_map filter_operation_processor
payment-taken = refl

kind-on_payment : switch_kind on_payment.kind ≡ some StellarHandlerKind.operation
unfolding switch_kind find_kind
kind-on_payment = refl

build-AreApart_example :
    AreApart (build_dictionary_query_entries 100 (project_ds ∷ []))
    × AreAsked
        (all_entries 100 (project_ds ∷ []))
        (build_dictionary_query_entries 100 (project_ds ∷ []))
build-AreApart_example = build-AreApart 100 (project_ds ∷ [])

operation-ne-soroban : StellarHandlerKind.operation ≢ StellarHandlerKind.soroban_transaction
operation-ne-soroban h = cc h

build-not-empty : is_empty (build_dictionary_query_entries 100 (one_payment_ds ∷ [])) ≡ false
unfolding build_dictionary_query_entries all_entries handler_entries contribution switch_kind
    find_kind uniq_from
build-not-empty = refl

build-AsksFor_example :
    Any
      (AsksFor native StellarHandlerKind.operation payment)
      (build_dictionary_query_entries 100 (one_payment_ds ∷ []))
build-AsksFor_example =
    build-AsksFor (λ t. 0) at_any_time native 100 [] [] one_payment_ds [] [] on_payment payments
      StellarHandlerKind.operation payment refl refl kind-on_payment operation-ne-soroban
      payment-taken build-not-empty

abbrev pubnet : DictionaryProject
pubnet = record {
  chain_id = "Public Global Stellar Network ; September 2015";
  dictionary = DictionaryUrls.many_urls ("https://down" ∷ "https://dict" ∷ []);
}

abbrev init_of : StellarDictionaryV1 → Result (Unit {0})
init_of d = if d.url === "https://down" then throw (new_error "503") else ok tt

init_dictionaries-eq-ok_example :
    init_dictionaries init_of (some pubnet) (λ p. ok ("https://registry" ∷ []))
    ≡ ok (
        map
          (λ u. record { url = u; chain_id = pubnet.chain_id })
          (filter
            (is_valid init_of pubnet)
            (configured_urls pubnet.dictionary ++ "https://registry" ∷ [])))
init_dictionaries-eq-ok_example =
    init_dictionaries-eq-ok init_of pubnet (λ p. ok ("https://registry" ∷ []))
      ("https://registry" ∷ []) refl

abbrev on_call : SubqlHandler
on_call = record {
  handler = "onCall";
  kind = "soroban/TransactionHandler";
  filter = some (record no_filter { account = some "GABC" });
}

abbrev call_ds : SubqlDatasource
call_ds = record project_ds {
  mapping = record { file = "./dist/index.js"; handlers = on_payment ∷ on_call ∷ [] };
}

without_soroban_test : without_soroban call_ds ≡ one_payment_ds
unfolding switch_kind find_kind
without_soroban_test = refl

build-without_soroban_example :
    build_dictionary_query_entries 100 (map without_soroban (call_ds ∷ []))
    ≡ build_dictionary_query_entries 100 (call_ds ∷ [])
build-without_soroban_example = build-without_soroban 100 (call_ds ∷ [])
