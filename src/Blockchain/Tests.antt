-- ===== src/Blockchain/Tests.antt =====
-- Headers of a small chain, and the update of a datasource.
use subql_stellar.Prelude.{
  ℕ, none, some, [], ◌∷◌, Result, ok, throw, new_error, ◌≡◌, refl, ap, sym, JsNumber, minus_one,
  number_text, lookup, read_digits, and_then, to_decimal, parse_int,
}
use subql_stellar.Types.{LedgerRecord, SubqlDatasource, SubqlStellarProcessorOptions, Processor}
use subql_stellar.Project.{is_custom_ds, is_runtime_ds}
use subql_stellar.Stellar.Utils.{Header, stellar_block_to_header}
use subql_stellar.Stellar.Api.{Horizon}
use subql_stellar.Blockchain.{
  get_header_for_height, get_header_for_hash, get_chain_interval, update_dynamic_ds,
}
use subql_stellar.Blockchain.Headers.{get_header_for_hash_lem}
use subql_stellar.Blockchain.Dynamic.{
  choose, last_value, update_dynamic_ds-runtime, update_dynamic_ds-custom,
}

abbrev ledger_of : ℕ → LedgerRecord
ledger_of n = record {
  sequence = n;
  closed_at = "2024-01-01T00:00:00Z";
  successful_transaction_count = 1;
  failed_transaction_count = 0;
  operation_count = 1;
  tx_set_operation_count = none;
}

abbrev answer : JsNumber → Result LedgerRecord
answer (JsNumber.pos n) = ok (ledger_of n)
answer (JsNumber.neg n) = throw (new_error "Bad Request")
answer JsNumber.nan = throw (new_error "Bad Request")

abbrev horizon : Horizon
horizon = record {
  transactions = λ sequence limit page. ok [];
  operations = λ sequence limit page. ok [];
  effects = λ sequence limit page. ok [];
  ledger = answer;
  newest_ledgers = ok [];
  network_passphrase = ok "";
}

horizon-names : (n : ℕ) (l : LedgerRecord) → horizon.ledger (JsNumber.pos n) ≡ ok l → l.sequence ≡ n
horizon-names n l h = ap (λ (r : Result LedgerRecord). sequence_of r) (sym h)
  where
    sequence_of : Result LedgerRecord → ℕ
    sequence_of (ok l) = l.sequence
    sequence_of (throw e) = 0

abbrev parent : Header
parent = record {
  block_height = 6;
  block_hash = "6";
  parent_hash = "5";
  timestamp = "2024-01-01T00:00:00Z";
}

parent-found :
    get_header_for_hash horizon (stellar_block_to_header (ledger_of 7)).parent_hash ≡ ok parent
unfolding get_header_for_hash get_header_for_height stellar_block_to_header number_text parse_int
    to_decimal read_digits
parent-found = refl

get_header_for_hash_lem_example :
    (get_header_for_hash horizon (stellar_block_to_header (ledger_of 7)).block_hash
      ≡ get_header_for_height horizon (JsNumber.pos 7))
    × (get_header_for_hash horizon (stellar_block_to_header (ledger_of 7)).parent_hash
        ≡ get_header_for_height horizon (minus_one 7))
get_header_for_hash_lem_example = get_header_for_hash_lem horizon (ledger_of 7)

interval_test : get_chain_interval ≡ 5000
unfolding get_chain_interval
interval_test = refl

abbrev args : SubqlStellarProcessorOptions
args = ("address", "CNEW") ∷ []

abbrev token_ds : SubqlDatasource
token_ds = record {
  kind = "stellar/Runtime";
  mapping = record { file = "./dist/index.js"; handlers = [] };
  options = some (("address", "COLD") ∷ ("abi", "token") ∷ []);
  processor = none;
}

update_dynamic_ds-runtime_example :
    (and_then (update_dynamic_ds (λ ds. []) args token_ds).0.options (lookup "abi")
      ≡ choose (last_value "abi" args) (and_then token_ds.options (lookup "abi")))
    × ((update_dynamic_ds (λ ds. []) args token_ds).0.processor ≡ token_ds.processor)
    × ((update_dynamic_ds (λ ds. []) args token_ds).0.mapping ≡ token_ds.mapping)
    × ((update_dynamic_ds (λ ds. []) args token_ds).0.kind ≡ token_ds.kind)
unfolding is_runtime_ds
update_dynamic_ds-runtime_example = update_dynamic_ds-runtime (λ ds. []) args token_ds "abi" refl

abbrev custom_ds : SubqlDatasource
custom_ds = record token_ds {
  kind = "stellar/Custom";
  processor = some (record { file = "./processor.js"; options = [] });
}

update_dynamic_ds-custom_example :
    (and_then
        (update_dynamic_ds (λ ds. []) args custom_ds).0.processor
        (λ (p : Processor). lookup "address" p.options)
      ≡ choose
          (last_value "address" args)
          (and_then custom_ds.processor (λ (p : Processor). lookup "address" p.options)))
    × ((update_dynamic_ds (λ ds. []) args custom_ds).1 ≡ ok tt)
unfolding is_custom_ds
update_dynamic_ds-custom_example = update_dynamic_ds-custom (λ ds. []) args custom_ds "address" refl
