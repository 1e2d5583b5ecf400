-- ===== src/Dictionary/Example.antt =====
-- A project with a handler of payments.
use subql_stellar.Prelude.{ℕ, String, none, some, [], ◌∷◌, Bool, true}
use subql_stellar.Types.{
  SubqlHandlerFilter, SubqlHandler, SubqlDatasource, NativeValue, StellarBlockFilter,
}

abbrev pub no_filter : SubqlHandlerFilter
no_filter = record {
  modulo = none;
  timestamp = none;
  account = none;
  source_account = none;
  type = none;
  contract_id = none;
  topics = none;
}

abbrev pub payments : SubqlHandlerFilter
payments = record no_filter { type = some "payment"; source_account = some "GABC" }

abbrev pub on_payment : SubqlHandler
on_payment = record {
  handler = "onPayment";
  kind = "stellar/OperationHandler";
  filter = some payments;
}

abbrev pub project_ds : SubqlDatasource
project_ds = record {
  kind = "stellar/Runtime";
  mapping = record { file = "./dist/index.js"; handlers = on_payment ∷ on_payment ∷ [] };
  options = none;
  processor = none;
}

abbrev pub native : String → NativeValue
native s = NativeValue.text s

abbrev pub at_any_time : ℕ → StellarBlockFilter → Bool
at_any_time time f = true

abbrev pub one_payment_ds : SubqlDatasource
one_payment_ds = record project_ds {
  mapping = record { file = "./dist/index.js"; handlers = on_payment ∷ [] };
}
