-- ===== src/Stellar/Api/Example.antt =====
-- A ledger with a contract call and a payment.
use subql_stellar.Prelude.{ℕ, none, some, List, [], ◌∷◌, Result, ok, throw, new_error, JsNumber}
use subql_stellar.Types.{
  LedgerRecord, TransactionRecord, OperationRecord, EffectRecord, EventResponse,
}
use subql_stellar.Stellar.Api.Wrapping.{EventStore}

abbrev pub ledger_of : ℕ → LedgerRecord
ledger_of n = record {
  sequence = n;
  closed_at = "2024-01-01T00:00:00Z";
  successful_transaction_count = 1;
  failed_transaction_count = 0;
  operation_count = 1;
  tx_set_operation_count = none;
}

-- What Horizon answers a ledger's number.
abbrev pub ledger_answer : JsNumber → Result LedgerRecord
ledger_answer (JsNumber.pos n) = ok (ledger_of n)
ledger_answer (JsNumber.neg n) = throw (new_error "Bad Request")
ledger_answer JsNumber.nan = throw (new_error "Bad Request")

abbrev pub txs : List TransactionRecord
txs =
    record { hash = "t1"; source_account = "GA" }
    ∷ record { hash = "t2"; source_account = "GB" }
    ∷ []

abbrev pub ops : List OperationRecord
ops =
    record {
      id = "10";
      type = "invoke_host_function";
      source_account = "GA";
      transaction_hash = "t1";
    }
    ∷ record { id = "11"; type = "payment"; source_account = "GB"; transaction_hash = "t2" }
    ∷ []

abbrev pub effs : List EffectRecord
effs =
    record { id = "0011-0000000001"; type = "account_debited"; account = "GB" }
    ∷ record { id = "0010-0000000001"; type = "contract_credited"; account = "GA" }
    ∷ []

abbrev pub transfer_event : EventResponse
transfer_event = record {
  id = "e1";
  ledger = 7;
  tx_hash = "t1";
  operation_index = some 0;
  contract_id = some "C1";
  topic = [];
}

abbrev pub events : EventStore
events = record { raw = transfer_event; ledger = none; transaction = none; operation = none } ∷ []
