-- ===== src/Indexer/RawCalls.antt =====
-- packages/node/src/indexer/indexer.manager.ts: the calls of `indexData` by the records that the servers gave.
use subql_stellar.Prelude.{List, [], ◌∷◌, ◌++◌, Bool, ◌===◌, if◌then◌else◌, any, map, flat_map}
use subql_stellar.Types.{
  StellarHandlerKind, LedgerRecord, TransactionRecord, OperationRecord, EffectRecord, EventResponse,
  SubqlDatasource,
}
use subql_stellar.Stellar.Api.Outline.{OperationOutline}
use subql_stellar.Indexer.{DataOf}
use subql_stellar.Indexer.Order.{Call}

-- The records that the servers give.
abbrev pub RawOf : StellarHandlerKind → Type 0
RawOf StellarHandlerKind.block = LedgerRecord
RawOf StellarHandlerKind.transaction = TransactionRecord
RawOf StellarHandlerKind.soroban_transaction = TransactionRecord
RawOf StellarHandlerKind.operation = OperationRecord
RawOf StellarHandlerKind.effects = EffectRecord
RawOf StellarHandlerKind.event = EventResponse

abbrev pub raw_of : (kind : StellarHandlerKind) → DataOf kind → RawOf kind
raw_of StellarHandlerKind.block x = x.raw
raw_of StellarHandlerKind.transaction x = x.raw
raw_of StellarHandlerKind.soroban_transaction x = x.raw
raw_of StellarHandlerKind.operation x = x.raw
raw_of StellarHandlerKind.effects x = x.raw
raw_of StellarHandlerKind.event x = x.raw

-- A call of `indexData`, by the record that its data wrap.
pub record RawCall : Type 0 where
  pub kind : StellarHandlerKind
  pub subject : RawOf kind
  pub ds : SubqlDatasource

abbrev pub raw_call : Call → RawCall
raw_call c = record { kind = c.kind; subject = raw_of c.kind c.subject; ds = c.ds }

abbrev pub calls_contract : List OperationOutline → Bool
calls_contract os = any (λ (o : OperationOutline). o.0.type === "invoke_host_function") os

module _ (dss : List SubqlDatasource) where
  abbrev pub raw_calls_for : (kind : StellarHandlerKind) → RawOf kind → List RawCall
  raw_calls_for kind subject = map (λ ds. record { kind = kind; subject = subject; ds = ds }) dss

  abbrev pub operation_raw_calls : OperationOutline → List RawCall
  operation_raw_calls o =
      raw_calls_for StellarHandlerKind.operation o.0
      ++ (flat_map (raw_calls_for StellarHandlerKind.effects) o.1
          ++ flat_map (raw_calls_for StellarHandlerKind.event) o.2)

  abbrev pub transaction_ds_raw_calls :
      TransactionRecord × List OperationOutline → SubqlDatasource → List RawCall
  transaction_ds_raw_calls o ds =
      record { kind = StellarHandlerKind.transaction; subject = o.0; ds = ds }
      ∷ (if calls_contract o.1
          then record { kind = StellarHandlerKind.soroban_transaction; subject = o.0; ds = ds } ∷ []
          else [])

  abbrev pub transaction_raw_calls : TransactionRecord × List OperationOutline → List RawCall
  transaction_raw_calls o =
      flat_map (transaction_ds_raw_calls o) dss ++ flat_map operation_raw_calls o.1

  -- The ledger for each datasource; for each transaction, it and, where one of its operations invokes a
  -- host function, the same for Soroban transactions; then each of its operations, with the
  -- operation's effects and events after it.
  abbrev pub block_raw_calls :
      LedgerRecord → List (TransactionRecord × List OperationOutline) → List RawCall
  block_raw_calls ledger txs =
      raw_calls_for StellarHandlerKind.block ledger ++ flat_map transaction_raw_calls txs
