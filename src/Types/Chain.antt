-- ===== src/Types/Chain.antt =====
-- packages/types/src/stellar/interfaces.ts and interfaces.ts: ledgers, transactions, operations,
-- effects and events, raw from the servers and wrapped; and the filters.
-- A raw record keeps the fields that the code reads. The deep clones that break cycles (`cloneDeep`)
-- are types of their own, since what they hold is cut off: a cloned transaction has no operations.
use subql_stellar.Prelude.{ℕ, String, Option, List}

-- Horizon's ledger record.
pub record LedgerRecord : Type 0 where
  pub sequence : ℕ
  pub closed_at : String
  pub successful_transaction_count : ℕ
  pub failed_transaction_count : ℕ
  pub operation_count : ℕ
  pub tx_set_operation_count : Option ℕ

pub record TransactionRecord : Type 0 where
  pub hash : String
  pub source_account : String

pub record OperationRecord : Type 0 where
  pub id : String
  pub type : String
  pub source_account : String
  pub transaction_hash : String

pub record EffectRecord : Type 0 where
  pub id : String
  pub type : String
  pub account : String

-- What a value of a smart contract (`xdr.ScVal`) becomes under the SDK's `scValToNative`.
pub data NativeValue : Type 0 where
  text : String → NativeValue
  other : String → NativeValue

-- The RPC server's event. A topic is the SDK's encoded value.
pub record EventResponse : Type 0 where
  pub id : String
  pub ledger : ℕ
  pub tx_hash : String
  pub operation_index : Option ℕ
  pub contract_id : Option String
  pub topic : List String

-- `cloneDeep(wrappedTx)`, taken before the operations, effects and events are pushed.
pub record ClonedTransaction : Type 0 where
  pub raw : TransactionRecord

-- `cloneDeep(wrappedLedger)`, taken before the transactions are pushed; its events are cloned as
-- they are then, with their transaction.
pub record ClonedEvent : Type 0 where
  pub raw : EventResponse
  pub transaction : Option ClonedTransaction

pub record ClonedLedger : Type 0 where
  pub raw : LedgerRecord
  pub events : List ClonedEvent

-- `cloneDeep(wrappedOp)`, taken before the effects are pushed.
pub record ClonedOperation : Type 0 where
  pub raw : OperationRecord
  pub events : List ClonedEvent

pub record SorobanEvent : Type 0 where
  pub raw : EventResponse
  pub ledger : Option ClonedLedger
  pub transaction : Option ClonedTransaction
  pub operation : Option ClonedOperation

pub record StellarEffect : Type 0 where
  pub raw : EffectRecord
  pub operation : Option ClonedOperation
  pub transaction : Option ClonedTransaction
  pub ledger : Option ClonedLedger

-- An event is an object that the ledger, a transaction and an operation share. They hold it by
-- reference: its place in the ledger's `events`, and the part of it that is never written.
pub record EventRef : Type 0 where
  pub place : ℕ
  pub raw : EventResponse

pub record StellarOperation : Type 0 where
  pub raw : OperationRecord
  pub effects : List StellarEffect
  pub transaction : Option ClonedTransaction
  pub ledger : Option ClonedLedger
  pub events : List EventRef

pub record StellarTransaction : Type 0 where
  pub raw : TransactionRecord
  pub effects : List StellarEffect
  pub ledger : Option ClonedLedger
  pub operations : List StellarOperation
  pub events : List EventRef

-- `events` is at once the list of the ledger's events and the store of the event objects.
pub record StellarBlock : Type 0 where
  pub raw : LedgerRecord
  pub effects : List StellarEffect
  pub operations : List StellarOperation
  pub transactions : List StellarTransaction
  pub events : List SorobanEvent

pub record StellarBlockFilter : Type 0 where
  pub modulo : Option ℕ
  pub timestamp : Option String

pub record StellarTransactionFilter : Type 0 where
  pub account : Option String

pub record StellarOperationFilter : Type 0 where
  pub type : Option String
  pub source_account : Option String

pub record StellarEffectFilter : Type 0 where
  pub type : Option String
  pub account : Option String

-- A topic that is left out of the list is `undefined`.
pub record SorobanEventFilter : Type 0 where
  pub contract_id : Option String
  pub topics : Option (List (Option String))

-- `BlockWrapper`
pub record StellarBlockWrapper : Type 0 where
  pub block : StellarBlock
  pub transactions : List StellarTransaction
  pub operations : List StellarOperation
  pub effects : List StellarEffect
  pub events : List SorobanEvent
