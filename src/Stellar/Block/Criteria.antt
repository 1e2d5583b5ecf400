-- ===== src/Stellar/Block/Criteria.antt =====
-- packages/node/src/stellar/block.stellar.ts: the filters of transactions, operations, effects and blocks.
use subql_stellar.Prelude.{
  ℕ, ◌%◌, String, Option, none, some, Bool, true, false, truthy, ◌≡◌, refl, ◌⊎◌, ◌↔◌, inl, arith,
  eq_iff, ==_iff,
}
use subql_stellar.Types.{
  LedgerRecord, TransactionRecord, OperationRecord, EffectRecord, StellarBlockFilter,
  StellarTransactionFilter, StellarOperationFilter, StellarEffectFilter,
}
use subql_stellar.Stellar.Block.{
  rejects, rejects_modulo, filter_blocks_processor, filter_transaction_processor,
  filter_operation_processor, filter_effect_processor,
}

-- A criterion that is not set (absent or the empty text), or that the value meets.
abbrev pub Admits : Option String → String → Type 0
Admits criterion value = (truthy criterion ≡ false) ⊎ (criterion ≡ some value)

pub rejects_iff : (c : Option String) (v : String) → (rejects c v ≡ false) ↔ Admits c v
rejects_iff none v = (λ h. inl refl, λ h. refl)
rejects_iff (some s) v = ground (arith, eq_iff s v)

-- A filter that is not given takes everything; one that is given, what meets its criteria.
abbrev pub Each {ℓ} : {F : Type ℓ} → Option F → (F → Type 0) → Type 0
Each none P = Unit
Each (some f) P = P f

-- A transaction is taken exactly if the filter's account, where set, is its source account.
pub filter_transaction_processor_iff :
    (tx : TransactionRecord) (filter : Option StellarTransactionFilter) (address : Option String)
    → (filter_transaction_processor tx filter address ≡ true)
      ↔ Each filter (λ f. Admits f.account tx.source_account)
unfolding filter_transaction_processor
filter_transaction_processor_iff tx none address = (λ h. tt, λ h. refl)
filter_transaction_processor_iff tx (some f) address =
    ground (arith, rejects_iff f.account tx.source_account)

-- An operation is taken exactly if the filter's source account and type, where set, are its own.
pub filter_operation_processor_iff :
    (op : OperationRecord) (filter : Option StellarOperationFilter) (address : Option String)
    → (filter_operation_processor op filter address ≡ true)
      ↔ Each filter (λ f. Admits f.source_account op.source_account × Admits f.type op.type)
unfolding filter_operation_processor
filter_operation_processor_iff op none address = (λ h. tt, λ h. refl)
filter_operation_processor_iff op (some f) address =
    ground (arith, rejects_iff f.source_account op.source_account, rejects_iff f.type op.type)

-- An effect is taken exactly if the filter's account and type, where set, are its own.
pub filter_effect_processor_iff :
    (effect : EffectRecord) (filter : Option StellarEffectFilter) (address : Option String)
    → (filter_effect_processor effect filter address ≡ true)
      ↔ Each filter (λ f. Admits f.account effect.account × Admits f.type effect.type)
unfolding filter_effect_processor
filter_effect_processor_iff effect none address = (λ h. tt, λ h. refl)
filter_effect_processor_iff effect (some f) address =
    ground (arith, rejects_iff f.account effect.account, rejects_iff f.type effect.type)

-- The sequence is a multiple of the modulo, where that is set and not 0.
abbrev pub IsMultiple : Option ℕ → ℕ → Type 0
IsMultiple none sequence = Unit
IsMultiple (some m) sequence = (m ≡ 0) ⊎ (sequence % m ≡ 0)

rejects_modulo_iff :
    (m : Option ℕ) (sequence : ℕ) → (rejects_modulo m sequence ≡ false) ↔ IsMultiple m sequence
rejects_modulo_iff none sequence = (λ h. tt, λ h. refl)
rejects_modulo_iff (some m) sequence = ground (arith, ==_iff m 0, ==_iff (sequence % m) 0)

module _ (get_time : String → ℕ) (filter_block_timestamp : ℕ → StellarBlockFilter → Bool) where
  -- A ledger is taken exactly if its sequence is a multiple of the filter's modulo, where that is
  -- set and not 0, and the timestamp filter takes its closing time.
  pub filter_blocks_processor_iff :
      (block : LedgerRecord) (filter : Option StellarBlockFilter) (address : Option String)
      → (filter_blocks_processor get_time filter_block_timestamp block filter address ≡ true)
        ↔ Each filter (λ f.
          IsMultiple f.modulo block.sequence
          × (filter_block_timestamp (get_time block.closed_at) f ≡ true))
  unfolding filter_blocks_processor
  filter_blocks_processor_iff block none address = (λ h. tt, λ h. refl)
  filter_blocks_processor_iff block (some f) address =
      ground (arith, rejects_modulo_iff f.modulo block.sequence)
