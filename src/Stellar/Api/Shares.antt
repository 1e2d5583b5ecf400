-- ===== src/Stellar/Api/Shares.antt =====
-- packages/node/src/stellar/api.stellar.ts: what was fetched, as it is shared out in a wrapped block.
use subql_stellar.Prelude.{
  ℕ, suc, List, [], ◌∷◌, ◌++◌, Bool, ◌===◌, filter, flat_map, map, map_index, All, All-mono,
  map-map, map-flat_map, flat_map-map, flat_map-append, shares, HasOneOwner, shares-Perm,
  length-filter_perm, Perm, key_is, ok, ◌≡◌, refl, sym, ap, ap₂, subst, ◌∙◌,
}
use subql_stellar.Types.{
  LedgerRecord, TransactionRecord, OperationRecord, EffectRecord, EventResponse, SorobanEvent,
  StellarEffect, StellarOperation, StellarTransaction, StellarBlock,
}
use subql_stellar.Stellar.Api.Wrapping.{EventStore, effect_key}
use subql_stellar.Stellar.Api.Ledger.{assemble}
use subql_stellar.Stellar.Api.Outline.{
  OperationOutline, operation_outline, expected_operation, outline, expected, assemble-outline,
}
use subql_stellar.Stellar.Api.Links.{assemble-flattens}

-- An operation names its transaction by the hash.
abbrev pub has_operation : TransactionRecord → OperationRecord → Bool
has_operation tx op = op.transaction_hash === tx.hash

-- An effect names its operation by the first part of its id.
abbrev pub has_effect : OperationRecord → EffectRecord → Bool
has_effect op e = key_is effect_key op.id e

abbrev tx_events : List EventResponse → TransactionRecord → List EventResponse
tx_events events tx = filter (λ (e : EventResponse). e.tx_hash === tx.hash) events

-- The outlines of all operations, in the order of the block.
abbrev pub block_outlines : List (TransactionRecord × List OperationOutline) → List OperationOutline
block_outlines os = flat_map (λ (o : TransactionRecord × List OperationOutline). o.1) os

outlines_of :
    (ws : List StellarTransaction)
    → map operation_outline (flat_map (λ (tx : StellarTransaction). tx.operations) ws)
      ≡ block_outlines (map outline ws)
outlines_of ws = map-flat_map _ _ ws ∙ sym (flat_map-map outline _ ws)

raw-effects :
    (ops : List StellarOperation)
    → map (λ (e : StellarEffect). e.raw) (flat_map (λ (op : StellarOperation). op.effects) ops)
      ≡ flat_map (λ (o : OperationOutline). o.1) (map operation_outline ops)
raw-effects ops = map-flat_map _ _ ops ∙ sym (flat_map-map operation_outline _ ops)

module _ (operations : List OperationRecord) (effects : List EffectRecord)
    (events : List EventResponse) where
  expected-operations :
      (es : List EventResponse) (i : ℕ) (ops : List OperationRecord)
      → map (λ (o : OperationOutline). o.0) (map_index (expected_operation effects es) i ops) ≡ ops
  expected-operations es i [] = refl
  expected-operations es i (op ∷ ops) = ap (◌∷◌ op) (expected-operations es (suc i) ops)

  expected-effects :
      (es : List EventResponse) (i : ℕ) (ops : List OperationRecord)
      → flat_map (λ (o : OperationOutline). o.1) (map_index (expected_operation effects es) i ops)
        ≡ shares has_effect effects ops
  expected-effects es i [] = refl
  expected-effects es i (op ∷ ops) =
      ap (◌++◌ (filter (has_effect op) effects)) (expected-effects es (suc i) ops)

  operations-shares :
      (txs : List TransactionRecord)
      → map
          (λ (o : OperationOutline). o.0)
          (block_outlines (map (expected operations effects events) txs))
        ≡ shares has_operation operations txs
  operations-shares txs =
      ap (map (λ (o : OperationOutline). o.0)) (flat_map-map _ _ txs)
      ∙ map-flat_map _ _ txs
      ∙ of_each txs
    where
      of_each :
          (txs : List TransactionRecord)
          → flat_map
              (λ tx.
                map
                  (λ (o : OperationOutline). o.0)
                  (map_index
                    (expected_operation effects (tx_events events tx))
                    0
                    (filter (has_operation tx) operations)))
              txs
            ≡ shares has_operation operations txs
      of_each [] = refl
      of_each (tx ∷ txs) = ap₂ (◌++◌) (expected-operations (tx_events events tx) 0 _) (of_each txs)

  effects-shares :
      (txs : List TransactionRecord)
      → flat_map
          (λ (o : OperationOutline). o.1)
          (block_outlines (map (expected operations effects events) txs))
        ≡ shares has_effect effects (shares has_operation operations txs)
  effects-shares [] = refl
  effects-shares (tx ∷ txs) =
      flat_map-append _ (expected operations effects events tx).1 _
      ∙ ap₂ (◌++◌) (expected-effects (tx_events events tx) 0 _) (effects-shares txs)
      ∙ sym (flat_map-append _ (filter (has_operation tx) operations) _)

-- Where each operation names exactly one of the transactions by its hash, and each effect exactly one of
-- the operations by its id, a wrapped block holds what was fetched, up to order: none of the
-- operations and of the effects is lost, and none comes twice.
pub assemble-Perm :
    (ledger : LedgerRecord) (transactions : List TransactionRecord)
    (operations : List OperationRecord) (effects : List EffectRecord) (events : EventStore)
    (block : StellarBlock)
    → All (HasOneOwner has_operation transactions) operations
    → All (HasOneOwner has_effect operations) effects
    → assemble ledger transactions operations effects events ≡ ok block
    → Perm (map (λ (op : StellarOperation). op.raw) block.operations) operations
      × Perm (map (λ (e : StellarEffect). e.raw) block.effects) effects
assemble-Perm ledger transactions operations effects events block one_tx one_op h =
    let raw_events = map (λ (e : SorobanEvent). e.raw) events in
    let (in_txs, in_ops) =
      assemble-flattens ledger transactions operations effects events block h in
    let outlines = assemble-outline ledger transactions operations effects events block h in
    let all =
      ap (map operation_outline) in_txs
      ∙ outlines_of block.transactions
      ∙ ap block_outlines outlines in
    let same_ops =
      sym (map-map operation_outline (λ (o : OperationOutline). o.0) block.operations)
      ∙ ap (map (λ (o : OperationOutline). o.0)) all
      ∙ operations-shares operations effects raw_events transactions in
    let same_effects =
      ap (map (λ (e : StellarEffect). e.raw)) in_ops
      ∙ raw-effects block.operations
      ∙ ap (flat_map (λ (o : OperationOutline). o.1)) all
      ∙ effects-shares operations effects raw_events transactions in
    let shared = shares-Perm has_operation operations transactions one_tx in
    let one_op' =
      All-mono (λ e k. length-filter_perm (λ op. has_effect op e) shared ∙ k) effects one_op in
    (
      subst (λ l. Perm l operations) (sym same_ops) ∣ shared ∣₁,
      subst (λ l. Perm l effects) (sym same_effects)
          ∣ shares-Perm has_effect effects (shares has_operation operations transactions)
            one_op' ∣₁,
    )
