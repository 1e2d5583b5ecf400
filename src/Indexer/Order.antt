-- ===== src/Indexer/Order.antt =====
-- packages/node/src/indexer/indexer.manager.ts: the order in which the data of a block reach the handlers.
use subql_stellar.Prelude.{
  Option, none, some, List, [], ◌∷◌, ◌++◌, Bool, true, false, if◌then◌else◌, flat_map, map, JsError,
  ◌≡◌, refl, sym, ap, ap₂, ◌∙◌, fun_ext,
}
use subql_stellar.Types.{
  StellarHandlerKind, SorobanEvent, StellarOperation, StellarTransaction, StellarBlockWrapper,
  EventRef, SubqlDatasource,
}
use subql_stellar.Indexer.{
  DataOf, Step, after_step, for_each, the_event, invokes_host_function, index_block_content,
  index_transaction, index_operation, index_effect, index_event, index_operation_data,
  index_transaction_data, index_block_data, index_transaction_ds,
}

-- A call of `indexData`.
pub record Call : Type 0 where
  pub kind : StellarHandlerKind
  pub subject : DataOf kind
  pub ds : SubqlDatasource

module _ (data_sources : List SubqlDatasource) where
  -- The calls that one piece of data makes, one for each datasource.
  abbrev pub calls_for : (kind : StellarHandlerKind) → DataOf kind → List Call
  calls_for kind subject =
      map (λ ds. record { kind = kind; subject = subject; ds = ds }) data_sources

  abbrev pub transaction_ds_calls : StellarTransaction → SubqlDatasource → List Call
  transaction_ds_calls tx ds =
      record { kind = StellarHandlerKind.transaction; subject = tx; ds = ds }
      ∷ (if invokes_host_function tx
          then record { kind = StellarHandlerKind.soroban_transaction; subject = tx; ds = ds } ∷ []
          else [])

  -- For each datasource the transaction and, where it invokes a host function, the Soroban
  -- transaction right after.
  abbrev pub transaction_calls : StellarTransaction → List Call
  transaction_calls tx = flat_map (transaction_ds_calls tx) data_sources

  -- The operation, then its effects, then its events.
  abbrev pub operation_calls : List SorobanEvent → StellarOperation → List Call
  operation_calls events op =
      calls_for StellarHandlerKind.operation op
      ++ (flat_map (calls_for StellarHandlerKind.effects) op.effects
          ++ flat_map (λ (r : EventRef). calls_for StellarHandlerKind.event (the_event events r))
              op.events)

  -- The block, then each transaction followed by its operations.
  abbrev pub block_calls : StellarBlockWrapper → List Call
  block_calls wrapper =
      calls_for StellarHandlerKind.block wrapper.block
      ++ flat_map
          (λ (tx : StellarTransaction).
            transaction_calls tx ++ flat_map (operation_calls wrapper.block.events) tx.operations)
          wrapper.transactions

module _ {ℓ} {S : Type ℓ}
    (index_data : (kind : StellarHandlerKind) → DataOf kind → SubqlDatasource → Step S) where
  abbrev make : Call → Step S
  make c = index_data c.kind c.subject c.ds

  -- Making calls one after another up to the first that throws.
  abbrev pub run : List Call → Step S
  run [] s = (s, none)
  run (c ∷ cs) s = after_step (make c s) (run cs)

  run-append : (cs ds : List Call) (s : S) → run (cs ++ ds) s ≡ after_step (run cs s) (run ds)
  run-append [] ds s = refl
  run-append (c ∷ cs) ds s = rw (fun_ext (run-append cs ds)) (after_after (make c s))
    where
      after_after :
          (r : S × Option JsError)
          → after_step r (λ s. after_step (run cs s) (run ds))
            ≡ after_step (after_step r (run cs)) (run ds)
      after_after (s, none) = refl
      after_after (s, some e) = refl

  for_each-run {κ} :
      {A : Type κ} (f : A → Step S) (calls : A → List Call)
      → ((x : A) → f x ≡ run (calls x))
      → (xs : List A) → for_each f xs ≡ run (flat_map calls xs)
  unfolding for_each
  for_each-run f calls h [] = refl
  for_each-run f calls h (x ∷ xs) = fun_ext λ s.
      ap (λ g. after_step (f x s) g) (for_each-run f calls h xs)
      ∙ ap (λ g. after_step (g s) (run (flat_map calls xs))) (h x)
      ∙ sym (run-append (calls x) (flat_map calls xs) s)

  for_each-run_ds :
      (kind : StellarHandlerKind) (subject : DataOf kind) (dss : List SubqlDatasource)
      → for_each (index_data kind subject) dss ≡ run (calls_for dss kind subject)
  unfolding for_each
  for_each-run_ds kind subject [] = refl
  for_each-run_ds kind subject (ds ∷ dss) =
      fun_ext λ s.
        ap (λ g. after_step (index_data kind subject ds s) g) (for_each-run_ds kind subject dss)

  after_nil : (r : S × Option JsError) → r ≡ after_step r (run [])
  after_nil (s, none) = refl
  after_nil (s, some e) = refl

  run_after :
      (f g : Step S) (cs ds : List Call)
      → f ≡ run cs
      → g ≡ run ds
      → (s : S) → after_step (f s) g ≡ run (cs ++ ds) s
  run_after f g cs ds hf hg s = ap₂ (λ f g. after_step (f s) g) hf hg ∙ sym (run-append cs ds s)

  index_transaction_ds-run :
      (dss : List SubqlDatasource) (tx : StellarTransaction) (ds : SubqlDatasource)
      → index_transaction_ds index_data dss tx ds ≡ run (transaction_ds_calls dss tx ds)
  index_transaction_ds-run dss tx ds = fun_ext λ s.
      after_transaction (invokes_host_function tx)
        (index_data StellarHandlerKind.transaction tx ds s)
    where
      after_transaction :
          (b : Bool) (r : S × Option JsError)
          → after_step r (λ s'.
            if b then index_data StellarHandlerKind.soroban_transaction tx ds s' else (s', none))
            ≡ after_step r (
                run (
                  if b
                  then record {
                    kind = StellarHandlerKind.soroban_transaction;
                    subject = tx;
                    ds = ds;
                  }
                    ∷ []
                  else []))
      after_transaction true (s, none) = after_nil _
      after_transaction true (s, some e) = refl
      after_transaction false (s, none) = refl
      after_transaction false (s, some e) = refl

  module _ (dss : List SubqlDatasource) (events : List SorobanEvent) where
    index_operation_data-run :
        (op : StellarOperation)
        → index_operation_data index_data dss events op ≡ run (operation_calls dss events op)
    unfolding index_operation_data index_operation index_effect index_event
    index_operation_data-run op = fun_ext λ s.
        run_after (index_operation index_data dss op)
          (λ s.
            after_step (for_each (index_effect index_data dss) op.effects s)
              (for_each (λ r. index_event index_data dss (the_event events r)) op.events))
          (calls_for dss StellarHandlerKind.operation op)
          (flat_map (calls_for dss StellarHandlerKind.effects) op.effects
            ++ flat_map
                (λ (r : EventRef). calls_for dss StellarHandlerKind.event (the_event events r))
                op.events)
          (for_each-run_ds StellarHandlerKind.operation op dss)
          (fun_ext λ s.
            run_after _ _ (flat_map (calls_for dss StellarHandlerKind.effects) op.effects)
              (flat_map
                (λ (r : EventRef). calls_for dss StellarHandlerKind.event (the_event events r))
                op.events)
              (for_each-run _ _ (λ e. for_each-run_ds StellarHandlerKind.effects e dss) op.effects)
              (for_each-run _ _
                (λ r. for_each-run_ds StellarHandlerKind.event (the_event events r) dss) op.events)
              s)
          s

    index_transaction_data-run :
        (tx : StellarTransaction)
        → index_transaction_data index_data dss events tx
          ≡ run (transaction_calls dss tx ++ flat_map (operation_calls dss events) tx.operations)
    unfolding index_transaction_data index_transaction
    index_transaction_data-run tx = fun_ext λ s.
        run_after (index_transaction index_data dss tx)
          (for_each (index_operation_data index_data dss events) tx.operations)
          (transaction_calls dss tx) (flat_map (operation_calls dss events) tx.operations)
          (for_each-run _ (transaction_ds_calls dss tx) (index_transaction_ds-run dss tx) dss)
          (for_each-run _ _ index_operation_data-run tx.operations) s

  -- Indexing a block makes exactly these calls of `indexData`, in this order, up to the first that
  -- throws: the block for each datasource; then for each transaction of the block the transaction,
  -- and right after it the same as a Soroban transaction where it invokes a host function, for each
  -- datasource; and for each operation of the transaction the operation, its effects and its events.
  pub index_block_data-run :
      (data_sources : List SubqlDatasource) (wrapper : StellarBlockWrapper) (s : S)
      → index_block_data index_data data_sources wrapper s
        ≡ run (block_calls data_sources wrapper) s
  unfolding index_block_data index_block_content
  index_block_data-run data_sources wrapper s =
      run_after (index_block_content index_data data_sources wrapper.block)
        (for_each (index_transaction_data index_data data_sources wrapper.block.events)
          wrapper.transactions)
        (calls_for data_sources StellarHandlerKind.block wrapper.block)
        (flat_map
          (λ (tx : StellarTransaction).
            transaction_calls data_sources tx
            ++ flat_map (operation_calls data_sources wrapper.block.events) tx.operations)
          wrapper.transactions)
        (for_each-run_ds StellarHandlerKind.block wrapper.block data_sources)
        (for_each-run _ _ (index_transaction_data-run data_sources wrapper.block.events)
          wrapper.transactions)
        s
