-- ===== src/Dictionary/Idle.antt =====
-- packages/node/src/indexer/dictionary/v1/stellarDictionaryV1.ts beside packages/node/src/indexer/indexer.manager.ts:
-- what indexing does with a block that a query does not ask for.
use subql_stellar.Prelude.{
  ℕ, String, none, some, List, [], ◌∷◌, Bool, true, false, any, filter, flat_map, is_empty, All,
  All-append, All-flat_map, All-both, All-map, All-filter, Bool-cases, inl, inr, ◌≡◌, ◌≢◌, refl, ap,
  ◌∙◌,
}
use subql_stellar.Types.{
  StellarHandlerKind, switch_kind, SubqlHandler, SubqlDatasource, NativeValue, StellarBlockFilter,
  SorobanEvent, EventRef, StellarOperation, StellarTransaction, StellarBlockWrapper,
}
use subql_stellar.Project.{is_runtime_ds}
use subql_stellar.Indexer.{
  DataOf, Step, after_step, the_event, invokes_host_function, index_block_data,
}
use subql_stellar.Indexer.Order.{
  Call, calls_for, transaction_ds_calls, transaction_calls, operation_calls, block_calls, run,
  index_block_data-run,
}
use subql_stellar.Dictionary.{DictionaryQueryEntry, contribution}
use subql_stellar.Dictionary.Query.{same_key, build_dictionary_query_entries}
use subql_stellar.Dictionary.Handlers.{Adds, build-Adds}
use subql_stellar.Dictionary.Skips.{
  takes, IsNotAsked, OperationIsNotAsked, BlockIsNotAsked, takes-not_asked, takes-block,
  takes-soroban, any-takes_not_asked,
}

-- No handler of the datasource is of Soroban transactions.
abbrev pub HasNoSorobanHandler : SubqlDatasource → Type 0
HasNoSorobanHandler ds =
    All (λ (h : SubqlHandler). switch_kind h.kind ≢ some StellarHandlerKind.soroban_transaction)
      ds.mapping.handlers

module _ {ℓ} {S : Type ℓ}
    (index_data : (kind : StellarHandlerKind) → DataOf kind → SubqlDatasource → Step S)
    (get_time : String → ℕ) (filter_block_timestamp : ℕ → StellarBlockFilter → Bool)
    (sc_val_to_native : String → NativeValue)
    (only_taken : (kind : StellarHandlerKind) (x : DataOf kind) (ds : SubqlDatasource)
      → is_runtime_ds ds ≡ true
      → any (takes get_time filter_block_timestamp sc_val_to_native kind x ds) ds.mapping.handlers
        ≡ false
      → (s : S) → index_data kind x ds s ≡ (s, none)) where
  abbrev DoesNothing : (kind : StellarHandlerKind) → DataOf kind → SubqlDatasource → Type ℓ
  DoesNothing kind x ds = (s : S) → index_data kind x ds s ≡ (s, none)

  -- The call does nothing.
  abbrev IsIdle : Call → Type ℓ
  IsIdle c = DoesNothing c.kind c.subject c.ds

  run_idle : (cs : List Call) → All IsIdle cs → (s : S) → run index_data cs s ≡ (s, none)
  run_idle [] h s = refl
  run_idle (c ∷ cs) h s = ap (λ r. after_step r (run index_data cs)) (h.0 s) ∙ run_idle cs h.1 s

  module _ (limit : ℕ) (query : List DictionaryQueryEntry) where
    -- What is known of a datasource that has had its part in the query.
    abbrev HasPart : SubqlDatasource → Type 0
    HasPart ds =
        (is_runtime_ds ds ≡ true)
        × HasNoSorobanHandler ds
        × All (λ h. Adds (λ d. any (same_key d) query ≡ true) (contribution limit ds h))
            ds.mapping.handlers

    not_asked_does :
        (kind : StellarHandlerKind) (x : DataOf kind)
        → kind ≢ StellarHandlerKind.soroban_transaction
        → IsNotAsked get_time filter_block_timestamp sc_val_to_native query kind x
        → (ds : SubqlDatasource) → HasPart ds
        → DoesNothing kind x ds
    not_asked_does kind x other missed ds (runtime, others, adds) = only_taken kind x ds runtime (
        any-takes_not_asked get_time filter_block_timestamp sc_val_to_native limit query ds kind x
          ds.mapping.handlers
          (λ h o a.
            takes-not_asked get_time filter_block_timestamp sc_val_to_native limit query ds kind x h
              other missed a)
          others adds)

    block_does :
        (x : DataOf StellarHandlerKind.block) (ds : SubqlDatasource)
        → HasPart ds
        → DoesNothing StellarHandlerKind.block x ds
    block_does x ds (runtime, others, adds) = only_taken StellarHandlerKind.block x ds runtime (
        any-takes_not_asked get_time filter_block_timestamp sc_val_to_native limit query ds
          StellarHandlerKind.block x ds.mapping.handlers
          (λ h o a.
            takes-block get_time filter_block_timestamp sc_val_to_native limit query ds x h a)
          others adds)

    soroban_does :
        (x : DataOf StellarHandlerKind.soroban_transaction) (ds : SubqlDatasource)
        → HasPart ds
        → DoesNothing StellarHandlerKind.soroban_transaction x ds
    soroban_does x ds (runtime, others, adds) =
        only_taken StellarHandlerKind.soroban_transaction x ds runtime (
          any-takes_not_asked get_time filter_block_timestamp sc_val_to_native limit query ds
            StellarHandlerKind.soroban_transaction x ds.mapping.handlers
            (λ h o a.
              takes-soroban get_time filter_block_timestamp sc_val_to_native limit query ds x h o)
            others adds)

    module _ (dss : List SubqlDatasource) (asked : All HasPart dss) where
      calls_for-IsIdle :
          (kind : StellarHandlerKind) (x : DataOf kind)
          → ((ds : SubqlDatasource) → HasPart ds → DoesNothing kind x ds)
          → All IsIdle (calls_for dss kind x)
      calls_for-IsIdle kind x idle = All-map HasPart IsIdle _ idle dss asked

      transaction_calls-IsIdle :
          (tx : StellarTransaction)
          → IsNotAsked get_time filter_block_timestamp sc_val_to_native query
              StellarHandlerKind.transaction tx
          → All IsIdle (transaction_calls dss tx)
      transaction_calls-IsIdle tx missed =
          All-flat_map HasPart IsIdle (transaction_ds_calls dss tx)
            (λ ds a. elim (Bool-cases (invokes_host_function tx)) [
              | inl call ↦ rw call (
                not_asked_does StellarHandlerKind.transaction tx (λ e. cc e) missed ds a,
                (soroban_does tx ds a, tt),
              )
              | inr other ↦
                  rw other
                    (not_asked_does StellarHandlerKind.transaction tx (λ e. cc e) missed ds a, tt)
            ])
            dss asked

      operation_calls-IsIdle :
          (events : List SorobanEvent) (op : StellarOperation)
          → OperationIsNotAsked get_time filter_block_timestamp sc_val_to_native query events op
          → All IsIdle (operation_calls dss events op)
      operation_calls-IsIdle events op (missed, effects, evs) =
          All-append IsIdle (calls_for dss StellarHandlerKind.operation op) _
            (calls_for-IsIdle StellarHandlerKind.operation op
              (not_asked_does StellarHandlerKind.operation op (λ e. cc e) missed))
            (All-append IsIdle (flat_map (calls_for dss StellarHandlerKind.effects) op.effects) _
              (All-flat_map
                (IsNotAsked get_time filter_block_timestamp sc_val_to_native query
                  StellarHandlerKind.effects)
                IsIdle (calls_for dss StellarHandlerKind.effects)
                (λ e m.
                  calls_for-IsIdle StellarHandlerKind.effects e
                    (not_asked_does StellarHandlerKind.effects e (λ e. cc e) m))
                op.effects effects)
              (All-flat_map
                (λ r.
                  IsNotAsked get_time filter_block_timestamp sc_val_to_native query
                    StellarHandlerKind.event (the_event events r))
                IsIdle
                (λ (r : EventRef). calls_for dss StellarHandlerKind.event (the_event events r))
                (λ r m.
                  calls_for-IsIdle StellarHandlerKind.event (the_event events r)
                    (not_asked_does StellarHandlerKind.event (the_event events r) (λ e. cc e) m))
                op.events evs))

      block_calls-IsIdle :
          (wrapper : StellarBlockWrapper)
          → BlockIsNotAsked get_time filter_block_timestamp sc_val_to_native query wrapper
          → All IsIdle (block_calls dss wrapper)
      block_calls-IsIdle wrapper missed =
          All-append IsIdle (calls_for dss StellarHandlerKind.block wrapper.block) _
            (calls_for-IsIdle StellarHandlerKind.block wrapper.block (block_does wrapper.block))
            (All-flat_map _ IsIdle _
              (λ (tx : StellarTransaction) m.
                All-append IsIdle (transaction_calls dss tx) _ (transaction_calls-IsIdle tx m.0) (
                  All-flat_map _ IsIdle _ (operation_calls-IsIdle wrapper.block.events)
                    tx.operations m.1))
              wrapper.transactions missed)

  -- Where node-core's `indexData` does nothing for a runtime datasource without a handler of the kind whose
  -- filter takes the data: indexing a block changes nothing and throws nothing, for any of the project's
  -- datasources, if a query with entries asks for none of the block's data. An entry asks for data as `AsksFor`
  -- says: by the table of the kind and by texts in lower case, but for topics; which records a dictionary
  -- keeps is not said. This is of projects of runtime datasources without handlers of Soroban transactions.
  pub index_block_data-not_asked :
      (limit : ℕ) (data_sources : List SubqlDatasource) (active : SubqlDatasource → Bool)
      (wrapper : StellarBlockWrapper) (s : S)
      → All (λ ds. is_runtime_ds ds ≡ true) data_sources
      → All HasNoSorobanHandler data_sources
      → is_empty (build_dictionary_query_entries limit data_sources) ≡ false
      → BlockIsNotAsked get_time filter_block_timestamp sc_val_to_native
          (build_dictionary_query_entries limit data_sources)
          wrapper
      → index_block_data index_data (filter active data_sources) wrapper s ≡ (s, none)
  index_block_data-not_asked limit data_sources active wrapper s runtime others full missed =
      let query = build_dictionary_query_entries limit data_sources in
      let asked =
        All-both (λ ds. is_runtime_ds ds ≡ true) HasNoSorobanHandler
          (λ (ds : SubqlDatasource).
            All (λ h. Adds (λ d. any (same_key d) query ≡ true) (contribution limit ds h))
              ds.mapping.handlers)
          data_sources runtime others (build-Adds limit data_sources full) in
      index_block_data-run index_data (filter active data_sources) wrapper s
      ∙ run_idle (block_calls (filter active data_sources) wrapper)
          (block_calls-IsIdle limit query (filter active data_sources)
            (All-filter active (HasPart limit query) data_sources asked) wrapper missed)
          s
