-- ===== src/Dictionary/Skips.antt =====
-- packages/node/src/indexer/dictionary/v1/stellarDictionaryV1.ts beside packages/node/src/indexer/indexer.manager.ts:
-- the blocks that a query does not ask for. Of node-core's `indexData` it is taken that it does nothing for a
-- runtime datasource without a handler of the kind whose filter takes the data.
use subql_stellar.Prelude.{
  ℕ, String, Option, none, some, List, [], ◌∷◌, Bool, true, false, ◌&&◌, ◌===◌, any, All, Any,
  Bool-cases, inl, inr, eq_iff, and-eq-true, ◌≡◌, ◌≢◌, refl, ap, ap₂, subst, ◌∙◌,
}
use subql_stellar.Types.{
  StellarHandlerKind, kind_text, switch_kind, find_kind, SubqlHandlerFilter, SubqlHandler,
  SubqlDatasource, NativeValue, StellarBlockFilter, SorobanEvent, StellarOperation,
  StellarTransaction, StellarBlockWrapper,
}
use subql_stellar.Indexer.{DataOf, the_event, filter_type_map}
use subql_stellar.Dictionary.{DictionaryQueryEntry, contribution, switch_contribution}
use subql_stellar.Dictionary.Query.{same_key}
use subql_stellar.Dictionary.Handlers.{Adds}
use subql_stellar.Dictionary.Asks.{AsksFor, handler-AsksFor}

switch_kind-kind_text : (kind : StellarHandlerKind) → switch_kind (kind_text kind) ≡ some kind
unfolding switch_kind find_kind
switch_kind-kind_text StellarHandlerKind.block = refl
switch_kind-kind_text StellarHandlerKind.transaction = refl
switch_kind-kind_text StellarHandlerKind.soroban_transaction = refl
switch_kind-kind_text StellarHandlerKind.operation = refl
switch_kind-kind_text StellarHandlerKind.effects = refl
switch_kind-kind_text StellarHandlerKind.event = refl

-- A handler whose part in a query does not empty it has a filter, and is not of blocks.
filter_of-Adds :
    (P : DictionaryQueryEntry → Type 0) (limit : ℕ) (ds : SubqlDatasource)
    (filter : Option SubqlHandlerFilter) (kind : Option StellarHandlerKind)
    → Adds P (switch_contribution limit ds filter kind)
    → (f : SubqlHandlerFilter) × (filter ≡ some f)
filter_of-Adds P limit ds none kind adds = absurd adds
filter_of-Adds P limit ds (some f) kind adds = (f, refl)

module _ (get_time : String → ℕ) (filter_block_timestamp : ℕ → StellarBlockFilter → Bool)
    (sc_val_to_native : String → NativeValue) where
  -- The handler is of the kind, and its filter takes the data.
  abbrev pub takes :
      (kind : StellarHandlerKind) → DataOf kind → SubqlDatasource → SubqlHandler → Bool
  takes kind x ds handler =
      (handler.kind === kind_text kind)
      && filter_type_map get_time filter_block_timestamp sc_val_to_native kind x handler.filter ds

  -- No entry of the query asks for the data.
  abbrev pub IsNotAsked :
      List DictionaryQueryEntry → (kind : StellarHandlerKind) → DataOf kind → Type 0
  IsNotAsked query kind x = ¬ Any (AsksFor sc_val_to_native kind x) query

  abbrev pub OperationIsNotAsked :
      List DictionaryQueryEntry → List SorobanEvent → StellarOperation → Type 0
  OperationIsNotAsked query events op =
      IsNotAsked query StellarHandlerKind.operation op
      × All (IsNotAsked query StellarHandlerKind.effects) op.effects
      × All (λ r. IsNotAsked query StellarHandlerKind.event (the_event events r)) op.events

  -- The query asks for none of the transactions, operations, effects and events of the block.
  abbrev pub BlockIsNotAsked : List DictionaryQueryEntry → StellarBlockWrapper → Type 0
  BlockIsNotAsked query wrapper =
      All
        (λ (tx : StellarTransaction).
          IsNotAsked query StellarHandlerKind.transaction tx
          × All (OperationIsNotAsked query wrapper.block.events) tx.operations)
        wrapper.transactions

  takes-eq-true :
      (kind : StellarHandlerKind) (x : DataOf kind) (ds : SubqlDatasource) (handler : SubqlHandler)
      → takes kind x ds handler ≡ true
      → (switch_kind handler.kind ≡ some kind)
        × (filter_type_map get_time filter_block_timestamp sc_val_to_native kind x handler.filter ds
            ≡ true)
  takes-eq-true kind x ds handler h =
      let (same, taken) = and-eq-true (handler.kind === kind_text kind) _ h in
      (
        ap switch_kind ((eq_iff handler.kind (kind_text kind)).0 same) ∙ switch_kind-kind_text kind,
        taken,
      )

  module _ (limit : ℕ) (query : List DictionaryQueryEntry) (ds : SubqlDatasource) where
    pub takes-not_asked :
        (kind : StellarHandlerKind) (x : DataOf kind) (handler : SubqlHandler)
        → kind ≢ StellarHandlerKind.soroban_transaction
        → IsNotAsked query kind x
        → Adds (λ d. any (same_key d) query ≡ true) (contribution limit ds handler)
        → takes kind x ds handler ≡ false
    unfolding contribution
    takes-not_asked kind x handler other missed adds = elim (Bool-cases (takes kind x ds handler)) [
      | inl taken ↦
          let (of_kind, passes) = takes-eq-true kind x ds handler taken in
          let (f, has_filter) =
            filter_of-Adds _ limit ds handler.filter (switch_kind handler.kind) adds in
          absurd (
            missed (
              handler-AsksFor get_time filter_block_timestamp sc_val_to_native limit query ds
                handler f kind x has_filter of_kind other
                (subst
                  (λ o.
                    filter_type_map get_time filter_block_timestamp sc_val_to_native kind x o ds
                    ≡ true)
                  has_filter passes)
                adds))
      | inr free ↦ free
    ]

    -- With an entry of each handler in the query, no handler is of blocks.
    pub takes-block :
        (x : DataOf StellarHandlerKind.block) (handler : SubqlHandler)
        → Adds (λ d. any (same_key d) query ≡ true) (contribution limit ds handler)
        → takes StellarHandlerKind.block x ds handler ≡ false
    unfolding contribution
    takes-block x handler adds = elim (Bool-cases (takes StellarHandlerKind.block x ds handler)) [
      | inl taken ↦
          let (of_kind, passes) = takes-eq-true StellarHandlerKind.block x ds handler taken in
          let (f, has_filter) =
            filter_of-Adds _ limit ds handler.filter (switch_kind handler.kind) adds in
          absurd (
            subst (Adds (λ d. any (same_key d) query ≡ true))
              (ap₂ (switch_contribution limit ds) has_filter of_kind) adds)
      | inr free ↦ free
    ]

    pub takes-soroban :
        (x : DataOf StellarHandlerKind.soroban_transaction) (handler : SubqlHandler)
        → switch_kind handler.kind ≢ some StellarHandlerKind.soroban_transaction
        → takes StellarHandlerKind.soroban_transaction x ds handler ≡ false
    takes-soroban x handler other =
        elim (Bool-cases (takes StellarHandlerKind.soroban_transaction x ds handler)) [
          | inl taken ↦
              absurd
                (other (takes-eq-true StellarHandlerKind.soroban_transaction x ds handler taken).0)
          | inr free ↦ free
        ]

    -- Data that the query misses are taken by none of the datasource's handlers.
    pub any-takes_not_asked :
        (kind : StellarHandlerKind) (x : DataOf kind) (handlers : List SubqlHandler)
        → ((handler : SubqlHandler)
            → switch_kind handler.kind ≢ some StellarHandlerKind.soroban_transaction
            → Adds (λ d. any (same_key d) query ≡ true) (contribution limit ds handler)
            → takes kind x ds handler ≡ false)
        → All
            (λ (h : SubqlHandler). switch_kind h.kind ≢ some StellarHandlerKind.soroban_transaction)
            handlers
        → All (λ h. Adds (λ d. any (same_key d) query ≡ true) (contribution limit ds h)) handlers
        → any (takes kind x ds) handlers ≡ false
    any-takes_not_asked kind x [] free others adds = refl
    any-takes_not_asked kind x (h ∷ handlers) free others adds =
        rw (free h others.0 adds.0, any-takes_not_asked kind x handlers free others.1 adds.1)
