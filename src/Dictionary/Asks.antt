-- ===== src/Dictionary/Asks.antt =====
-- packages/node/src/indexer/dictionary/v1/stellarDictionaryV1.ts, `buildDictionaryQueryEntries`, beside
-- `FilterTypeMap` of indexer.manager.ts there: a query and the data that the handlers take.
use subql_stellar.Prelude.{
  ℕ, String, some, List, ◌∷◌, ◌++◌, Bool, true, false, any, is_empty, All, All-middle, Any,
  any_sound, ◌≡◌, ◌≢◌, refl, sym, ap, ap₂, subst, ◌∙◌,
}
use subql_stellar.Types.{
  StellarHandlerKind, switch_kind, SubqlHandlerFilter, SubqlHandler, SubqlDatasource, NativeValue,
  StellarBlockFilter,
}
use subql_stellar.Indexer.{DataOf, filter_type_map}
use subql_stellar.Dictionary.{
  DictionaryQueryEntry, Contribution, contribution, kind_contribution, switch_contribution, when,
  transaction_filter_to_query_entry, operation_filter_to_query_entry, effect_filter_to_query_entry,
  event_filter_to_query_entry,
}
use subql_stellar.Dictionary.Query.{same_key, build_dictionary_query_entries}
use subql_stellar.Dictionary.Keys.{same_key_sound}
use subql_stellar.Dictionary.Handlers.{Adds, build-Adds}
use subql_stellar.Dictionary.Covers.{Meets, QueryText, when-eq-entry, contribution-Meets}

-- The table that the query's functions name for a kind; the query never asks for blocks. The source notes that
-- dictionaries have no events yet.
abbrev pub entity_of : StellarHandlerKind → String
entity_of StellarHandlerKind.block = "blocks"
entity_of StellarHandlerKind.transaction = "transactions"
entity_of StellarHandlerKind.soroban_transaction = "transactions"
entity_of StellarHandlerKind.operation = "operations"
entity_of StellarHandlerKind.effects = "effects"
entity_of StellarHandlerKind.event = "events"

-- The entry is of the data's table, and each of its conditions asks for what the data has.
abbrev pub AsksFor :
    (String → NativeValue)
    → (kind : StellarHandlerKind) → DataOf kind
    → DictionaryQueryEntry
    → Type 0
AsksFor native kind x e =
    (e.entity ≡ entity_of kind) × All (Meets (QueryText native kind x)) e.conditions

when-Adds :
    (P : DictionaryQueryEntry → Type 0) (b : Bool) (d : DictionaryQueryEntry)
    → Adds P (when b d)
    → (e : DictionaryQueryEntry) × (when b d ≡ Contribution.entry e) × P e
when-Adds P true d adds = (d, refl, adds)
when-Adds P false d adds = absurd adds

module _ (limit : ℕ) (ds : SubqlDatasource) where
  kind_contribution-entity :
      (filter : SubqlHandlerFilter) (kind : StellarHandlerKind) (e : DictionaryQueryEntry)
      → kind_contribution limit ds filter kind ≡ Contribution.entry e
      → e.entity ≡ entity_of kind
  unfolding transaction_filter_to_query_entry operation_filter_to_query_entry
      effect_filter_to_query_entry event_filter_to_query_entry
  kind_contribution-entity filter StellarHandlerKind.block e h = cc h
  kind_contribution-entity filter StellarHandlerKind.transaction e h =
      ap (λ (d : DictionaryQueryEntry). d.entity) (sym (when-eq-entry _ _ e h))
  kind_contribution-entity filter StellarHandlerKind.soroban_transaction e h = cc h
  kind_contribution-entity filter StellarHandlerKind.operation e h =
      ap (λ (d : DictionaryQueryEntry). d.entity) (sym (when-eq-entry _ _ e h))
  kind_contribution-entity filter StellarHandlerKind.effects e h =
      ap (λ (d : DictionaryQueryEntry). d.entity) (sym (when-eq-entry _ _ e h))
  kind_contribution-entity filter StellarHandlerKind.event e h =
      ap (λ (d : DictionaryQueryEntry). d.entity) (sym (when-eq-entry _ _ e h))

  -- A handler whose part does not empty the query adds an entry to it.
  kind_contribution-Adds :
      (P : DictionaryQueryEntry → Type 0) (filter : SubqlHandlerFilter) (kind : StellarHandlerKind)
      → kind ≢ StellarHandlerKind.soroban_transaction
      → Adds P (kind_contribution limit ds filter kind)
      → (e : DictionaryQueryEntry) × (kind_contribution limit ds filter kind ≡ Contribution.entry e)
        × P e
  kind_contribution-Adds P filter StellarHandlerKind.block other adds = absurd adds
  kind_contribution-Adds P filter StellarHandlerKind.transaction other adds = when-Adds P _ _ adds
  kind_contribution-Adds P filter StellarHandlerKind.soroban_transaction other adds =
      absurd (other refl)
  kind_contribution-Adds P filter StellarHandlerKind.operation other adds = when-Adds P _ _ adds
  kind_contribution-Adds P filter StellarHandlerKind.effects other adds = when-Adds P _ _ adds
  kind_contribution-Adds P filter StellarHandlerKind.event other adds = when-Adds P _ _ adds

  contribution-eq :
      (handler : SubqlHandler) (filter : SubqlHandlerFilter) (kind : StellarHandlerKind)
      → handler.filter ≡ some filter
      → switch_kind handler.kind ≡ some kind
      → contribution limit ds handler ≡ kind_contribution limit ds filter kind
  unfolding contribution
  contribution-eq handler filter kind has_filter of_kind =
      ap₂ (switch_contribution limit ds) has_filter of_kind

-- A query with the entry that a handler adds asks for what the handler's filter takes.
pub handler-AsksFor :
    (get_time : String → ℕ) (filter_block_timestamp : ℕ → StellarBlockFilter → Bool)
    (sc_val_to_native : String → NativeValue) (limit : ℕ) (query : List DictionaryQueryEntry)
    (ds : SubqlDatasource) (handler : SubqlHandler) (filter : SubqlHandlerFilter)
    (kind : StellarHandlerKind) (x : DataOf kind)
    → handler.filter ≡ some filter
    → switch_kind handler.kind ≡ some kind
    → kind ≢ StellarHandlerKind.soroban_transaction
    → filter_type_map get_time filter_block_timestamp sc_val_to_native kind x (some filter) ds
      ≡ true
    → Adds (λ d. any (same_key d) query ≡ true) (contribution limit ds handler)
    → Any (AsksFor sc_val_to_native kind x) query
handler-AsksFor get_time filter_block_timestamp sc_val_to_native limit query ds handler filter kind
      x has_filter of_kind other taken adds =
    let eq = contribution-eq limit ds handler filter kind has_filter of_kind in
    let (e, is_e, there) =
      kind_contribution-Adds limit ds (λ d. any (same_key d) query ≡ true) filter kind other
        (subst (Adds _) eq adds) in
    let meets =
      contribution-Meets get_time filter_block_timestamp sc_val_to_native limit ds filter handler
        kind x e has_filter of_kind taken (eq ∙ is_e) in
    any_sound (AsksFor sc_val_to_native kind x) (same_key e)
      (λ f same.
        let (entity, conditions) =
          same_key_sound (Meets (QueryText sc_val_to_native kind x)) e f same meets in
        (sym entity ∙ kind_contribution-entity limit ds filter kind e is_e, conditions))
      query there

-- Where a query has entries, some entry of it asks for whatever any handler's filter takes: it is of the table
-- that the code names for the kind, and each of its conditions asks for the text that the data has in the
-- condition's field, in lower case but for topics. This is of handlers with a filter, of all kinds but Soroban
-- transactions; it does not say which records a dictionary keeps (of events none yet, as the source notes), or in
-- which case.
pub build-AsksFor :
    (get_time : String → ℕ) (filter_block_timestamp : ℕ → StellarBlockFilter → Bool)
    (sc_val_to_native : String → NativeValue) (limit : ℕ)
    (data_sources others : List SubqlDatasource) (ds : SubqlDatasource)
    (before after : List SubqlHandler) (handler : SubqlHandler) (filter : SubqlHandlerFilter)
    (kind : StellarHandlerKind) (x : DataOf kind)
    → ds.mapping.handlers ≡ before ++ handler ∷ after
    → handler.filter ≡ some filter
    → switch_kind handler.kind ≡ some kind
    → kind ≢ StellarHandlerKind.soroban_transaction
    → filter_type_map get_time filter_block_timestamp sc_val_to_native kind x (some filter) ds
      ≡ true
    → is_empty (build_dictionary_query_entries limit (data_sources ++ ds ∷ others)) ≡ false
    → Any
        (AsksFor sc_val_to_native kind x)
        (build_dictionary_query_entries limit (data_sources ++ ds ∷ others))
build-AsksFor get_time filter_block_timestamp sc_val_to_native limit data_sources others ds before
      after handler filter kind x among has_filter of_kind other taken full =
    let query = build_dictionary_query_entries limit (data_sources ++ ds ∷ others) in
    let here =
      All-middle _ data_sources ds others (build-Adds limit (data_sources ++ ds ∷ others) full) in
    handler-AsksFor get_time filter_block_timestamp sc_val_to_native limit query ds handler filter
      kind x has_filter of_kind other taken
      (All-middle _ before handler after (subst (All _) among here))
