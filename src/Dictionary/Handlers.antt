-- ===== src/Dictionary/Handlers.antt =====
-- packages/node/src/indexer/dictionary/v1/stellarDictionaryV1.ts, `buildDictionaryQueryEntries`: the part of
-- each handler in a query.
use subql_stellar.Prelude.{
  is_some, map, filter, not, ◌&&◌, Bool, Bool-cases, inl, inr, ap, ap₂, ◌∙◌, ℕ, Option, none, some,
  some-injective, List, [], ◌∷◌, ◌++◌, true, false, any, is_empty, All, All-left, All-right, ◌≡◌,
  refl, sym, subst,
}
use subql_stellar.Types.{
  SubqlHandler, SubqlDatasource, SubqlHandlerFilter, StellarHandlerKind, switch_kind, address,
}
use subql_stellar.Dictionary.{
  switch_contribution, DictionaryQueryEntry, Contribution, contribution, handler_entries,
  add_contribution, append_option, all_entries,
}
use subql_stellar.Dictionary.Query.{
  uniq_option, same_key, uniq_from-IsIn, build_dictionary_query_entries,
}

-- What holds of all entries holds of the one that a handler adds; a handler that makes the query
-- empty adds none.
abbrev pub Adds : (DictionaryQueryEntry → Type 0) → Contribution → Type 0
Adds P (Contribution.entry e) = P e
Adds P Contribution.nothing = Unit
Adds P Contribution.everything = ⊥

module _ (P : DictionaryQueryEntry → Type 0) (limit : ℕ) where
  cons-Adds :
      (ds : SubqlDatasource) (handler : SubqlHandler) (handlers : List SubqlHandler)
      (c : Contribution) (rest : Option (List DictionaryQueryEntry))
      → ((es : List DictionaryQueryEntry)
          → rest ≡ some es
          → All P es
          → All (λ h. Adds P (contribution limit ds h)) handlers)
      → (es : List DictionaryQueryEntry) → add_contribution c rest ≡ some es
      → All P es
      → Adds P c × All (λ h. Adds P (contribution limit ds h)) handlers
  cons-Adds ds handler handlers Contribution.everything rest ih es h p = cc h
  cons-Adds ds handler handlers Contribution.nothing rest ih es h p = (tt, ih es h p)
  cons-Adds ds handler handlers (Contribution.entry e) none ih es h p = cc h
  cons-Adds ds handler handlers (Contribution.entry e) (some rest) ih es h p =
      let q = subst (All P) (sym (some-injective (e ∷ rest) es h)) p in (q.0, ih rest refl q.1)

  handler_entries-Adds :
      (ds : SubqlDatasource) (handlers : List SubqlHandler) (es : List DictionaryQueryEntry)
      → handler_entries limit ds handlers ≡ some es
      → All P es
      → All (λ h. Adds P (contribution limit ds h)) handlers
  unfolding handler_entries
  handler_entries-Adds ds [] es h p = tt
  handler_entries-Adds ds (handler ∷ handlers) es h p =
      cons-Adds ds handler handlers (contribution limit ds handler)
        (handler_entries limit ds handlers) (handler_entries-Adds ds handlers) es h p

  both-Adds :
      {X Y : Type 0} (a b : Option (List DictionaryQueryEntry))
      → ((es : List DictionaryQueryEntry) → a ≡ some es → All P es → X)
      → ((es : List DictionaryQueryEntry) → b ≡ some es → All P es → Y)
      → (es : List DictionaryQueryEntry) → append_option a b ≡ some es
      → All P es
      → X × Y
  both-Adds none b f g es h p = cc h
  both-Adds (some a) none f g es h p = cc h
  both-Adds (some a) (some b) f g es h p =
      let q = subst (All P) (sym (some-injective (a ++ b) es h)) p in
      (f a refl (All-left P a b q), g b refl (All-right P a b q))

  abbrev pub AllAdd : List SubqlDatasource → Type 0
  AllAdd data_sources =
      All
        (λ (ds : SubqlDatasource). All (λ h. Adds P (contribution limit ds h)) ds.mapping.handlers)
        data_sources

  all_entries-Adds :
      (data_sources : List SubqlDatasource) (es : List DictionaryQueryEntry)
      → all_entries limit data_sources ≡ some es
      → All P es
      → AllAdd data_sources
  unfolding all_entries
  all_entries-Adds [] es h p = tt
  all_entries-Adds (ds ∷ data_sources) es h p =
      both-Adds (handler_entries limit ds ds.mapping.handlers) (all_entries limit data_sources)
        (handler_entries-Adds ds ds.mapping.handlers) (all_entries-Adds data_sources) es h p

-- Where a query has entries, every handler of every datasource was considered: none of them has data that
-- a query cannot find (no filter, a filter with nothing set, or blocks), and the query has an entry
-- with the key of each entry that one adds.
pub build-Adds :
    (limit : ℕ) (data_sources : List SubqlDatasource)
    → is_empty (build_dictionary_query_entries limit data_sources) ≡ false
    → AllAdd
        (λ e. any (same_key e) (build_dictionary_query_entries limit data_sources) ≡ true)
        limit
        data_sources
unfolding build_dictionary_query_entries
build-Adds limit data_sources h =
    of_option (all_entries limit data_sources) (all_entries-Adds _ limit data_sources) h
  where
    of_option :
        (o : Option (List DictionaryQueryEntry))
        → ((es : List DictionaryQueryEntry)
            → o ≡ some es
            → All (λ e. any (same_key e) (uniq_option o) ≡ true) es
            → AllAdd (λ e. any (same_key e) (uniq_option o) ≡ true) limit data_sources)
        → is_empty (uniq_option o) ≡ false
        → AllAdd (λ e. any (same_key e) (uniq_option o) ≡ true) limit data_sources
    of_option none adds h = cc h
    of_option (some es) adds h = adds es refl (uniq_from-IsIn [] es)

abbrev is_soroban_kind : Option StellarHandlerKind → Bool
is_soroban_kind none = false
is_soroban_kind (some StellarHandlerKind.block) = false
is_soroban_kind (some StellarHandlerKind.transaction) = false
is_soroban_kind (some StellarHandlerKind.soroban_transaction) = true
is_soroban_kind (some StellarHandlerKind.operation) = false
is_soroban_kind (some StellarHandlerKind.effects) = false
is_soroban_kind (some StellarHandlerKind.event) = false

-- The handler is of Soroban transactions, and has a filter.
abbrev is_soroban : SubqlHandler → Bool
is_soroban handler = is_some handler.filter && is_soroban_kind (switch_kind handler.kind)

-- The datasource without its handlers of Soroban transactions that have a filter.
abbrev pub without_soroban : SubqlDatasource → SubqlDatasource
without_soroban ds = record ds {
  mapping = record ds.mapping { handlers = filter (λ h. not (is_soroban h)) ds.mapping.handlers };
}

switch_contribution-soroban :
    (limit : ℕ) (ds : SubqlDatasource) (filter : Option SubqlHandlerFilter)
    (kind : Option StellarHandlerKind)
    → (is_some filter && is_soroban_kind kind) ≡ true
    → switch_contribution limit ds filter kind ≡ Contribution.nothing
switch_contribution-soroban limit ds none kind h = cc h
switch_contribution-soroban limit ds (some f) none h = cc
switch_contribution-soroban limit ds (some f) (some StellarHandlerKind.block) h = cc h
switch_contribution-soroban limit ds (some f) (some StellarHandlerKind.transaction) h = cc h
switch_contribution-soroban limit ds (some f) (some StellarHandlerKind.soroban_transaction) h = refl
switch_contribution-soroban limit ds (some f) (some StellarHandlerKind.operation) h = cc h
switch_contribution-soroban limit ds (some f) (some StellarHandlerKind.effects) h = cc h
switch_contribution-soroban limit ds (some f) (some StellarHandlerKind.event) h = cc h

-- The part of a handler depends on its datasource's options alone.
switch_contribution-without_soroban :
    (limit : ℕ) (ds : SubqlDatasource) (filter : Option SubqlHandlerFilter)
    (kind : Option StellarHandlerKind)
    → switch_contribution limit (without_soroban ds) filter kind
      ≡ switch_contribution limit ds filter kind
unfolding address
switch_contribution-without_soroban limit ds none kind = refl
switch_contribution-without_soroban limit ds (some f) none = refl
switch_contribution-without_soroban limit ds (some f) (some StellarHandlerKind.block) = refl
switch_contribution-without_soroban limit ds (some f) (some StellarHandlerKind.transaction) = refl
switch_contribution-without_soroban limit ds (some f)
      (some StellarHandlerKind.soroban_transaction) =
    refl
switch_contribution-without_soroban limit ds (some f) (some StellarHandlerKind.operation) = refl
switch_contribution-without_soroban limit ds (some f) (some StellarHandlerKind.effects) = refl
switch_contribution-without_soroban limit ds (some f) (some StellarHandlerKind.event) = refl

handler_entries-without_soroban :
    (limit : ℕ) (ds : SubqlDatasource) (handlers : List SubqlHandler)
    → handler_entries limit (without_soroban ds) (filter (λ h. not (is_soroban h)) handlers)
      ≡ handler_entries limit ds handlers
unfolding handler_entries contribution
handler_entries-without_soroban limit ds [] = refl
handler_entries-without_soroban limit ds (h ∷ handlers) = elim (Bool-cases (is_soroban h)) [
  | inl soroban ↦ rw soroban (
      handler_entries-without_soroban limit ds handlers
      ∙ sym (
          ap (λ c. add_contribution c (handler_entries limit ds handlers))
            (switch_contribution-soroban limit ds h.filter (switch_kind h.kind) soroban)))
  | inr other ↦ rw other (
      ap₂ add_contribution
        (switch_contribution-without_soroban limit ds h.filter (switch_kind h.kind))
        (handler_entries-without_soroban limit ds handlers))
]

all_entries-without_soroban :
    (limit : ℕ) (data_sources : List SubqlDatasource)
    → all_entries limit (map without_soroban data_sources) ≡ all_entries limit data_sources
unfolding all_entries
all_entries-without_soroban limit [] = refl
all_entries-without_soroban limit (ds ∷ data_sources) =
    ap₂ append_option (handler_entries-without_soroban limit ds ds.mapping.handlers)
      (all_entries-without_soroban limit data_sources)

-- The query of a project is that of the same project without its handlers of Soroban transactions that have
-- a filter: none of them has any part in it, not even that of keeping the query empty.
pub build-without_soroban :
    (limit : ℕ) (data_sources : List SubqlDatasource)
    → build_dictionary_query_entries limit (map without_soroban data_sources)
      ≡ build_dictionary_query_entries limit data_sources
unfolding build_dictionary_query_entries
build-without_soroban limit data_sources =
    ap uniq_option (all_entries-without_soroban limit data_sources)
