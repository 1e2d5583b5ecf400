-- ===== src/Dictionary/Query.antt =====
-- packages/node/src/indexer/dictionary/v1/stellarDictionaryV1.ts, `buildDictionaryQueryEntries`: the
-- entries of all handlers, each once. Two entries count as one where their entities and their conditions,
-- sorted by field, are the same: the code compares the texts that `JSON.stringify` makes of them.
use Prim.Native.String.{compare}
use text.Mathlib.Text.{is_le}
use subql_stellar.Prelude.{
  ℕ, String, Option, none, some, List, [], ◌∷◌, Bool, true, false, ◌&&◌, ◌||◌, ◌===◌, if◌then◌else◌,
  any, All, All-mono, ◌≡◌, refl, sym, subst, arith, Bool-cases, inl, inr, eq_refl,
}
use subql_stellar.Types.{SubqlDatasource}
use subql_stellar.Dictionary.{
  ConditionValue, Matcher, DictionaryQueryCondition, DictionaryQueryEntry, all_entries,
}

-- `sortBy(conditions, (c) => c.field)`, which is stable.
unfoldable pub insert_by_field :
    DictionaryQueryCondition → List DictionaryQueryCondition → List DictionaryQueryCondition
insert_by_field c [] = c ∷ []
insert_by_field c (d ∷ ds) =
    if is_le (compare c.field d.field) then c ∷ d ∷ ds else d ∷ insert_by_field c ds

unfoldable pub sort_by_field : List DictionaryQueryCondition → List DictionaryQueryCondition
unfolding insert_by_field
sort_by_field [] = []
sort_by_field (c ∷ cs) = insert_by_field c (sort_by_field cs)

abbrev pub same_texts : List String → List String → Bool
same_texts [] [] = true
same_texts [] (t ∷ ts) = false
same_texts (s ∷ ss) [] = false
same_texts (s ∷ ss) (t ∷ ts) = (s === t) && same_texts ss ts

abbrev pub same_value : ConditionValue → ConditionValue → Bool
same_value (ConditionValue.one s) (ConditionValue.one t) = s === t
same_value (ConditionValue.one s) (ConditionValue.many ts) = false
same_value (ConditionValue.many ss) (ConditionValue.one t) = false
same_value (ConditionValue.many ss) (ConditionValue.many ts) = same_texts ss ts

abbrev pub same_matcher : Matcher → Matcher → Bool
same_matcher Matcher.equal_to Matcher.equal_to = true
same_matcher Matcher.equal_to Matcher.in_list = false
same_matcher Matcher.in_list Matcher.equal_to = false
same_matcher Matcher.in_list Matcher.in_list = true

abbrev pub same_condition : DictionaryQueryCondition → DictionaryQueryCondition → Bool
same_condition c d =
    (c.field === d.field) && same_value c.value d.value && same_matcher c.matcher d.matcher

abbrev pub same_conditions : List DictionaryQueryCondition → List DictionaryQueryCondition → Bool
same_conditions [] [] = true
same_conditions [] (d ∷ ds) = false
same_conditions (c ∷ cs) [] = false
same_conditions (c ∷ cs) (d ∷ ds) = same_condition c d && same_conditions cs ds

-- The keys of the entries are the same text.
unfoldable pub same_key : DictionaryQueryEntry → DictionaryQueryEntry → Bool
unfolding sort_by_field
same_key e f =
    (e.entity === f.entity)
    && same_conditions (sort_by_field e.conditions) (sort_by_field f.conditions)

-- `uniqBy`, with the entries that have been kept.
unfoldable pub uniq_from :
    List DictionaryQueryEntry → List DictionaryQueryEntry → List DictionaryQueryEntry
unfolding same_key
uniq_from seen [] = []
uniq_from seen (e ∷ es) = elim (any (same_key e) seen) [
  | true ↦ uniq_from seen es
  | false ↦ e ∷ uniq_from (e ∷ seen) es
]

abbrev pub uniq_option : Option (List DictionaryQueryEntry) → List DictionaryQueryEntry
uniq_option none = []
uniq_option (some entries) = uniq_from [] entries

unfoldable pub build_dictionary_query_entries : ℕ → List SubqlDatasource → List DictionaryQueryEntry
unfolding uniq_from all_entries
build_dictionary_query_entries limit data_sources = uniq_option (all_entries limit data_sources)

same_texts_refl : (ss : List String) → same_texts ss ss ≡ true
same_texts_refl [] = refl
same_texts_refl (s ∷ ss) = rw (eq_refl s, same_texts_refl ss) refl

same_value_refl : (v : ConditionValue) → same_value v v ≡ true
same_value_refl (ConditionValue.one s) = eq_refl s
same_value_refl (ConditionValue.many ss) = same_texts_refl ss

same_matcher_refl : (m : Matcher) → same_matcher m m ≡ true
same_matcher_refl Matcher.equal_to = refl
same_matcher_refl Matcher.in_list = refl

pub same_conditions_refl : (cs : List DictionaryQueryCondition) → same_conditions cs cs ≡ true
same_conditions_refl [] = refl
same_conditions_refl (c ∷ cs) =
    rw
      (
        eq_refl c.field,
        same_value_refl c.value,
        same_matcher_refl c.matcher,
        same_conditions_refl cs,
      )
      refl

same_key_refl : (e : DictionaryQueryEntry) → same_key e e ≡ true
unfolding same_key
same_key_refl e = rw (eq_refl e.entity, same_conditions_refl (sort_by_field e.conditions)) refl

pub uniq_from-kept :
    (seen es : List DictionaryQueryEntry) (e : DictionaryQueryEntry)
    → any (same_key e) seen ≡ false
    → uniq_from seen (e ∷ es) ≡ e ∷ uniq_from (e ∷ seen) es
unfolding uniq_from
uniq_from-kept seen es e h = rw (h, uniq_from) refl

pub uniq_from-dropped :
    (seen es : List DictionaryQueryEntry) (e : DictionaryQueryEntry)
    → any (same_key e) seen ≡ true
    → uniq_from seen (e ∷ es) ≡ uniq_from seen es
unfolding uniq_from
uniq_from-dropped seen es e h = rw (h, uniq_from) refl

-- Each entry is there already, or is among those that are kept.
abbrev pub IsIn :
    List DictionaryQueryEntry → List DictionaryQueryEntry → DictionaryQueryEntry → Type 0
IsIn seen kept e = (any (same_key e) seen || any (same_key e) kept) ≡ true

pub uniq_from-IsIn : (seen es : List DictionaryQueryEntry) → All (IsIn seen (uniq_from seen es)) es
uniq_from-IsIn seen [] = tt
uniq_from-IsIn seen (e ∷ es) = elim (Bool-cases (any (same_key e) seen)) [
  | inl there ↦
      subst (λ kept. All (IsIn seen kept) (e ∷ es)) (sym (uniq_from-dropped seen es e there))
        (ground (arith, there), uniq_from-IsIn seen es)
  | inr fresh ↦
      subst (λ kept. All (IsIn seen kept) (e ∷ es)) (sym (uniq_from-kept seen es e fresh))
        (
          ground (arith, fresh, same_key_refl e),
          All-mono
              (λ x h.
                move (same_key x e) (any (same_key x) seen)
                  (any (same_key x) (uniq_from (e ∷ seen) es)) h)
              es (uniq_from-IsIn (e ∷ seen) es),
        )
]
  where
    move : (a b c : Bool) → ((a || b) || c) ≡ true → (b || (a || c)) ≡ true
    move a b c h = ground arith

uniq_from-fresh :
    (seen es : List DictionaryQueryEntry)
    → All (λ x. any (same_key x) seen ≡ false) (uniq_from seen es)
unfolding uniq_from
uniq_from-fresh seen [] = tt
uniq_from-fresh seen (e ∷ es) = elim (Bool-cases (any (same_key e) seen)) [
  | inl there ↦ rw (uniq_from-dropped seen es e there) (uniq_from-fresh seen es)
  | inr fresh ↦
      rw (uniq_from-kept seen es e fresh)
        (fresh, All-mono (λ x h. forget (same_key x e) _ h) _ (uniq_from-fresh (e ∷ seen) es))
]
  where
    forget : (a b : Bool) → (a || b) ≡ false → b ≡ false
    forget a b h = ground arith

-- No entry has the key of one before it.
abbrev pub IsUnique : List DictionaryQueryEntry → Type 0
IsUnique [] = Unit
IsUnique (e ∷ es) = All (λ x. same_key x e ≡ false) es × IsUnique es

pub uniq_from-IsUnique : (seen es : List DictionaryQueryEntry) → IsUnique (uniq_from seen es)
unfolding uniq_from
uniq_from-IsUnique seen [] = tt
uniq_from-IsUnique seen (e ∷ es) = elim (Bool-cases (any (same_key e) seen)) [
  | inl there ↦ rw (uniq_from-dropped seen es e there) (uniq_from-IsUnique seen es)
  | inr fresh ↦ rw (uniq_from-kept seen es e fresh) (
    All-mono (λ x h. first (same_key x e) _ h) _ (uniq_from-fresh (e ∷ seen) es),
    uniq_from-IsUnique (e ∷ seen) es,
  )
]
  where
    first : (a b : Bool) → (a || b) ≡ false → a ≡ false
    first a b h = ground arith
