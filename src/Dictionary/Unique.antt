-- ===== src/Dictionary/Unique.antt =====
-- packages/node/src/indexer/dictionary/v1/stellarDictionaryV1.ts, `buildDictionaryQueryEntries`: the entries of a query are
-- told apart up to the order of their conditions.
use mathlib.Core.List.Permᴰ
use subql_stellar.Prelude.{
  ℕ, Option, none, some, List, [], ◌++◌, any, Any, any_sound, ◌∷◌, true, false, ◌===◌, All, Permᴰ,
  ◌≡◌, ◌↔◌, refl, sym, subst, ◌∙◌, Bool-cases, inl, inr, eq_iff, and-eq-true,
}
use subql_stellar.Types.{SubqlHandler, SubqlDatasource}
use subql_stellar.Dictionary.{
  DictionaryQueryEntry, Contribution, contribution, add_contribution, handler_entries,
  append_option, all_entries,
}
use subql_stellar.Dictionary.Query.{
  sort_by_field, same_conditions_refl, same_key, build_dictionary_query_entries, IsUnique,
  uniq_from, uniq_option, uniq_from-IsUnique, IsIn, uniq_from-IsIn, uniq_from-kept,
  uniq_from-dropped,
}
use subql_stellar.Dictionary.Fields.{AddsDistinct, contribution-AddsDistinct}
use subql_stellar.Dictionary.Keys.{same_conditions_sound}
use subql_stellar.Dictionary.Sorted.{HasDistinctFields, sort_by_field-Permᴰ, sort_by_field_perm}

-- The keys of two entries are the same exactly if their entities are, and their conditions are up to order. This
-- is of entries without two conditions on one field.
pub same_key_iff :
    (e f : DictionaryQueryEntry)
    → HasDistinctFields e.conditions
    → (same_key e f ≡ true) ↔ ((e.entity ≡ f.entity) × Permᴰ e.conditions f.conditions)
unfolding same_key
same_key_iff e f distinct = (
  λ h.
      let (entity, conditions) = and-eq-true (e.entity === f.entity) _ h in
      (
        (eq_iff e.entity f.entity).0 entity,
        Permᴰ.trans (Permᴰ.symm (sort_by_field-Permᴰ e.conditions)) (
            subst (λ l. Permᴰ l f.conditions) (sym (same_conditions_sound _ _ conditions))
              (sort_by_field-Permᴰ f.conditions)),
      ),
  λ h.
      rw
        (
          (eq_iff e.entity f.entity).1 h.0,
          sort_by_field_perm h.1 distinct,
          same_conditions_refl (sort_by_field f.conditions),
        )
        refl,
)

-- The entries' conditions are on distinct fields.
abbrev AreDistinct : List DictionaryQueryEntry → Type 0
AreDistinct = All (λ (e : DictionaryQueryEntry). HasDistinctFields e.conditions)

abbrev AreDistinctOption : Option (List DictionaryQueryEntry) → Type 0
AreDistinctOption none = Unit
AreDistinctOption (some es) = AreDistinct es

add_contribution-distinct :
    (c : Contribution) (rest : Option (List DictionaryQueryEntry))
    → AddsDistinct c
    → AreDistinctOption rest
    → AreDistinctOption (add_contribution c rest)
add_contribution-distinct (Contribution.entry e) none h k = tt
add_contribution-distinct (Contribution.entry e) (some es) h k = (h, k)
add_contribution-distinct Contribution.nothing rest h k = k
add_contribution-distinct Contribution.everything rest h k = tt

handler_entries-distinct :
    (limit : ℕ) (ds : SubqlDatasource) (handlers : List SubqlHandler)
    → AreDistinctOption (handler_entries limit ds handlers)
unfolding handler_entries
handler_entries-distinct limit ds [] = tt
handler_entries-distinct limit ds (handler ∷ handlers) =
    add_contribution-distinct (contribution limit ds handler) (handler_entries limit ds handlers)
      (contribution-AddsDistinct limit ds handler) (handler_entries-distinct limit ds handlers)

append-AreDistinct :
    (es fs : List DictionaryQueryEntry) → AreDistinct es → AreDistinct fs → AreDistinct (es ++ fs)
append-AreDistinct [] fs h k = k
append-AreDistinct (e ∷ es) fs h k = (h.0, append-AreDistinct es fs h.1 k)

append_option-distinct :
    (a b : Option (List DictionaryQueryEntry))
    → AreDistinctOption a
    → AreDistinctOption b
    → AreDistinctOption (append_option a b)
append_option-distinct none b h k = tt
append_option-distinct (some es) none h k = tt
append_option-distinct (some es) (some fs) h k = append-AreDistinct es fs h k

all_entries-distinct :
    (limit : ℕ) (data_sources : List SubqlDatasource)
    → AreDistinctOption (all_entries limit data_sources)
unfolding all_entries
all_entries-distinct limit [] = tt
all_entries-distinct limit (ds ∷ data_sources) =
    append_option-distinct (handler_entries limit ds ds.mapping.handlers)
      (all_entries limit data_sources) (handler_entries-distinct limit ds ds.mapping.handlers)
      (all_entries-distinct limit data_sources)

uniq_from-AreDistinct :
    (seen es : List DictionaryQueryEntry) → AreDistinct es → AreDistinct (uniq_from seen es)
unfolding uniq_from
uniq_from-AreDistinct seen [] h = tt
uniq_from-AreDistinct seen (e ∷ es) h = elim (Bool-cases (any (same_key e) seen)) [
  | inl there ↦ rw (uniq_from-dropped seen es e there) (uniq_from-AreDistinct seen es h.1)
  | inr fresh ↦ rw (uniq_from-kept seen es e fresh) (h.0, uniq_from-AreDistinct (e ∷ seen) es h.1)
]

-- The entries ask for one table, under the same conditions in some order.
abbrev pub AskTheSame : DictionaryQueryEntry → DictionaryQueryEntry → Type 0
AskTheSame e f = (e.entity ≡ f.entity) × Permᴰ e.conditions f.conditions

abbrev pub AreApart : List DictionaryQueryEntry → Type 0
AreApart [] = Unit
AreApart (e ∷ es) = All (λ f. ¬ AskTheSame f e) es × AreApart es

apart-each :
    (e : DictionaryQueryEntry) (es : List DictionaryQueryEntry)
    → AreDistinct es
    → All (λ f. same_key f e ≡ false) es
    → All (λ f. ¬ AskTheSame f e) es
apart-each e [] distinct h = tt
apart-each e (f ∷ fs) distinct h =
    (λ same. cc (sym ((same_key_iff f e distinct.0).1 same) ∙ h.0), apart-each e fs distinct.1 h.1)

IsUnique-AreApart : (es : List DictionaryQueryEntry) → AreDistinct es → IsUnique es → AreApart es
IsUnique-AreApart [] distinct h = tt
IsUnique-AreApart (e ∷ es) distinct h =
    (apart-each e es distinct.1 h.0, IsUnique-AreApart es distinct.1 h.1)

-- Some entry of the query asks the same as each of those that the handlers add.
abbrev pub AreAsked : Option (List DictionaryQueryEntry) → List DictionaryQueryEntry → Type 0
AreAsked none query = Unit
AreAsked (some es) query = All (λ e. Any (AskTheSame e) query) es

asked-each :
    (query es : List DictionaryQueryEntry)
    → AreDistinct es
    → All (IsIn [] query) es
    → All (λ e. Any (AskTheSame e) query) es
asked-each query [] distinct h = tt
asked-each query (e ∷ es) distinct h = (
  any_sound (AskTheSame e) (same_key e) (λ f same. (same_key_iff e f distinct.0).0 same) query h.0,
  asked-each query es distinct.1 h.1,
)

option-AreApart :
    (o : Option (List DictionaryQueryEntry))
    → AreDistinctOption o
    → AreApart (uniq_option o) × AreAsked o (uniq_option o)
option-AreApart none h = (tt, tt)
option-AreApart (some es) h = (
  IsUnique-AreApart (uniq_from [] es) (uniq_from-AreDistinct [] es h) (uniq_from-IsUnique [] es),
  asked-each (uniq_from [] es) es h (uniq_from-IsIn [] es),
)

-- No two entries of a query ask for the same table under the same conditions, in whatever order, and each entry that
-- a handler adds is asked for by one of the query's, up to the order of its conditions, unless some handler
-- has the query empty.
pub build-AreApart :
    (limit : ℕ) (data_sources : List SubqlDatasource)
    → AreApart (build_dictionary_query_entries limit data_sources)
      × AreAsked
          (all_entries limit data_sources)
          (build_dictionary_query_entries limit data_sources)
unfolding build_dictionary_query_entries
build-AreApart limit data_sources =
    option-AreApart (all_entries limit data_sources) (all_entries-distinct limit data_sources)
