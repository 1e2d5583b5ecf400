-- ===== src/Dictionary/Keys.antt =====
-- packages/node/src/indexer/dictionary/v1/stellarDictionaryV1.ts, `uniqBy`: what the key of an entry keeps of it.
use Prim.Native.String.{compare}
use text.Mathlib.Text.{is_le}
use subql_stellar.Prelude.{
  String, List, [], ◌∷◌, Bool, true, false, ◌&&◌, ◌===◌, All, ◌≡◌, refl, subst, ap, ap₂, arith,
  Bool-cases, inl, inr, if◌then◌else◌, eq_iff, and-eq-true,
}
use subql_stellar.Dictionary.{
  ConditionValue, Matcher, DictionaryQueryCondition, DictionaryQueryEntry,
}
use subql_stellar.Dictionary.Query.{
  insert_by_field, sort_by_field, same_texts, same_value, same_matcher, same_condition,
  same_conditions, same_key,
}

same_texts_sound : (ss ts : List String) → same_texts ss ts ≡ true → ss ≡ ts
same_texts_sound [] [] h = refl
same_texts_sound [] (t ∷ ts) h = cc h
same_texts_sound (s ∷ ss) [] h = cc h
same_texts_sound (s ∷ ss) (t ∷ ts) h =
    let (e, rest) = and-eq-true (s === t) (same_texts ss ts) h in
    ap₂ ◌∷◌ ((eq_iff s t).0 e) (same_texts_sound ss ts rest)

same_value_sound : (v w : ConditionValue) → same_value v w ≡ true → v ≡ w
same_value_sound (ConditionValue.one s) (ConditionValue.one t) h =
    ap ConditionValue.one ((eq_iff s t).0 h)
same_value_sound (ConditionValue.one s) (ConditionValue.many ts) h = cc h
same_value_sound (ConditionValue.many ss) (ConditionValue.one t) h = cc h
same_value_sound (ConditionValue.many ss) (ConditionValue.many ts) h =
    ap ConditionValue.many (same_texts_sound ss ts h)

same_matcher_sound : (m n : Matcher) → same_matcher m n ≡ true → m ≡ n
same_matcher_sound Matcher.equal_to Matcher.equal_to h = refl
same_matcher_sound Matcher.equal_to Matcher.in_list h = cc h
same_matcher_sound Matcher.in_list Matcher.equal_to h = cc h
same_matcher_sound Matcher.in_list Matcher.in_list h = refl

all_three : (a b c : Bool) → (a && b && c) ≡ true → (a ≡ true) × (b ≡ true) × (c ≡ true)
all_three a b c h = ground arith

same_condition_sound : (c d : DictionaryQueryCondition) → same_condition c d ≡ true → c ≡ d
same_condition_sound c d h =
    let (field, value, matcher) =
      all_three (c.field === d.field) (same_value c.value d.value)
        (same_matcher c.matcher d.matcher) h in
    let f = (eq_iff c.field d.field).0 field in
    let v = same_value_sound c.value d.value value in
    let m = same_matcher_sound c.matcher d.matcher matcher in
    λ i. record { field = f i; value = v i; matcher = m i }

pub same_conditions_sound :
    (cs ds : List DictionaryQueryCondition) → same_conditions cs ds ≡ true → cs ≡ ds
same_conditions_sound [] [] h = refl
same_conditions_sound [] (d ∷ ds) h = cc h
same_conditions_sound (c ∷ cs) [] h = cc h
same_conditions_sound (c ∷ cs) (d ∷ ds) h =
    let (e, rest) = and-eq-true (same_condition c d) _ h in
    ap₂ ◌∷◌ (same_condition_sound c d e) (same_conditions_sound cs ds rest)

module _ (P : DictionaryQueryCondition → Type 0) where
  insert_by_field-All :
      (c : DictionaryQueryCondition) (ds : List DictionaryQueryCondition)
      → P c
      → All P ds
      → All P (insert_by_field c ds)
  unfolding insert_by_field
  insert_by_field-All c [] p h = (p, tt)
  insert_by_field-All c (d ∷ ds) p h = elim (Bool-cases (is_le (compare c.field d.field))) [
    | inl first ↦ rw first (p, h)
    | inr later ↦ rw later (h.0, insert_by_field-All c ds p h.1)
  ]

  All-insert_by_field :
      (c : DictionaryQueryCondition) (ds : List DictionaryQueryCondition)
      → All P (insert_by_field c ds)
      → P c × All P ds
  unfolding insert_by_field
  All-insert_by_field c [] h = (h.0, tt)
  All-insert_by_field c (d ∷ ds) h =
      by_test (is_le (compare c.field d.field)) h (All-insert_by_field c ds)
    where
      by_test :
          (b : Bool)
          → All P (if b then c ∷ d ∷ ds else d ∷ insert_by_field c ds)
          → (All P (insert_by_field c ds) → P c × All P ds)
          → P c × All P (d ∷ ds)
      by_test true h rest = h
      by_test false h rest = let (p, q) = rest h.1 in (p, (h.0, q))

  sort_by_field-All : (cs : List DictionaryQueryCondition) → All P cs → All P (sort_by_field cs)
  unfolding sort_by_field
  sort_by_field-All [] h = tt
  sort_by_field-All (c ∷ cs) h =
      insert_by_field-All c (sort_by_field cs) h.0 (sort_by_field-All cs h.1)

  All-sort_by_field : (cs : List DictionaryQueryCondition) → All P (sort_by_field cs) → All P cs
  unfolding sort_by_field
  All-sort_by_field [] h = tt
  All-sort_by_field (c ∷ cs) h =
      let (p, rest) = All-insert_by_field c (sort_by_field cs) h in (p, All-sort_by_field cs rest)

  -- Entries with one key have one entity, and their conditions hold of the same data.
  pub same_key_sound :
      (e f : DictionaryQueryEntry)
      → same_key e f ≡ true
      → All P e.conditions
      → (e.entity ≡ f.entity) × All P f.conditions
  unfolding same_key
  same_key_sound e f h p =
      let (entity, conditions) = and-eq-true (e.entity === f.entity) _ h in
      (
        (eq_iff e.entity f.entity).0 entity,
        All-sort_by_field f.conditions (
            subst (All P) (same_conditions_sound _ _ conditions)
              (sort_by_field-All e.conditions p)),
      )
