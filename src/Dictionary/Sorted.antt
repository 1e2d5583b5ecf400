-- ===== src/Dictionary/Sorted.antt =====
-- packages/node/src/indexer/dictionary/v1/stellarDictionaryV1.ts, `sortBy` in the key of `uniqBy`: conditions on
-- distinct fields are sorted to one list, in whatever order they come.
use Prim.Native.String.{compare}
use mathlib.Core.List.Permᴰ
use text.Mathlib.Text.{is_le}
use subql_stellar.Prelude.{
  List, [], ◌∷◌, Bool, true, false, All, Permᴰ, ◌≡◌, ◌≢◌, refl, sym, ap, ap₂, subst, ◌∙◌,
  Bool-cases, inl, inr,
}
use subql_stellar.Dictionary.{DictionaryQueryCondition}
use subql_stellar.Dictionary.Query.{insert_by_field, sort_by_field}
use subql_stellar.Dictionary.Order.{is_le-text_le, text_le_trans, text_le_total, text_le_antisymm}

-- No two of the conditions are on one field.
abbrev pub HasDistinctFields : List DictionaryQueryCondition → Type 0
HasDistinctFields [] = Unit
HasDistinctFields (c ∷ cs) =
    All (λ (d : DictionaryQueryCondition). d.field ≢ c.field) cs × HasDistinctFields cs

abbrev before : DictionaryQueryCondition → DictionaryQueryCondition → Bool
before c d = is_le (compare c.field d.field)

before_trans :
    (c d e : DictionaryQueryCondition) → before c d ≡ true → before d e ≡ true → before c e ≡ true
before_trans c d e h k =
    is_le-text_le c.field e.field
    ∙ text_le_trans c.field d.field e.field (sym (is_le-text_le c.field d.field) ∙ h)
        (sym (is_le-text_le d.field e.field) ∙ k)

before_total : (c d : DictionaryQueryCondition) → before c d ≡ false → before d c ≡ true
before_total c d h =
    is_le-text_le d.field c.field
    ∙ text_le_total c.field d.field (sym (is_le-text_le c.field d.field) ∙ h)

before_antisymm :
    (c d : DictionaryQueryCondition) → c.field ≢ d.field → before c d ≡ true → before d c ≡ false
before_antisymm c d n h = elim (Bool-cases (before d c)) [
  | inl k ↦ absurd (
      n (
        text_le_antisymm c.field d.field (sym (is_le-text_le c.field d.field) ∙ h)
          (sym (is_le-text_le d.field c.field) ∙ k)))
  | inr k ↦ k
]

insert_by_field-first :
    (c d : DictionaryQueryCondition) (l : List DictionaryQueryCondition)
    → before c d ≡ true
    → insert_by_field c (d ∷ l) ≡ c ∷ d ∷ l
unfolding insert_by_field
insert_by_field-first c d l h = rw h refl

insert_by_field-later :
    (c d : DictionaryQueryCondition) (l : List DictionaryQueryCondition)
    → before c d ≡ false
    → insert_by_field c (d ∷ l) ≡ d ∷ insert_by_field c l
unfolding insert_by_field
insert_by_field-later c d l h = rw h refl

-- Where the first comes before the second.
insert_swap-nil :
    (c d : DictionaryQueryCondition)
    → before c d ≡ true
    → before d c ≡ false
    → insert_by_field c (insert_by_field d []) ≡ insert_by_field d (insert_by_field c [])
unfolding insert_by_field
insert_swap-nil c d h k = rw (h, k) refl

insert_swap-cons :
    (c d x : DictionaryQueryCondition) (m : List DictionaryQueryCondition)
    → before c d ≡ true
    → before d c ≡ false
    → insert_by_field c (insert_by_field d m) ≡ insert_by_field d (insert_by_field c m)
    → insert_by_field c (insert_by_field d (x ∷ m)) ≡ insert_by_field d (insert_by_field c (x ∷ m))
insert_swap-cons c d x m h k rest = elim (Bool-cases (before d x)) [
  | inl dx ↦
      ap (insert_by_field c) (insert_by_field-first d x m dx)
      ∙ insert_by_field-first c d (x ∷ m) h
      ∙ sym (
          ap (insert_by_field d) (insert_by_field-first c x m (before_trans c d x h dx))
          ∙ insert_by_field-later d c (x ∷ m) k
          ∙ ap (◌∷◌ c) (insert_by_field-first d x m dx))
  | inr dx ↦ elim (Bool-cases (before c x)) [
    | inl cx ↦
        ap (insert_by_field c) (insert_by_field-later d x m dx)
        ∙ insert_by_field-first c x (insert_by_field d m) cx
        ∙ sym (
            ap (insert_by_field d) (insert_by_field-first c x m cx)
            ∙ insert_by_field-later d c (x ∷ m) k
            ∙ ap (◌∷◌ c) (insert_by_field-later d x m dx))
    | inr cx ↦
        ap (insert_by_field c) (insert_by_field-later d x m dx)
        ∙ insert_by_field-later c x (insert_by_field d m) cx
        ∙ ap (◌∷◌ x) rest
        ∙ sym (
            ap (insert_by_field d) (insert_by_field-later c x m cx)
            ∙ insert_by_field-later d x (insert_by_field c m) dx)
  ]
]

insert_swap-ordered :
    (c d : DictionaryQueryCondition) (l : List DictionaryQueryCondition)
    → before c d ≡ true
    → before d c ≡ false
    → insert_by_field c (insert_by_field d l) ≡ insert_by_field d (insert_by_field c l)
insert_swap-ordered c d [] h k = insert_swap-nil c d h k
insert_swap-ordered c d (x ∷ m) h k = insert_swap-cons c d x m h k (insert_swap-ordered c d m h k)

insert_swap :
    (c d : DictionaryQueryCondition) (l : List DictionaryQueryCondition)
    → c.field ≢ d.field
    → insert_by_field c (insert_by_field d l) ≡ insert_by_field d (insert_by_field c l)
insert_swap c d l n = elim (Bool-cases (before c d)) [
  | inl h ↦ insert_swap-ordered c d l h (before_antisymm c d n h)
  | inr k ↦ sym (insert_swap-ordered d c l (before_total c d k) k)
]

insert_by_field-Permᴰ :
    (c : DictionaryQueryCondition) (l : List DictionaryQueryCondition)
    → Permᴰ (insert_by_field c l) (c ∷ l)
unfolding insert_by_field
insert_by_field-Permᴰ c [] = Permᴰ.refl (c ∷ [])
insert_by_field-Permᴰ c (d ∷ l) = elim (Bool-cases (before c d)) [
  | inl h ↦ rw h (Permᴰ.refl (c ∷ d ∷ l))
  | inr h ↦ rw h (Permᴰ.trans (Permᴰ.cons refl (insert_by_field-Permᴰ c l)) (Permᴰ.swap refl refl))
]

pub sort_by_field-Permᴰ : (l : List DictionaryQueryCondition) → Permᴰ (sort_by_field l) l
unfolding sort_by_field
sort_by_field-Permᴰ [] = Permᴰ.nil
sort_by_field-Permᴰ (c ∷ l) =
    Permᴰ.trans (insert_by_field-Permᴰ c (sort_by_field l))
      (Permᴰ.cons refl (sort_by_field-Permᴰ l))

All-perm :
    (P : DictionaryQueryCondition → Type 0) {cs ds : List DictionaryQueryCondition}
    → Permᴰ cs ds
    → All P cs
    → All P ds
All-perm P Permᴰ.nil h = tt
All-perm P (Permᴰ.cons e p) h = (subst P e h.0, All-perm P p h.1)
All-perm P (Permᴰ.swap e e') h = (subst P e' h.1.0, (subst P e h.0, h.1.1))
All-perm P (Permᴰ.trans p q) h = All-perm P q (All-perm P p h)

HasDistinctFields-perm :
    {cs ds : List DictionaryQueryCondition}
    → Permᴰ cs ds
    → HasDistinctFields cs
    → HasDistinctFields ds
HasDistinctFields-perm Permᴰ.nil h = tt
HasDistinctFields-perm (Permᴰ.cons {a = a} {b = b} {l₁ = k} {l₂ = l} e p) h = (
  All-perm (λ (d : DictionaryQueryCondition). d.field ≢ b.field) p
      (subst
        (λ (b : DictionaryQueryCondition).
          All (λ (d : DictionaryQueryCondition). d.field ≢ b.field) k)
        e h.0),
  HasDistinctFields-perm p h.1,
)
HasDistinctFields-perm (Permᴰ.swap {a = a} {b = b} {a' = a'} {b' = b'} {l = l} e e') h = (
  (
    λ k. h.0.0 (
        ap (λ (d : DictionaryQueryCondition). d.field) e'
        ∙ sym k
        ∙ sym (ap (λ (d : DictionaryQueryCondition). d.field) e)),
    subst
        (λ (x : DictionaryQueryCondition).
          All (λ (d : DictionaryQueryCondition). d.field ≢ x.field) l)
        e' h.1.0,
  ),
  (
    subst
        (λ (x : DictionaryQueryCondition).
          All (λ (d : DictionaryQueryCondition). d.field ≢ x.field) l)
        e h.0.1,
    h.1.1,
  ),
)
HasDistinctFields-perm (Permᴰ.trans p q) h = HasDistinctFields-perm q (HasDistinctFields-perm p h)

pub sort_by_field_perm :
    {cs ds : List DictionaryQueryCondition}
    → Permᴰ cs ds
    → HasDistinctFields cs
    → sort_by_field cs ≡ sort_by_field ds
unfolding sort_by_field
sort_by_field_perm Permᴰ.nil h = refl
sort_by_field_perm (Permᴰ.cons e p) h = ap₂ insert_by_field e (sort_by_field_perm p h.1)
sort_by_field_perm (Permᴰ.swap {a = a} {b = b} {a' = a'} {b' = b'} {l = l} e e') h =
    insert_swap a b (sort_by_field l) (λ k. h.0.0 (sym k))
    ∙ ap₂ (λ x y. insert_by_field x (insert_by_field y (sort_by_field l))) e' e
sort_by_field_perm (Permᴰ.trans p q) h =
    sort_by_field_perm p h ∙ sort_by_field_perm q (HasDistinctFields-perm p h)
