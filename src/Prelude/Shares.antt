-- ===== src/Prelude/Shares.antt =====
-- Lists shared out among keys: what a loop over the keys collects, with each key its own members.
use mathlib.Core.Path.{◌≡◌, refl, sym, ap, subst, ◌∙◌}
use mathlib.Core.Logic.{inl, inr}
use mathlib.Core.Bool.{Bool}
use mathlib.Core.List.{List, [], ◌∷◌, ◌++◌, Permᴰ}
use mathlib.Core.List.Permᴰ
use native.Mathlib.Omega.{arith}
use subql_stellar.Prelude.Tests.{Bool-cases}
use subql_stellar.Prelude.Lists.{length, filter, All}
use subql_stellar.Prelude.Maps.{flat_map}

-- A permutation of a list passes a test as often.
pub length-filter_perm {ℓ} :
    {A : Type ℓ} (p : A → Bool) {xs ys : List A}
    → Permᴰ xs ys
    → length (filter p xs) ≡ length (filter p ys)
length-filter_perm p Permᴰ.nil = refl
length-filter_perm p (Permᴰ.cons {a = a} {b = b} e d) =
    let k = length-filter_perm p d in ground (arith, ap p e, k)
length-filter_perm p (Permᴰ.swap {a = a} {b = b} {a' = a'} {b' = b'} {l = l} e e') =
    ground (arith, ap p e, ap p e')
length-filter_perm p (Permᴰ.trans d d') = length-filter_perm p d ∙ length-filter_perm p d'

module _ {ℓ κ} {A : Type ℓ} {K : Type κ} (owns : K → A → Bool) where
  -- The members of each key, one key after another.
  abbrev pub shares : List A → List K → List A
  shares xs ks = flat_map (λ k. filter (owns k) xs) ks

  -- The member has exactly one of the keys.
  abbrev pub HasOneOwner : List K → A → Type 0
  HasOneOwner ks x = length (filter (λ k. owns k x) ks) ≡ 1

  shares-nil : (ks : List K) → shares [] ks ≡ []
  shares-nil [] = refl
  shares-nil (k ∷ ks) = shares-nil ks

  shares_none :
      (x : A) (xs : List A) (ks : List K)
      → length (filter (λ k. owns k x) ks) ≡ 0
      → shares (x ∷ xs) ks ≡ shares xs ks
  shares_none x xs [] h = refl
  shares_none x xs (k ∷ ks) h = elim (Bool-cases (owns k x)) [
    | inl own ↦ ground (arith, h, own)
    | inr other ↦
        rw other (ap (◌++◌ (filter (owns k) xs)) (shares_none x xs ks (ground (arith, h, other))))
  ]

  shares_one :
      (x : A) (xs : List A) (ks : List K)
      → length (filter (λ k. owns k x) ks) ≡ 1
      → Permᴰ (shares (x ∷ xs) ks) (x ∷ shares xs ks)
  shares_one x xs [] h = cc h
  shares_one x xs (k ∷ ks) h = elim (Bool-cases (owns k x)) [
    | inl own ↦
        let e = shares_none x xs ks (ground (arith, h, own)) in
        rw own (
          subst (λ l. Permᴰ (x ∷ (filter (owns k) xs ++ l)) (x ∷ shares xs (k ∷ ks))) (sym e)
            (Permᴰ.refl _))
    | inr other ↦
        let d = shares_one x xs ks (ground (arith, h, other)) in
        rw other (
          Permᴰ.trans (Permᴰ.append_left (filter (owns k) xs) d)
            (Permᴰ.middle x (filter (owns k) xs) (shares xs ks)))
  ]

  -- Where each member has exactly one key, nothing is lost and nothing comes twice.
  pub shares-Perm : (xs : List A) (ks : List K) → All (HasOneOwner ks) xs → Permᴰ (shares xs ks) xs
  shares-Perm [] ks h = subst (λ l. Permᴰ l []) (sym (shares-nil ks)) Permᴰ.nil
  shares-Perm (x ∷ xs) ks h =
      Permᴰ.trans (shares_one x xs ks h.0) (Permᴰ.cons refl (shares-Perm xs ks h.1))
