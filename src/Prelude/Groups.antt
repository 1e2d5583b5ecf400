-- ===== src/Prelude/Groups.antt =====
-- JavaScript objects as association lists, and the grouping loop `acc[key] ??= []; acc[key].push(x)`.
use Prim.Native.String.{String}
use mathlib.Core.Path.{◌≡◌, refl, sym, ap, ◌∙◌}
use mathlib.Core.Logic.{inl, inr}
use mathlib.Core.Bool.{Bool, false}
use mathlib.Core.Option.{Option, none, some}
use mathlib.Core.List.{List, [], ◌∷◌, ◌++◌, append_assoc, append-nil}
use native.Mathlib.Omega.{arith}
use text.Mathlib.TextEquality.{eq_iff}
use subql_stellar.Prelude.Tests.{◌===◌, if◌then◌else◌, or_default, Bool-cases}
use subql_stellar.Prelude.Lists.{filter}
use subql_stellar.Prelude.Results.{Result, ok, throw, ◌>>=◌, >>=-eq-ok, ok-injective}

module _ {ℓ} {V : Type ℓ} where
  -- `object[read]`
  unfoldable pub lookup : String → List (String × V) → Option V
  lookup read [] = none
  lookup read ((field, value) ∷ others) = if field === read then some value else lookup read others

  -- `object[written] = value`
  unfoldable pub insert : String → V → List (String × V) → List (String × V)
  insert written value [] = (written, value) ∷ []
  insert written value ((field, old) ∷ others) =
      if field === written
      then (field, value) ∷ others
      else (field, old) ∷ insert written value others

  pub lookup-insert :
      (written read : String) (value : V) (object : List (String × V))
      → lookup read (insert written value object)
        ≡ (if written === read then some value else lookup read object)
  unfolding lookup insert
  lookup-insert written read value [] = refl
  lookup-insert written read value ((field, old) ∷ others) =
      let later = lookup-insert written read value others in
      ground (arith, later, eq_iff field written, eq_iff field read, eq_iff written read)

  -- `{...a, ...b}`
  unfoldable pub spread : List (String × V) → List (String × V) → List (String × V)
  spread a [] = a
  spread a ((k, v) ∷ b) = spread (insert k v a) b

module _ {ℓ} {A : Type ℓ} where
  -- `obj[k] ?? []`
  abbrev pub group_of : String → List (String × List A) → List A
  group_of k acc = or_default (lookup k acc) []

  -- `acc[k] ??= []; acc[k].push(x)`
  unfoldable pub push_group : String → A → List (String × List A) → List (String × List A)
  push_group k x acc = insert k (group_of k acc ++ x ∷ []) acc

  pub group_of-push_group :
      (k j : String) (x : A) (acc : List (String × List A))
      → group_of k (push_group j x acc) ≡ group_of k acc ++ (if j === k then x ∷ [] else [])
  unfolding push_group
  group_of-push_group k j x acc = rw lookup-insert (elim (Bool-cases (j === k)) [
    | inl same ↦ rw (same, (eq_iff j k).0 same)
    | inr other ↦ rw other (sym (append-nil _))
  ])

module _ {ℓ} {A : Type ℓ} (key : A → String) where
  -- The loop of `reduce`.
  unfoldable pub group_from : List (String × List A) → List A → List (String × List A)
  group_from acc [] = acc
  group_from acc (x ∷ xs) = group_from (push_group (key x) x acc) xs

  -- Reading a group gives the members with that key, in their order.
  pub group_of-group_from :
      (k : String) (acc : List (String × List A)) (xs : List A)
      → group_of k (group_from acc xs) ≡ group_of k acc ++ filter (λ x. key x === k) xs
  unfolding group_from
  group_of-group_from k acc [] = sym (append-nil _)
  group_of-group_from k acc (x ∷ xs) =
      group_of-group_from k (push_group (key x) x acc) xs
      ∙ rw (group_of-push_group k (key x) x acc) (elim (Bool-cases (key x === k)) [
        | inl same ↦ rw same (append_assoc _ (x ∷ []) _)
        | inr other ↦ rw other (rw (append-nil (group_of k acc)))
      ])

abbrev keyed : String → Result String → Bool
keyed k (ok j) = j === k
keyed k (throw e) = false

-- The same where the key of a member may throw.
module _ {ℓ} {A : Type ℓ} (key : A → Result String) where
  unfoldable pub try_group_from : List (String × List A) → List A → Result (List (String × List A))
  try_group_from acc [] = ok acc
  try_group_from acc (x ∷ xs) = do k ← key x; try_group_from (push_group k x acc) xs

  -- The member has the key.
  abbrev pub key_is : String → A → Bool
  key_is k x = keyed k (key x)

  group_of-push_key :
      (k j : String) (acc : List (String × List A)) (x : A) (xs : List A)
      → key x ≡ ok j
      → group_of k (push_group j x acc) ++ filter (key_is k) xs
        ≡ group_of k acc ++ filter (key_is k) (x ∷ xs)
  group_of-push_key k j acc x xs e =
      rw (e, group_of-push_group k j x acc)
        (elim (Bool-cases (j === k)) [
          | inl same ↦ rw same (append_assoc _ (x ∷ []) _)
          | inr other ↦ rw other (rw (append-nil (group_of k acc)))
        ])

  pub group_of-try_group_from :
      (k : String) (acc acc' : List (String × List A)) (xs : List A)
      → try_group_from acc xs ≡ ok acc'
      → group_of k acc' ≡ group_of k acc ++ filter (key_is k) xs
  unfolding try_group_from
  group_of-try_group_from k acc acc' [] h =
      ap (group_of k) (sym (ok-injective h)) ∙ sym (append-nil _)
  group_of-try_group_from k acc acc' (x ∷ xs) h =
      let (j, e, h') = >>=-eq-ok (key x) _ h in
      group_of-try_group_from k (push_group j x acc) acc' xs h' ∙ group_of-push_key k j acc x xs e
