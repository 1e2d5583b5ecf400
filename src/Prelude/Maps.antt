-- ===== src/Prelude/Maps.antt =====
-- Mapping lists, by an element or by an index, and `flatMap`.
use Prim.Native.Nat.{ℕ, suc}
use mathlib.Core.Path.{◌≡◌, refl, ap, ap₂}
use mathlib.Core.Bool.{Bool}
use mathlib.Core.List.{List, [], ◌∷◌, ◌++◌, map, append_assoc, map-append}
use native.Mathlib.Omega.{arith}
use subql_stellar.Prelude.Lists.{length, filter, All, All-append}

module _ {ℓ κ} {A : Type ℓ} {B : Type κ} where
  pub length-map : (f : A → B) (xs : List A) → length (map f xs) ≡ length xs
  length-map f [] = refl
  length-map f (x ∷ xs) = ap suc (length-map f xs)

  abbrev pub flat_map : (A → List B) → List A → List B
  flat_map f [] = []
  flat_map f (x ∷ xs) = f x ++ flat_map f xs

  -- `xs.map((x, index) => f(x, index))`, from an index on
  abbrev pub map_index : (ℕ → A → B) → ℕ → List A → List B
  map_index f i [] = []
  map_index f i (x ∷ xs) = f i x ∷ map_index f (suc i) xs

  pub flat_map-append :
      (f : A → List B) (xs ys : List A) → flat_map f (xs ++ ys) ≡ flat_map f xs ++ flat_map f ys
  flat_map-append f [] ys = refl
  flat_map-append f (x ∷ xs) ys = simp (flat_map-append f xs ys, append_assoc)

  pub map_congr : (f g : A → B) (xs : List A) → All (λ x. f x ≡ g x) xs → map f xs ≡ map g xs
  map_congr f g [] h = refl
  map_congr f g (x ∷ xs) h = cc (h.0, map_congr f g xs h.1)

  pub map_ext : (f g : A → B) → ((x : A) → f x ≡ g x) → (xs : List A) → map f xs ≡ map g xs
  map_ext f g h [] = refl
  map_ext f g h (x ∷ xs) = cc (h x, map_ext f g h xs)

  pub map_index_ext :
      (f g : ℕ → A → B)
      → ((i : ℕ) (x : A) → f i x ≡ g i x)
      → (i : ℕ) (xs : List A) → map_index f i xs ≡ map_index g i xs
  map_index_ext f g h i [] = refl
  map_index_ext f g h i (x ∷ xs) = cc (h i x, map_index_ext f g h (suc i) xs)

  -- Filtering by a test of the image.
  pub map-filter :
      (f : A → B) (p : A → Bool) (q : B → Bool)
      → ((x : A) → p x ≡ q (f x))
      → (xs : List A) → map f (filter p xs) ≡ filter q (map f xs)
  map-filter f p q h [] = refl
  map-filter f p q h (x ∷ xs) = ground (arith, h x, map-filter f p q h xs)

  pub length-map_index :
      (f : ℕ → A → B) (i : ℕ) (xs : List A) → length (map_index f i xs) ≡ length xs
  length-map_index f i [] = refl
  length-map_index f i (x ∷ xs) = ap suc (length-map_index f (suc i) xs)

module _ {ℓ κ μ ν} {A : Type ℓ} {B : Type κ} (Q : A → Type μ) (P : B → Type ν) where
  pub All-map :
      (f : A → B) → ((x : A) → Q x → P (f x)) → (xs : List A) → All Q xs → All P (map f xs)
  All-map f h [] q = tt
  All-map f h (x ∷ xs) q = (h x q.0, All-map f h xs q.1)

module _ {ℓ κ ν} {A : Type ℓ} {B : Type κ} (P : B → Type ν) where
  pub All-map-All : (f : A → B) → ((x : A) → P (f x)) → (xs : List A) → All P (map f xs)
  All-map-All f h [] = tt
  All-map-All f h (x ∷ xs) = (h x, All-map-All f h xs)

  pub All-map_index :
      (f : ℕ → A → B)
      → ((i : ℕ) (x : A) → P (f i x))
      → (i : ℕ) (xs : List A) → All P (map_index f i xs)
  All-map_index f h i [] = tt
  All-map_index f h i (x ∷ xs) = (h i x, All-map_index f h (suc i) xs)

module _ {ℓ κ μ} {A : Type ℓ} {B : Type κ} {C : Type μ} where
  pub map-flat_map :
      (f : B → C) (g : A → List B) (xs : List A)
      → map f (flat_map g xs) ≡ flat_map (λ x. map f (g x)) xs
  map-flat_map f g [] = refl
  map-flat_map f g (x ∷ xs) = rw map-append (ap (◌++◌ (map f (g x))) (map-flat_map f g xs))

  pub flat_map-map :
      (f : A → B) (g : B → List C) (xs : List A)
      → flat_map g (map f xs) ≡ flat_map (λ x. g (f x)) xs
  flat_map-map f g [] = refl
  flat_map-map f g (x ∷ xs) = ap (◌++◌ (g (f x))) (flat_map-map f g xs)

pub map_self {ℓ} : {A : Type ℓ} → (xs : List A) → map (λ x. x) xs ≡ xs
map_self [] = refl
map_self (x ∷ xs) = ap (◌∷◌ x) (map_self xs)

module _ {ℓ κ μ} {A : Type ℓ} {B : Type κ} {C : Type μ} where
  pub map-map : (f : A → B) (g : B → C) (xs : List A) → map g (map f xs) ≡ map (λ x. g (f x)) xs
  map-map f g [] = refl
  map-map f g (x ∷ xs) = rw (map-map f g xs)

  pub map-map_index :
      (f : ℕ → A → B) (g : B → C) (i : ℕ) (xs : List A)
      → map g (map_index f i xs) ≡ map_index (λ i x. g (f i x)) i xs
  map-map_index f g i [] = refl
  map-map_index f g i (x ∷ xs) = rw (map-map_index f g (suc i) xs)

module _ {ℓ κ μ ν} {A : Type ℓ} {B : Type κ} {C : Type μ} {D : Type ν} where
  pub map-flat_map-map :
      (f : B → C) (g : A → List B) (r : A → D) (k : D → List C) (xs : List A)
      → All (λ x. map f (g x) ≡ k (r x)) xs
      → map f (flat_map g xs) ≡ flat_map k (map r xs)
  map-flat_map-map f g r k [] h = refl
  map-flat_map-map f g r k (x ∷ xs) h =
      rw map-append (ap₂ (◌++◌) h.0 (map-flat_map-map f g r k xs h.1))

  pub map-flat_map-map_all :
      (f : B → C) (g : A → List B) (r : A → D) (k : D → List C)
      → ((x : A) → map f (g x) ≡ k (r x))
      → (xs : List A) → map f (flat_map g xs) ≡ flat_map k (map r xs)
  map-flat_map-map_all f g r k h [] = refl
  map-flat_map-map_all f g r k h (x ∷ xs) =
      rw map-append (ap₂ (◌++◌) (h x) (map-flat_map-map_all f g r k h xs))

pub All-flat_map {ℓ κ μ ν} :
    {A : Type ℓ} {B : Type κ} (Q : A → Type μ) (P : B → Type ν) (f : A → List B)
    → ((x : A) → Q x → All P (f x))
    → (xs : List A) → All Q xs
    → All P (flat_map f xs)
All-flat_map Q P f h [] q = tt
All-flat_map Q P f h (x ∷ xs) q =
    All-append P (f x) (flat_map f xs) (h x q.0) (All-flat_map Q P f h xs q.1)

pub All-both :
    {A : Type 0} (P Q R : A → Type 0) (xs : List A)
    → All P xs
    → All Q xs
    → All R xs
    → All (λ x. P x × Q x × R x) xs
All-both P Q R [] p q r = tt
All-both P Q R (x ∷ xs) p q r = ((p.0, q.0, r.0), All-both P Q R xs p.1 q.1 r.1)
