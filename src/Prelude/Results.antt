-- ===== src/Prelude/Results.antt =====
-- A promise that settles or a call that throws: `Result`, with its bind, and `JsError`.
use Prim.Native.String.{String}
use mathlib.Core.Path.{◌≡◌, refl}
use mathlib.Core.Logic.{◌⊎◌, inl, inr}
use mathlib.Core.List.{List, [], ◌∷◌}

-- An `Error` object: its class and its message.
pub record JsError : Type 0 where
  pub name : String
  pub message : String

-- `new Error(message)`
abbrev pub new_error : String → JsError
new_error m = record { name = "Error"; message = m }

pub data Result {ℓ} (A : Type ℓ) : Type ℓ where
  ok : A → Result A
  throw : JsError → Result A

-- What follows is left out where an error is thrown.
module _ {ℓ κ} {A : Type ℓ} {B : Type κ} where
  infixl 5 ◌>>=◌ ◌>>◌
  abbrev pub ◌>>=◌ : Result A → (A → Result B) → Result B
  throw error >>= next = throw error
  ok value >>= next = next value

  abbrev pub ◌>>◌ : Result A → Result B → Result B
  first >> second = first >>= λ value. second

pub ok-injective {ℓ} : {A : Type ℓ} {a b : A} → ok a ≡ ok b → a ≡ b
ok-injective h = cc

-- A chain that succeeds has a first step that does.
module _ {ℓ κ} {A : Type ℓ} {B : Type κ} {last : B} where
  pub >>=-eq-ok :
      (first : Result A) (next : A → Result B)
      → (first >>= next) ≡ ok last
      → (between : A) × (first ≡ ok between) × (next between ≡ ok last)
  >>=-eq-ok (throw e) next succeeds = cc succeeds
  >>=-eq-ok (ok between) next succeeds = (between, refl, succeeds)

pub Result-cases {ℓ} :
    {A : Type ℓ} (m : Result A) → ((a : A) × (m ≡ ok a)) ⊎ ((e : JsError) × (m ≡ throw e))
Result-cases (ok a) = inl (a, refl)
Result-cases (throw e) = inr (e, refl)

-- `for (const x of xs) out.push(f(x))`, where `f` may throw.
abbrev pub map_result {ℓ κ} : {A : Type ℓ} {B : Type κ} → (A → Result B) → List A → Result (List B)
map_result f [] = ok []
map_result f (x ∷ xs) = do b ← f x; bs ← map_result f xs; ok (b ∷ bs)
