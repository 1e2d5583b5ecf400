-- ===== src/Prelude/Texts.antt =====
-- JavaScript's texts: `toLowerCase`, `includes`, `split`, decimal printing, `parseInt`, `BigInt`.
use Prim.Native.Nat.{ℕ, zero, suc, ◌+◌, ◌-◌, ◌*◌, ◌/◌, ◌%◌, ◌<◌}
use Prim.Native.Char.{Char, code}
use Prim.Native.String
use Prim.Native.String.{String, [], ◌∷◌, char_at}
use mathlib.Core.Path.{◌≡◌, refl, ap, ◌∙◌}
use mathlib.Core.Logic.{inl, inr}
use mathlib.Core.Bool.{Bool, true, ◌&&◌}
use native.Mathlib.Omega.{arith}
use text.Mathlib.Text.{find?}
use subql_stellar.Prelude.Tests.{leb, ◌==◌, if◌then◌else◌, Bool-cases, is_some, ==_iff, and-eq-true}

-- `s.toLowerCase()`, on the letters A to Z.
abbrev lower_char : Char → Char
lower_char c =
    if leb b'A' (code c) && leb (code c) b'Z'
    then char_at "abcdefghijklmnopqrstuvwxyz" (code c - b'A')
    else c

unfoldable pub to_lower_case : String → String
to_lower_case [] = []
to_lower_case (c ∷ s) = lower_char c ∷ to_lower_case s

-- `s + t`, and the pieces of a template text.
infixr 65 ◌<+>◌
abbrev pub ◌<+>◌ : String → String → String
s <+> t = String.◌++◌ s t

-- `s.includes(t)`
abbrev pub includes : String → String → Bool
includes s t = is_some (find? s t)

abbrev pub is_digit : Char → Bool
is_digit c = leb b'0' (code c) && leb (code c) b'9'

abbrev digit : ℕ → Char
digit d = char_at "0123456789" d

-- The digits of `n` before `acc`; the fuel is a bound on `n`.
print_from : ℕ → ℕ → String → String
print_from zero n acc = acc
print_from (suc f) n acc =
    let acc' = digit (n % 10) ∷ acc in
    let more = print_from f (n / 10) acc' in if n / 10 == 0 then acc' else more

-- `n.toString()`
unfoldable pub to_decimal : ℕ → String
unfolding print_from
to_decimal n = print_from (suc n) n []

-- Reads the digits at the front; the value, and what is left.
unfoldable pub read_digits : ℕ → String → ℕ × String
read_digits acc [] = (acc, [])
read_digits acc (c ∷ s) =
    if is_digit c then read_digits (acc * 10 + (code c - b'0')) s else (acc, c ∷ s)

holds_to : (ℕ → Bool) → ℕ → Bool
holds_to test zero = true
holds_to test (suc bound) = holds_to test bound && test bound

holds_to_sound :
    (test : ℕ → Bool) (bound : ℕ) → holds_to test bound ≡ true → (d : ℕ) → d < bound → test d ≡ true
unfolding holds_to
holds_to_sound test zero all d below = absurd (omega arith)
holds_to_sound test (suc bound) all d below =
    ground (arith, holds_to_sound test bound (and-eq-true _ _ all).0 d)

abbrev is_good_digit : ℕ → Bool
is_good_digit d = is_digit (digit d) && (code (digit d) == b'0' + d)

digit_table : holds_to is_good_digit 10 ≡ true
unfolding holds_to
digit_table = refl

code-digit : (d : ℕ) → d < 10 → (is_digit (digit d) ≡ true) × (code (digit d) ≡ b'0' + d)
code-digit d h =
    let t = holds_to_sound is_good_digit 10 digit_table d h in
    let (a, b) = and-eq-true _ _ t in (a, (==_iff _ _).0 b)

read_digits-digit :
    (acc d : ℕ) (s : String) → d < 10 → read_digits acc (digit d ∷ s) ≡ read_digits (acc * 10 + d) s
unfolding read_digits
read_digits-digit acc d s h =
    let (a, b) = code-digit d h in let e : code (digit d) - 48 ≡ d = omega arith in rw (a, e)

read_digits-print_from :
    (f n : ℕ) (s : String) → n < f → read_digits 0 (print_from f n s) ≡ read_digits n s
unfolding print_from
read_digits-print_from zero n s h = absurd (omega arith)
read_digits-print_from (suc f) n s h = elim (Bool-cases (n / 10 == 0)) [
  | inl small ↦ rw small (
      read_digits-digit 0 (n % 10) s (omega arith)
      ∙ ap (λ m. read_digits m s) (let z = (==_iff _ _).0 small in omega arith))
  | inr large ↦ rw large (
      read_digits-print_from f (n / 10) (digit (n % 10) ∷ s) (ground arith)
      ∙ read_digits-digit (n / 10) (n % 10) s (omega arith)
      ∙ ap (λ m. read_digits m s) (omega arith))
]

-- What is printed is read back.
pub read_digits-to_decimal : (n : ℕ) → read_digits 0 (to_decimal n) ≡ (n, "")
unfolding to_decimal read_digits
read_digits-to_decimal n = read_digits-print_from (suc n) n [] (omega arith)

print_from-cons :
    (f n : ℕ) (s : String)
    → n < f
    → (c : Char) × (t : String) × (print_from f n s ≡ c ∷ t) × (is_digit c ≡ true)
unfolding print_from
print_from-cons zero n s h = absurd (omega arith)
print_from-cons (suc f) n s h = elim (Bool-cases (n / 10 == 0)) [
  | inl small ↦ (digit (n % 10), s, rw small, (code-digit (n % 10) (omega arith)).0)
  | inr large ↦
      let (c, t, e, d) = print_from-cons f (n / 10) (digit (n % 10) ∷ s) (ground arith) in
      (c, t, rw large e, d)
]

-- A printed number begins with a digit.
pub to_decimal-cons :
    (n : ℕ) → (c : Char) × (t : String) × (to_decimal n ≡ c ∷ t) × (is_digit c ≡ true)
unfolding to_decimal
to_decimal-cons n = print_from-cons (suc n) n [] (omega arith)
