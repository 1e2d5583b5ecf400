-- ===== src/Prelude/Numbers.antt =====
-- Texts read as numbers: `parseInt(s, 10)`, `BigInt(s)`, and `s.split('-')[0]`.
use Prim.Native.Nat.{ℕ, zero, suc, ◌+◌, ◌*◌, ◌-◌}
use Prim.Native.Char.{Char, code}
use Prim.Native.String.{String, [], ◌∷◌}
use mathlib.Core.Path.{◌≡◌, refl, sym, ap, ◌∙◌}
use mathlib.Core.Logic.{◌≢◌}
use mathlib.Core.Bool.{Bool, true, ◌&&◌, ◌||◌}
use native.Mathlib.Omega.{arith}
use subql_stellar.Prelude.Tests.{leb, ◌==◌, if◌then◌else◌}
use mathlib.Core.Option.{Option, none, some}
use subql_stellar.Prelude.Results.{Result, ok, throw}
use subql_stellar.Prelude.Texts.{
  is_digit, to_decimal, to_decimal-cons, read_digits, read_digits-to_decimal, ◌<+>◌,
}

-- The integers that a `number` holds here, and NaN; `neg n` is -(n + 1).
pub data JsNumber : Type 0 where
  nan : JsNumber
  pos : ℕ → JsNumber
  neg : ℕ → JsNumber

-- `n - 1` as a number.
abbrev pub minus_one : ℕ → JsNumber
minus_one zero = neg 0
minus_one (suc n) = pos n

-- `x.toString()` of a number.
unfoldable pub number_text : JsNumber → String
number_text nan = "NaN"
number_text (pos n) = to_decimal n
number_text (neg n) = "-" <+> to_decimal (suc n)

-- What JavaScript takes for white space or the end of a line.
abbrev is_space : Char → Bool
is_space c =
    let n = code c in
    n == 32
    || leb 9 n && leb n 13
    || n == 160
    || n == 5760
    || leb 8192 n && leb n 8202
    || n == 8232
    || n == 8233
    || n == 8239
    || n == 8287
    || n == 12288
    || n == 65279

abbrev trim_start : String → String
trim_start [] = []
trim_start (c ∷ s) = if is_space c then trim_start s else c ∷ s

abbrev negate : JsNumber → JsNumber
negate nan = nan
negate (pos zero) = pos zero
negate (pos (suc n)) = neg n
negate (neg n) = pos (suc n)

unsigned : String → JsNumber
unsigned [] = nan
unsigned (c ∷ s) = if is_digit c then pos (read_digits 0 (c ∷ s)).0 else nan

signed : String → JsNumber
signed [] = nan
signed (c ∷ s) =
    if code c == b'-'
    then negate (unsigned s)
    else if code c == b'+'
    then unsigned s
    else unsigned (c ∷ s)

-- `parseInt(s, 10)`
unfoldable pub parse_int : String → JsNumber
unfolding signed unsigned
parse_int s = signed (trim_start s)

abbrev trim_end : String → String
trim_end [] = []
trim_end (c ∷ s) = elim (trim_end s) [ [] ↦ if is_space c then [] else c ∷ [] | d ∷ r ↦ c ∷ d ∷ r ]

-- The value of a digit or a letter as a digit; 36 for any other.
abbrev digit_value : Char → ℕ
digit_value c =
    let n = code c in
    if leb 48 n && leb n 57
    then n - 48
    else if leb 97 n && leb n 122
    then n - 87
    else if leb 65 n && leb n 90
    then n - 55
    else 36

-- Digits of a radix, after those that make the number so far.
abbrev radix_digits : ℕ → ℕ → String → Option ℕ
radix_digits radix so_far [] = some so_far
radix_digits radix so_far (c ∷ s) =
    let rest = radix_digits radix (so_far * radix + digit_value c) s in
    if leb radix (digit_value c) then none else rest

-- One digit of the radix or more.
abbrev some_digits : ℕ → String → Option ℕ
some_digits radix [] = none
some_digits radix (c ∷ s) = radix_digits radix 0 (c ∷ s)

abbrev decimal_digits : String → Option ℕ
decimal_digits [] = none
decimal_digits (c ∷ s) =
    let (n, rest) = read_digits 0 (c ∷ s) in elim rest [ [] ↦ some n | d ∷ r ↦ none ]

-- What stands after a first `0`.
abbrev after_zero : String → Option ℕ
after_zero [] = some 0
after_zero (c ∷ s) =
    if code c == b'x' || code c == b'X'
    then some_digits 16 s
    else if code c == b'o' || code c == b'O'
    then some_digits 8 s
    else if code c == b'b' || code c == b'B'
    then some_digits 2 s
    else decimal_digits (c ∷ s)

abbrev big_digits : String → Option ℕ
big_digits [] = some 0
big_digits (c ∷ s) =
    if code c == b'0'
    then after_zero s
    else if code c == b'+'
    then decimal_digits s
    else decimal_digits (c ∷ s)

-- `BigInt(s)` of a text without a minus sign, which `before_dash` leaves none of: decimal digits, or digits after
-- `0x`, `0o` or `0b`, with white space around them; white space alone is 0, and any other text is a
-- SyntaxError.
unfoldable pub big_int : String → Result ℕ
big_int s = elim (big_digits (trim_start (trim_end s))) [
  | some n ↦ ok n
  | none ↦
      throw (record { name = "SyntaxError"; message = "Cannot convert " <+> s <+> " to a BigInt" })
]

-- `s.split('-')[0]`
unfoldable pub before_dash : String → String
before_dash [] = []
before_dash (c ∷ s) = if code c == b'-' then [] else c ∷ before_dash s

parse_int-digit :
    (c : Char) (s : String) → is_digit c ≡ true → parse_int (c ∷ s) ≡ pos (read_digits 0 (c ∷ s)).0
unfolding parse_int
parse_int-digit c s h = ground arith

-- A printed height is parsed back.
pub parse_int-to_decimal : (n : ℕ) → parse_int (to_decimal n) ≡ pos n
parse_int-to_decimal n =
    let (c, t, e, d) = to_decimal-cons n in
    let whole : read_digits 0 (c ∷ t) ≡ (n, "") = rw (← e) (read_digits-to_decimal n) in
    rw e (parse_int-digit c t d ∙ ap (λ (r : ℕ × String). pos r.0) whole)

-- So is the number of any height, the one before 0 too.
pub parse_int-number_text : (n : ℕ) → parse_int (number_text (minus_one n)) ≡ minus_one n
unfolding number_text parse_int to_decimal read_digits
parse_int-number_text zero = refl
parse_int-number_text (suc n) = parse_int-to_decimal n

pub to_decimal-injective : (m n : ℕ) → to_decimal m ≡ to_decimal n → m ≡ n
to_decimal-injective m n h =
    pos-injective (sym (parse_int-to_decimal m) ∙ ap parse_int h ∙ parse_int-to_decimal n)
  where
    pos-injective : pos m ≡ pos n → m ≡ n
    pos-injective e = cc

-- No number is printed like `undefined`.
pub undefined-ne-to_decimal : (n : ℕ) → "undefined" ≢ to_decimal n
unfolding parse_int
undefined-ne-to_decimal n h = absurd (cc (ap parse_int h ∙ parse_int-to_decimal n))
