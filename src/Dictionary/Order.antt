-- ===== src/Dictionary/Order.antt =====
-- The order of texts that `sortBy` sorts the conditions of an entry by.
use Prim.Native.String.{compare, [] as empty_text, ◌∷◌ as cons_text}
use Prim.Native.String.compare
use Prim.Native.Char.{code}
use text.Mathlib.Text.{is_le}
use text.Mathlib.TextEquality.{Char-path}
use subql_stellar.Prelude.{
  String, Bool, true, false, not, ◌&&◌, ◌||◌, ◌==◌, leb, ◌≡◌, refl, ap, ap₂, ◌∙◌, arith,
}

-- The same order by recursion on the texts.
abbrev pub text_le : String → String → Bool
text_le empty_text t = true
text_le (cons_text c s) empty_text = false
text_le (cons_text c s) (cons_text d t) =
    not (leb (code d) (code c)) || ((code c == code d) && text_le s t)

pub is_le-text_le : (s t : String) → is_le (compare s t) ≡ text_le s t
is_le-text_le empty_text empty_text = ap is_le compare.nil-nil
is_le-text_le empty_text (cons_text d t) = ap is_le (compare.nil-cons d t)
is_le-text_le (cons_text c s) empty_text = ap is_le (compare.cons-nil c s)
is_le-text_le (cons_text c s) (cons_text d t) =
    ap is_le (compare.cons-cons c d s t) ∙ ground (arith, is_le-text_le s t)

pub text_le_trans : (s t u : String) → text_le s t ≡ true → text_le t u ≡ true → text_le s u ≡ true
text_le_trans empty_text t u h k = refl
text_le_trans (cons_text c s) empty_text u h k = cc h
text_le_trans (cons_text c s) (cons_text d t) empty_text h k = cc k
text_le_trans (cons_text c s) (cons_text d t) (cons_text e u) h k =
    ground (arith, text_le_trans s t u)

pub text_le_total : (s t : String) → text_le s t ≡ false → text_le t s ≡ true
text_le_total empty_text t h = cc h
text_le_total (cons_text c s) empty_text h = refl
text_le_total (cons_text c s) (cons_text d t) h = ground (arith, text_le_total s t)

pub text_le_antisymm : (s t : String) → text_le s t ≡ true → text_le t s ≡ true → s ≡ t
text_le_antisymm empty_text empty_text h k = refl
text_le_antisymm empty_text (cons_text d t) h k = cc k
text_le_antisymm (cons_text c s) empty_text h k = cc h
text_le_antisymm (cons_text c s) (cons_text d t) h k =
    let codes : code c ≡ code d = ground arith in
    let first : text_le s t ≡ true = ground (arith, codes) in
    let second : text_le t s ≡ true = ground (arith, codes) in
    ap₂ cons_text (Char-path c d codes) (text_le_antisymm s t first second)
