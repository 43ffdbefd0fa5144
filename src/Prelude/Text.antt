-- ===== src/Prelude/Text.antt =====
-- What the program uses of Rust's `str`: equality, order, `contains`, `split`, `take`.
use Prim.Native.Nat.{ℕ, zero, suc, ◌≤◌, compare, Ordering}
use Prim.Native.Char.{code}
use Prim.Native.String.{String}
use mathlib.Core.Path.{◌≡◌, refl}
use mathlib.Core.Logic.{◌⊎◌}
use mathlib.Core.Bool.{Bool, true, false}
use mathlib.Core.Option.{Option, none, some}
use mathlib.Core.List.{List, [], ◌∷◌}
use native.Mathlib.Omega.{arith}
use text.Mathlib.Text.{◌==◌ as str_same, find?}
use hot_potato.Prelude.Tests.{◌==◌, if◌then◌else◌}

-- `==` on `str`.
abbrev pub str_eq : String → String → Bool
str_eq s t = str_same s t

-- `s.contains(t)`.
unfoldable pub str_contains : String → String → Bool
str_contains s t = elim (find? s t) [ none ↦ false | some _ ↦ true ]

-- The code points of a text. Their order is that of the UTF-8 bytes, by which Rust orders `str`.
abbrev pub codes : String → List ℕ
codes String.[] = []
codes (String.◌∷◌ c s) = code c ∷ codes s

-- Lexicographic order, as a test for `≤`.
unfoldable pub lex_le : List ℕ → List ℕ → Bool
lex_le [] ys = true
lex_le (x ∷ xs) [] = false
lex_le (x ∷ xs) (y ∷ ys) =
    let rest = lex_le xs ys in
    elim (compare x y) [ Ordering.lt ↦ true | Ordering.eq ↦ rest | Ordering.gt ↦ false ]

pub lex_le_total : (xs ys : List ℕ) → (lex_le xs ys ≡ true) ⊎ (lex_le ys xs ≡ true)
unfolding lex_le
lex_le_total [] ys = ground arith
lex_le_total (x ∷ xs) [] = ground arith
lex_le_total (x ∷ xs) (y ∷ ys) = ground (arith, lex_le_total xs ys)

pub lex_le_trans :
    (xs ys zs : List ℕ) → lex_le xs ys ≡ true → lex_le ys zs ≡ true → lex_le xs zs ≡ true
unfolding lex_le
lex_le_trans [] ys zs p q = refl
lex_le_trans (x ∷ xs) [] zs p q = ground arith
lex_le_trans (x ∷ xs) (y ∷ ys) [] p q = ground arith
lex_le_trans (x ∷ xs) (y ∷ ys) (z ∷ zs) p q = ground (arith, lex_le_trans xs ys zs)

abbrev pub str_le : String → String → Bool
str_le s t = lex_le (codes s) (codes t)

-- `s.chars().take(n).collect::<String>()`.
unfoldable pub take_chars : ℕ → String → String
take_chars zero s = String.[]
take_chars (suc n) String.[] = String.[]
take_chars (suc n) (String.◌∷◌ c s) = String.◌∷◌ c (take_chars n s)

-- The number of characters.
abbrev pub char_count : String → ℕ
char_count String.[] = 0
char_count (String.◌∷◌ c s) = suc (char_count s)

pub char_count-take_chars : (n : ℕ) (s : String) → char_count (take_chars n s) ≤ n
unfolding take_chars
char_count-take_chars zero s = omega arith
char_count-take_chars (suc n) String.[] = omega arith
char_count-take_chars (suc n) (String.◌∷◌ c s) = omega (arith, char_count-take_chars n s)

-- What stands behind the first text, if the second begins with it.
unfoldable pub strip_prefix : String → String → Option String
strip_prefix String.[] s = some s
strip_prefix (String.◌∷◌ c pat) String.[] = none
strip_prefix (String.◌∷◌ c pat) (String.◌∷◌ d s) =
    let rest = strip_prefix pat s in if code c == code d then rest else none

-- The text before, and the text behind, the first place where the pattern, which is not empty,
-- stands.
unfoldable pub before_first : String → String → String
before_first pat String.[] = String.[]
before_first pat (String.◌∷◌ d s) = elim (strip_prefix pat (String.◌∷◌ d s)) [
  | some rest ↦ String.[]
  | none ↦ String.◌∷◌ d (before_first pat s)
]

unfoldable pub after_first : String → String → Option String
after_first pat String.[] = none
after_first pat (String.◌∷◌ d s) = elim (strip_prefix pat (String.◌∷◌ d s)) [
  | some rest ↦ some rest
  | none ↦ after_first pat s
]
