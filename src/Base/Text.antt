-- ===== src/Base/Text.antt =====
-- Text as the list of its code points, and the methods of Python's `str` that the program uses.
use Prim.Native.Nat.{ℕ, zero, suc, ◌+◌, ◌-◌, ◌*◌, ◌/◌, ◌%◌, ◌≤◌, ◌<◌}
use Prim.Native.Char.{code}
use Prim.Native.String.{String}
use mathlib.Core.Path.{◌≡◌, refl, sym, ap, ◌∙◌}
use mathlib.Core.Logic.{inl, inr}
use mathlib.Core.Bool.{Bool, true, false, ◌&&◌, ◌||◌}
use mathlib.Core.List.{List, [], ◌∷◌, ◌++◌}
use native.Mathlib.Omega.{arith}
use hivewiki_web.Base.Tests.{leb, ltb, lt→ltb, ◌==◌, if◌then◌else◌, Bool-cases}
use hivewiki_web.Base.Lists.{length, All}

abbrev pub Text : Type 0
Text = List ℕ

-- A literal.
abbrev pub codes : String → Text
codes String.[] = []
codes (String.◌∷◌ c s) = code c ∷ codes s

unfoldable pub text_eq : Text → Text → Bool
text_eq [] [] = true
text_eq [] (d ∷ t) = false
text_eq (c ∷ s) [] = false
text_eq (c ∷ s) (d ∷ t) = c == d && text_eq s t

pub text_eq_refl : (s : Text) → text_eq s s ≡ true
unfolding text_eq
text_eq_refl [] = refl
text_eq_refl (c ∷ s) = ground (arith, text_eq_refl s)

pub eq_of_text_eq : (s t : Text) → text_eq s t ≡ true → s ≡ t
unfolding text_eq
eq_of_text_eq [] [] h = refl
eq_of_text_eq [] (d ∷ t) h = cc
eq_of_text_eq (c ∷ s) [] h = cc
eq_of_text_eq (c ∷ s) (d ∷ t) h = ground (arith, eq_of_text_eq s t)

-- `if not text`
abbrev pub is_empty {ℓ} : {A : Type ℓ} → List A → Bool
is_empty [] = true
is_empty (c ∷ s) = false

-- `str.isspace` of one character.
unfoldable pub is_space : ℕ → Bool
is_space c =
    leb 9 c && leb c 13
    || leb 28 c && leb c 32
    || c == 0x85
    || c == 0xa0
    || c == 0x1680
    || leb 0x2000 c && leb c 0x200a
    || c == 0x2028
    || c == 0x2029
    || c == 0x202f
    || c == 0x205f
    || c == 0x3000

unfoldable pub lstrip : Text → Text
unfolding is_space
lstrip [] = []
lstrip (c ∷ s) = if is_space c then lstrip s else c ∷ s

-- A character stands unless it is a space with nothing but spaces behind it.
abbrev pub rstrip_onto : ℕ → Text → Text
rstrip_onto c [] = if is_space c then [] else c ∷ []
rstrip_onto c (d ∷ s) = c ∷ d ∷ s

unfoldable pub rstrip : Text → Text
unfolding is_space
rstrip [] = []
rstrip (c ∷ s) = rstrip_onto c (rstrip s)

unfoldable pub strip : Text → Text
unfolding lstrip rstrip
strip s = rstrip (lstrip s)

pub length-rstrip-le : (s : Text) → length (rstrip s) ≤ length s
unfolding rstrip
length-rstrip-le [] = omega arith
length-rstrip-le (c ∷ s) = ground (arith, length-rstrip-le s)

-- `str(n)`: the digits of `n`, the last one first in the recursion. `n + 1` rounds are enough.
decimal_onto : ℕ → ℕ → Text → Text
decimal_onto zero n s = s
decimal_onto (suc fuel) n s =
    let rest = decimal_onto fuel (n / 10) ((b'0' + n % 10) ∷ s) in
    if ltb n 10 then (b'0' + n % 10) ∷ s else rest

unfoldable pub decimal : ℕ → Text
unfolding decimal_onto
decimal n = decimal_onto (n + 1) n []

decimal-120 : decimal 120 ≡ codes "120"
unfolding decimal
decimal-120 = refl

strip-spaces : strip (codes "  a b\n") ≡ codes "a b"
unfolding strip
strip-spaces = refl

-- The characters at which `str.splitlines` ends a line.
unfoldable pub is_line_end : ℕ → Bool
is_line_end c =
    leb 10 c && leb c 13 || leb 28 c && leb c 30 || c == 0x85 || c == 0x2028 || c == 0x2029

-- A character in front of the lines of what follows it.
abbrev pub onto_line : ℕ → List Text → List Text
onto_line c [] = (c ∷ []) ∷ []
onto_line c (l ∷ ls) = (c ∷ l) ∷ ls

-- `str.splitlines`; a carriage return and a line feed end one line together.
unfoldable pub splitlines : Text → List Text
unfolding is_line_end
splitlines [] = []
splitlines (c ∷ []) = if is_line_end c then [] ∷ [] else (c ∷ []) ∷ []
splitlines (c ∷ d ∷ s) =
    let rest = splitlines (d ∷ s) in
    if c == 13 && d == 10 then rest else if is_line_end c then [] ∷ rest else onto_line c rest

-- `"\n".join(lines)`
unfoldable pub join_lines : List Text → Text
join_lines [] = []
join_lines (l ∷ []) = l
join_lines (l ∷ m ∷ ls) = l ++ 10 ∷ join_lines (m ∷ ls)

splitlines-mixed : splitlines (codes "a\n\nb") ≡ codes "a" ∷ [] ∷ codes "b" ∷ []
unfolding splitlines
splitlines-mixed = refl

-- The order of texts by their code points.
unfoldable pub text_leb : Text → Text → Bool
text_leb [] t = true
text_leb (c ∷ s) [] = false
text_leb (c ∷ s) (d ∷ t) = if c == d then text_leb s t else ltb c d

pub text_eq_join : (s t u : Text) → text_eq s u ≡ true → text_eq t u ≡ true → text_eq s t ≡ true
text_eq_join s t u p q = rw (eq_of_text_eq s u p, eq_of_text_eq t u q) (text_eq_refl u)

-- The number that digits stand for, behind those read already.
abbrev value_onto : ℕ → Text → ℕ
value_onto n [] = n
value_onto n (c ∷ s) = value_onto (n * 10 + (c - 48)) s

value-decimal_onto :
    (fuel n : ℕ) (s : Text) → n < fuel → value_onto 0 (decimal_onto fuel n s) ≡ value_onto n s
unfolding decimal_onto
value-decimal_onto zero n s h = absurd (omega arith)
value-decimal_onto (suc fuel) n s h = elim (Bool-cases (ltb n 10)) [
  | inl e ↦ rw e (ap (λ (m : ℕ). value_onto m s) (last_digit n e))
  | inr e ↦ rw e (
      value-decimal_onto fuel (n / 10) ((b'0' + n % 10) ∷ s) (ground arith)
      ∙ ap (λ (m : ℕ). value_onto m s) (all_digits n))
]
  where
    last_digit : (n : ℕ) → ltb n 10 ≡ true → 0 * 10 + (b'0' + n % 10 - 48) ≡ n
    last_digit n e = ground arith

    all_digits : (n : ℕ) → n / 10 * 10 + (b'0' + n % 10 - 48) ≡ n
    all_digits n = omega arith

-- Different numbers have different digits.
pub eq_of_decimal : (n m : ℕ) → decimal n ≡ decimal m → n ≡ m
unfolding decimal
eq_of_decimal n m h =
    sym (value-decimal_onto (n + 1) n [] (omega arith))
    ∙ ap (value_onto 0) h
    ∙ value-decimal_onto (m + 1) m [] (omega arith)

abbrev pub IsDigit : ℕ → Type 0
IsDigit c = (b'0' ≤ c) × (c ≤ b'9')

IsDigit-decimal_onto : (fuel n : ℕ) (s : Text) → All IsDigit s → All IsDigit (decimal_onto fuel n s)
unfolding decimal_onto
IsDigit-decimal_onto zero n s h = h
IsDigit-decimal_onto (suc fuel) n s h =
    let last : IsDigit (b'0' + n % 10) = omega arith in
    let rest = IsDigit-decimal_onto fuel (n / 10) ((b'0' + n % 10) ∷ s) (last, h) in
    elim (Bool-cases (ltb n 10)) [ inl e ↦ rw e (last, h) | inr e ↦ rw e rest ]

pub IsDigit-decimal : (n : ℕ) → All IsDigit (decimal n)
unfolding decimal
IsDigit-decimal n = IsDigit-decimal_onto (n + 1) n [] tt

pub text_eq_sym : (s t : Text) → text_eq s t ≡ true → text_eq t s ≡ true
text_eq_sym s t h = rw (eq_of_text_eq s t h) (text_eq_refl t)

one_digit : (fuel n : ℕ) (s : Text) → n < 10 → length (decimal_onto fuel n s) ≤ suc (length s)
unfolding decimal_onto
one_digit zero n s h = omega arith
one_digit (suc fuel) n s h = rw (decimal_onto, lt→ltb n 10 h) (omega arith)

two_digits :
    (fuel n : ℕ) (s : Text) → n < 100 → length (decimal_onto fuel n s) ≤ suc (suc (length s))
unfolding decimal_onto
two_digits zero n s h = omega arith
two_digits (suc fuel) n s h = elim (Bool-cases (ltb n 10)) [
  | inl e ↦ rw (decimal_onto, e) (omega arith)
  | inr e ↦ rw (decimal_onto, e) (one_digit fuel (n / 10) ((b'0' + n % 10) ∷ s) (omega arith))
]

-- A number below a hundred has two digits at most.
pub length-decimal-le : (n : ℕ) → n < 100 → length (decimal n) ≤ 2
unfolding decimal
length-decimal-le n h = two_digits (n + 1) n [] h
