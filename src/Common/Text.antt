-- ===== src/Common/Text.antt =====
-- Text as bytes, and what C++ streams do with decimal numbers.
use Prim.Native.Char.{code}
use Prim.Native.Nat.{ℕ, zero, suc, ◌+◌, ◌-◌, ◌*◌, ◌/◌, ◌%◌, ◌<◌}
use Prim.Native.String.{String}
use mathlib.Core.Path.{◌≡◌, refl, ap, ◌∙◌}
use mathlib.Core.Logic.{◌≢◌, inl, inr}
use mathlib.Core.Bool.{Bool, true, false, ◌&&◌}
use mathlib.Core.List.{List, [], ◌∷◌}
use mathlib.Core.Option.{Option, none, some}
use native.Mathlib.Omega.{arith}
use map.Common.Lists.{length}
use map.Common.Tests.{if◌then◌else◌, leb, ◌==◌, Bool-cases}

abbrev pub Text : Type 0
Text = List ℕ

-- The bytes of a literal.
abbrev pub codes : String → Text
codes String.[] = []
codes (String.◌∷◌ c s) = code c ∷ codes s

-- `==` of two texts; `strcmp` of two without a 0 in them.
unfoldable pub text_eq : Text → Text → Bool
text_eq [] [] = true
text_eq (a ∷ s) (b ∷ t) = a == b && text_eq s t
text_eq _ _ = false

-- The C string at the start of a buffer.
unfoldable pub c_string : Text → Text
c_string [] = []
c_string (c ∷ s) = let rest = c_string s in if c == 0 then [] else c ∷ rest

-- The digits of a number, in front of `out`; each round takes one off.
unfoldable pub digits_onto : ℕ → ℕ → Text → Text
digits_onto zero n out = out
digits_onto (suc fuel) n out =
    let more = digits_onto fuel (n / 10) ((n % 10 + 48) ∷ out) in
    if n / 10 == 0 then (n % 10 + 48) ∷ out else more

-- `<<` of a number. It has less digits than `n + 1`.
unfoldable pub decimal : ℕ → Text
unfolding digits_onto
decimal n = digits_onto (suc n) n []

abbrev pub is_digit : ℕ → Bool
is_digit c = leb 48 c && leb c 57

-- `>>` behind the first digits, to the first character that is none.
unfoldable pub read_digits : ℕ → Text → ℕ
read_digits n [] = n
read_digits n (c ∷ s) =
    let more = read_digits (n * 10 + (c - 48)) s in if is_digit c then more else n

-- `>>` of a number that begins with a digit; `none` for another start.
unfoldable pub read_number : Text → Option ℕ
unfolding read_digits
read_number [] = none
read_number (c ∷ s) = if is_digit c then some (read_digits 0 (c ∷ s)) else none

-- What was printed is read back.
read_digits-onto :
    (fuel n : ℕ) (out : Text)
    → n < fuel
    → read_digits 0 (digits_onto fuel n out) ≡ read_digits n out
unfolding read_digits digits_onto
read_digits-onto zero n out h = absurd (omega arith)
read_digits-onto (suc fuel) n out h = elim (Bool-cases (n / 10 == 0)) [
  | inl e ↦ rw e (ground arith)
  | inr e ↦
      rw e (read_digits-onto fuel (n / 10) ((n % 10 + 48) ∷ out) (ground arith) ∙ ground arith)
]

-- It begins with a digit.
abbrev pub IsNumeral : Text → Type 0
IsNumeral [] = ⊥
IsNumeral (c ∷ s) = is_digit c ≡ true

digits_onto-IsNumeral : (fuel n : ℕ) (out : Text) → n < fuel → IsNumeral (digits_onto fuel n out)
unfolding digits_onto
digits_onto-IsNumeral zero n out h = absurd (omega arith)
digits_onto-IsNumeral (suc fuel) n out h = elim (Bool-cases (n / 10 == 0)) [
  | inl e ↦ rw e (ground arith)
  | inr e ↦ rw e (digits_onto-IsNumeral fuel (n / 10) ((n % 10 + 48) ∷ out) (ground arith))
]

read_number_numeral : (s : Text) → IsNumeral s → read_number s ≡ some (read_digits 0 s)
unfolding read_number
read_number_numeral [] h = absurd h
read_number_numeral (c ∷ s) h = rw h refl

pub read_number-decimal : (n : ℕ) → read_number (decimal n) ≡ some n
unfolding decimal
read_number-decimal n =
    read_number_numeral (decimal n) (digits_onto-IsNumeral (suc n) n [] (omega arith))
    ∙ ap some (unfold read_digits in read_digits-onto (suc n) n [] (omega arith))

pub text_eq_refl : (s : Text) → text_eq s s ≡ true
unfolding text_eq
text_eq_refl [] = refl
text_eq_refl (c ∷ s) = ground (arith, text_eq_refl s)

pub text_eq-eq : (s t : Text) → text_eq s t ≡ true → s ≡ t
unfolding text_eq
text_eq-eq [] [] h = refl
text_eq-eq [] (d ∷ t) h = absurd (cc h)
text_eq-eq (c ∷ s) [] h = absurd (cc h)
text_eq-eq (c ∷ s) (d ∷ t) h = ground (arith, text_eq-eq s t)

-- Texts of different lengths differ.
pub text_eq-length : (s t : Text) → length s ≢ length t → text_eq s t ≡ false
text_eq-length s t h = elim (Bool-cases (text_eq s t)) [
  | inl e ↦ absurd (h (ap length (text_eq-eq s t e)))
  | inr e ↦ e
]
