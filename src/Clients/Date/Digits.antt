-- ===== src/Clients/Date/Digits.antt =====
-- Numbers of two and of four digits, printed and read.
use map.Common.Int.{pos}
use map.Common.Text.{Text, decimal, digits_onto, read_digits}
use map.Common.{
  ℕ, suc, ◌+◌, ◌-◌, ◌/◌, ◌%◌, ◌≤◌, ◌<◌, ◌≡◌, refl, ◌∙◌, zero, some, [], ◌∷◌, arith, Bool-cases, ltb,
  inl, inr,
}
use map.Clients.Date.{show_int, pad, read_int, read_unsigned}

-- The two characters.
abbrev pub two : ℕ → Text
two n = (n / 10 + 48) ∷ (n % 10 + 48) ∷ []

abbrev pub four : ℕ → Text
four n = (n / 1000 + 48) ∷ (n / 100 % 10 + 48) ∷ (n / 10 % 10 + 48) ∷ (n % 10 + 48) ∷ []

-- One digit, and one digit more.
onto_last :
    (fuel n : ℕ) (out : Text) → 0 < fuel → n < 10 → digits_onto fuel n out ≡ (n % 10 + 48) ∷ out
unfolding digits_onto
onto_last zero n out h k = absurd (omega arith)
onto_last (suc fuel) n out h k = ground arith

onto_more :
    (fuel n : ℕ) (out : Text)
    → 0 < fuel
    → 10 ≤ n
    → digits_onto fuel n out ≡ digits_onto (fuel - 1) (n / 10) ((n % 10 + 48) ∷ out)
unfolding digits_onto
onto_more zero n out h k = absurd (omega arith)
onto_more (suc fuel) n out h k =
    let less : suc fuel - 1 ≡ fuel = omega arith in rw less (ground arith)

decimal-two : (n : ℕ) → 10 ≤ n → n < 100 → decimal n ≡ two n
unfolding decimal
decimal-two n h k =
    onto_more (suc n) n [] (omega arith) h
    ∙ onto_last (suc n - 1) (n / 10) _ (omega arith) (omega arith)
    ∙ ground arith

pub pad-show_int : (n : ℕ) → n < 100 → pad (show_int (pos n)) ≡ two n
unfolding show_int decimal
pad-show_int n h = elim (Bool-cases (ltb n 10)) [
  | inl e ↦
      let short : n < 10 = ground arith in
      let one = onto_last (suc n) n [] (omega arith) short in rw one (ground arith)
  | inr e ↦ let long = decimal-two n (ground arith) h in rw long refl
]

pub show_int-four : (n : ℕ) → 1000 ≤ n → n < 10000 → show_int (pos n) ≡ four n
unfolding show_int decimal
show_int-four n h k =
    onto_more (suc n) n [] (omega arith) (omega arith)
    ∙ onto_more (suc n - 1) (n / 10) _ (omega arith) (omega arith)
    ∙ onto_more (suc n - 1 - 1) (n / 10 / 10) _ (omega arith) (omega arith)
    ∙ onto_last (suc n - 1 - 1 - 1) (n / 10 / 10 / 10) _ (omega arith) (omega arith)
    ∙ ground arith

pub read_int-two : (n : ℕ) → n < 100 → read_int (two n) ≡ some (pos n)
unfolding read_int read_unsigned read_digits
read_int-two n h = ground arith

pub read_int-four : (n : ℕ) → n < 10000 → read_int (four n) ≡ some (pos n)
unfolding read_int read_unsigned read_digits
read_int-four n h = ground arith
