-- ===== src/Common/Bits.antt =====
-- `|` on natural numbers, digit by digit, and as a sum where no digit meets another.
use Prim.Native.Nat.{max, digits, bit_or-bitwise}
use mathlib.Core.Logic.{◌↔◌}
use mathlib.Core.Path.{◌≡◌, refl, ap}
use native.Mathlib.Decide.{dec_lt}
use native.Mathlib.Nat.{pow-suc}
use native.Mathlib.Omega.{arith}
pub use Prim.Native.Nat.{bit_or}
use Prim.Native.Nat.{ℕ, zero, suc, ◌+◌, ◌*◌, ◌/◌, ◌%◌, ◌^◌, ◌≤◌, ◌<◌}

-- The digits of `a | b`, with as much fuel as is wanted.
abbrev or_digits : ℕ → ℕ → ℕ → ℕ
or_digits fuel a b = digits (λ y. y) max fuel a b

or_digits_enough : (n m a b : ℕ) → a ≤ n → a ≤ m → or_digits n a b ≡ or_digits m a b
or_digits_enough zero zero a b p q = refl
or_digits_enough zero (suc m) zero b p q = refl
or_digits_enough (suc n) zero zero b p q = refl
or_digits_enough (suc n) (suc m) zero b p q = refl
or_digits_enough zero (suc m) (suc a) b p q = absurd (omega arith)
or_digits_enough (suc n) zero (suc a) b p q = absurd (omega arith)
or_digits_enough (suc n) (suc m) (suc a) b p q =
    omega (arith, or_digits_enough n m (suc a / 2) (b / 2) (omega arith) (omega arith))

pub zero-bit_or : (b : ℕ) → bit_or 0 b ≡ b
zero-bit_or b = bit_or-bitwise 0 b

-- The lowest digit.
pub bit_or_step : (a b : ℕ) → bit_or a b ≡ bit_or (a / 2) (b / 2) * 2 + max (a % 2) (b % 2)
bit_or_step zero b = omega (arith, zero-bit_or b, zero-bit_or (b / 2))
bit_or_step (suc a) b = omega (
  arith,
  bit_or-bitwise (suc a) b,
  bit_or-bitwise (suc a / 2) (b / 2),
  or_digits_enough a (suc a / 2) (suc a / 2) (b / 2) (omega arith) (omega arith),
)

-- `1 | b` sets the lowest digit.
pub one-bit_or : (b : ℕ) → b % 2 ≡ 0 → bit_or 1 b ≡ b + 1
one-bit_or b h = omega (arith, bit_or_step 1 b, zero-bit_or (b / 2))

bit_or-zero_le : (n a : ℕ) → a ≤ n → bit_or a 0 ≡ a
bit_or-zero_le n zero h = refl
bit_or-zero_le zero (suc a) h = absurd (omega arith)
bit_or-zero_le (suc n) (suc a) h =
    omega (arith, bit_or_step (suc a) 0, bit_or-zero_le n (suc a / 2) (omega arith))

pub bit_or-zero : (a : ℕ) → bit_or a 0 ≡ a
bit_or-zero a = bit_or-zero_le a a (omega arith)

-- Flags above `k` digits and a field of `k` digits add up.
pub bit_or-add : (k q r : ℕ) → r < 2 ^ k → bit_or (q * 2 ^ k) r ≡ q * 2 ^ k + r
bit_or-add zero q r h = ground (arith, bit_or-zero q)
bit_or-add (suc k) q r h = ground (
  arith,
  ap (λ (t : ℕ). q * t) (pow-suc 2 k),
  bit_or_step (q * 2 ^ suc k) r,
  bit_or-add k q (r / 2) (omega arith),
)

le-bit_or_below : (n a b : ℕ) → a ≤ n → b ≤ bit_or a b
le-bit_or_below n zero b h = omega (arith, zero-bit_or b)
le-bit_or_below zero (suc a) b h = absurd (omega arith)
le-bit_or_below (suc n) (suc a) b h =
    ground (arith, bit_or_step (suc a) b, le-bit_or_below n (suc a / 2) (b / 2))

-- No digit is lost.
pub le-bit_or : (a b : ℕ) → b ≤ bit_or a b
le-bit_or a b = le-bit_or_below a a b (omega arith)

-- The halves of a sum of which at most one part is odd.
half_sum : (a u : ℕ) → a % 2 + u % 2 < 2 → (a + u) / 2 ≡ a / 2 + u / 2
half_sum a u h = omega arith

-- `a | (a + u)` is the sum just where `a | u` is, which is where no digit meets another.
bit_or-sum_below : (n a u : ℕ) → a ≤ n → (bit_or a (a + u) ≡ a + u) ↔ (bit_or a u ≡ a + u)
bit_or-sum_below n zero u h =
    (λ e. omega (arith, zero-bit_or u), λ e. omega (arith, zero-bit_or (0 + u)))
bit_or-sum_below zero (suc a) u h = absurd (omega arith)
bit_or-sum_below (suc n) (suc a) u h =
    let b = suc a in
    let above = bit_or_step b (b + u) in
    let apart = bit_or_step b u in
    elim (dec_lt (b % 2 + u % 2) 2) [
      | yes few ↦
          let half = ap (bit_or (b / 2)) (half_sum b u few) in
          let (there, back) = bit_or-sum_below n (b / 2) (u / 2) (omega arith) in
          (
            λ e. omega (arith, apart, there (omega (arith, above, half, e))),
            λ e. omega (arith, above, half, back (omega (arith, apart, e))),
          )
      | no many ↦ (λ e. absurd (omega (arith, above, e)), λ e. absurd (omega (arith, apart, e)))
    ]

pub bit_or-sum : (a u : ℕ) → (bit_or a (a + u) ≡ a + u) ↔ (bit_or a u ≡ a + u)
bit_or-sum a u = bit_or-sum_below a a u (omega arith)
