-- ===== src/Clients/Date/Moment.antt =====
-- The comparison of dates is that of numbers that count the time.
use map.Clients.Date.{Date, decide, lt_date, year, month, day, hour, min}
use map.Common.Int.{ℤ, pos, negsuc}
use map.Common.{ℕ, ◌+◌, ◌*◌, ◌≤◌, ◌<◌, ◌≡◌, ◌∙◌, Bool, false, arith, ltb, ◌==◌, if◌then◌else◌}
use map.Stat.{ltb_ℤ}
use native.Mathlib.Nat.{mul-le-mul_right}

-- A member of a date, from -1 on, which stands for one that a date of a longer time has not.
abbrev pub from_minus_one : ℤ → ℕ
from_minus_one (pos n) = n + 1
from_minus_one (negsuc n) = 0

abbrev pub IsUpTo : ℕ → ℤ → Type 0
IsUpTo bound (pos n) = n ≤ bound
IsUpTo bound (negsuc n) = n ≡ 0

-- A date as they are read from the names of files.
pub record IsTime (d : Date) : Type 0 where
  pub year_bound : IsUpTo 9999 (year d)
  pub month_bound : IsUpTo 12 (month d)
  pub day_bound : IsUpTo 31 (day d)
  pub hour_bound : IsUpTo 24 (hour d)
  pub min_bound : IsUpTo 60 (min d)

-- The time of a date in minutes, if every hour has 62 of them, every day 26 hours, every month 33
-- days and every year 14 months, the one of a longer time included.
abbrev pub moment_of : Date → ℕ
moment_of d =
    from_minus_one (year d) * 744744
    + (from_minus_one (month d) * 53196
        + (from_minus_one (day d) * 1612 + (from_minus_one (hour d) * 62 + from_minus_one (min d))))

-- A longer time decides, and otherwise the shorter ones do.
decides :
    (bound : ℕ) (x y : ℤ) (rest : Bool) (m n : ℕ)
    → IsUpTo bound x
    → IsUpTo bound y
    → rest ≡ ltb m n
    → decide x y (ltb_ℤ x y) rest ≡ (
        if from_minus_one x == from_minus_one y
        then ltb m n
        else ltb (from_minus_one x) (from_minus_one y))
decides bound (pos a) (pos b) rest m n h k e = ground arith
decides bound (pos a) (negsuc b) rest m n h k e = ground arith
decides bound (negsuc a) (pos b) rest m n h k e = ground arith
decides bound (negsuc a) (negsuc b) rest m n h k e = ground arith

one_more : (weight d e : ℕ) → d < e → d * weight + weight ≤ e * weight
one_more weight d e h = omega (arith, mul-le-mul_right weight h)

weighs :
    (weight d e m n : ℕ)
    → m < weight
    → n < weight
    → (if d == e then ltb m n else ltb d e) ≡ ltb (d * weight + m) (e * weight + n)
weighs weight d e m n h k = ground (arith, one_more weight d e, one_more weight e d)

step :
    (bound weight : ℕ) (x y : ℤ) (rest : Bool) (m n : ℕ)
    → IsUpTo bound x
    → IsUpTo bound y
    → m < weight
    → n < weight
    → rest ≡ ltb m n
    → decide x y (ltb_ℤ x y) rest
      ≡ ltb (from_minus_one x * weight + m) (from_minus_one y * weight + n)
step bound weight x y rest m n h k p q e =
    decides bound x y rest m n h k e ∙ weighs weight (from_minus_one x) (from_minus_one y) m n p q

last_step :
    (bound : ℕ) (x y : ℤ)
    → IsUpTo bound x
    → IsUpTo bound y
    → decide x y (ltb_ℤ x y) false ≡ ltb (from_minus_one x) (from_minus_one y)
last_step bound (pos a) (pos b) h k = ground arith
last_step bound (pos a) (negsuc b) h k = ground arith
last_step bound (negsuc a) (pos b) h k = ground arith
last_step bound (negsuc a) (negsuc b) h k = ground arith

from_minus_one-le : (bound : ℕ) (x : ℤ) → IsUpTo bound x → from_minus_one x ≤ bound + 1
from_minus_one-le bound (pos n) h = omega arith
from_minus_one-le bound (negsuc n) h = omega arith

-- `operator<` compares the times that dates stand for.
pub lt_date-moment_of :
    (a b : Date) → IsTime a → IsTime b → lt_date a b ≡ ltb (moment_of a) (moment_of b)
unfolding lt_date
lt_date-moment_of a b h k =
    let a5 = from_minus_one-le 60 (min a) h.min_bound in
    let b5 = from_minus_one-le 60 (min b) k.min_bound in
    let a4 = from_minus_one-le 24 (hour a) h.hour_bound in
    let b4 = from_minus_one-le 24 (hour b) k.hour_bound in
    let a3 = from_minus_one-le 31 (day a) h.day_bound in
    let b3 = from_minus_one-le 31 (day b) k.day_bound in
    let a2 = from_minus_one-le 12 (month a) h.month_bound in
    let b2 = from_minus_one-le 12 (month b) k.month_bound in
    step 9999 744744 (year a) (year b) _ _ _ h.year_bound k.year_bound (omega arith) (omega arith) (
      step 12 53196 (month a) (month b) _ _ _ h.month_bound k.month_bound (omega arith)
        (omega arith)
        (step 31 1612 (day a) (day b) _ _ _ h.day_bound k.day_bound (omega arith) (omega arith) (
          step 24 62 (hour a) (hour b) _ _ _ h.hour_bound k.hour_bound (omega arith) (omega arith)
            (last_step 60 (min a) (min b) h.min_bound k.min_bound))))
