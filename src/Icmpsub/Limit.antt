-- ===== src/Icmpsub/Limit.antt =====
-- The rate limit of the messages that are sent.
use map.Common.{
  ℕ, suc, ◌+◌, ◌-◌, ◌≤◌, ◌≡◌, refl, true, false, List, [], ◌∷◌, arith, ltb, if◌then◌else◌,
  Bool-cases, inl, inr,
}
use map.Icmpsub.{Rate, restart, pass, check_sending_rate, rate_limit_count}

-- How many of the checks at the given times let a message pass.
abbrev pub passed : List ℕ → Rate → ℕ
passed [] r = 0
passed (now ∷ times) r =
    (if (check_sending_rate now r).0 then 0 else 1) + passed times (check_sending_rate now r).1

abbrev pub All : (ℕ → Type 0) → List ℕ → Type 0
All P [] = Unit
All P (x ∷ xs) = P x × All P xs

-- While the window lasts, at most 11 messages pass, with those that the count holds.
passed-window :
    (times : List ℕ) (r : Rate) → All (λ u. u ≤ r.from + 1) times → passed times r ≤ 11 - r.count
unfolding check_sending_rate restart pass
passed-window [] r h = omega arith
passed-window (now ∷ times) r h =
    let soon : ltb (r.from + 1) now ≡ false = ground (arith, h.0) in
    elim (Bool-cases (ltb rate_limit_count r.count)) [
      | inl full ↦ rw (soon, full) (omega (arith, passed-window times r h.1))
      | inr free ↦
          rw (soon, free)
            (ground (arith, passed-window times (record r { count = suc r.count }) h.1))
    ]

All-map : {P Q : ℕ → Type 0} (xs : List ℕ) → ((x : ℕ) → P x → Q x) → All P xs → All Q xs
All-map [] f h = tt
All-map (x ∷ xs) f h = (f x h.0, All-map xs f h.1)

passed-within :
    (t : ℕ) (times : List ℕ) (r : Rate)
    → All (λ u. (t ≤ u) × (u ≤ t + 1)) times
    → passed times r ≤ (11 - r.count) + 11
unfolding check_sending_rate restart pass
passed-within t [] r h = omega arith
passed-within t (now ∷ times) r h = elim (Bool-cases (ltb (r.from + 1) now)) [
  | inl late ↦
      let within = All-map {Q = λ u. u ≤ now + 1} times (λ u b. omega (arith, h.0.0, b.1)) h.1 in
      rw late (omega (arith, passed-window times (record { count = 1; from = now }) within))
  | inr soon ↦ elim (Bool-cases (ltb rate_limit_count r.count)) [
    | inl full ↦ rw (soon, full) (omega (arith, passed-within t times r h.1))
    | inr free ↦
        rw (soon, free)
          (ground (arith, passed-within t times (record r { count = suc r.count }) h.1))
  ]
]

-- Whatever the state, checks whose times all are a time or the second after it let at most 22
-- messages pass.
pub passed-le :
    (t : ℕ) (times : List ℕ) (r : Rate)
    → All (λ u. (t ≤ u) × (u ≤ t + 1)) times
    → passed times r ≤ 22
passed-le t times r h = omega (arith, passed-within t times r h)

-- The state after checks at the given times.
abbrev pub after : List ℕ → Rate → Rate
after [] r = r
after (now ∷ times) r = after times (check_sending_rate now r).1

checked_from : (t now : ℕ) (r : Rate) → now ≤ t → r.from ≤ t → (check_sending_rate now r).1.from ≤ t
unfolding check_sending_rate restart pass
checked_from t now r h k = elim (Bool-cases (ltb (r.from + 1) now)) [
  | inl late ↦ rw late h
  | inr soon ↦ elim (Bool-cases (ltb rate_limit_count r.count)) [
    | inl full ↦ rw (soon, full) k
    | inr free ↦ rw (soon, free) k
  ]
]

after_from :
    (t : ℕ) (times : List ℕ) (r : Rate)
    → All (λ u. u ≤ t) times
    → r.from ≤ t
    → (after times r).from ≤ t
after_from t [] r h k = k
after_from t (now ∷ times) r h k =
    after_from t times (check_sending_rate now r).1 h.1 (checked_from t now r h.0 k)

-- However many checks there were, if none of them and no start of a window was after a time, a
-- check two seconds or more after that time lets its message pass.
pub check_sending_rate-passes :
    (t now : ℕ) (times : List ℕ) (r : Rate)
    → All (λ u. u ≤ t) times
    → r.from ≤ t
    → t + 2 ≤ now
    → (check_sending_rate now (after times r)).0 ≡ false
unfolding check_sending_rate restart pass
check_sending_rate-passes t now times r h k late =
    let from = after_from t times r h k in
    let over : ltb ((after times r).from + 1) now ≡ true = ground arith in rw over refl
