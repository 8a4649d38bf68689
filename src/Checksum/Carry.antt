-- ===== src/Checksum/Carry.antt =====
-- Folding the carries of a 32-bit sum into 16 bits.
use map.Common.{
  ℕ, zero, suc, ◌+◌, ◌%◌, ◌≤◌, ◌<◌, ◌^◌, ◌≡◌, true, false, arith, inl, inr, Bool-cases,
}
use map.Common.Int.{ℤ, pos, negsuc, pos_part, neg_part, ◌+ℤ◌}
use map.Checksum.{shift16, low16, is_zero, addcarry_loop, addcarry, complement16, complement}

-- The range of an `int32_t`.
abbrev pub IsInt32 : ℤ → Type 0
IsInt32 s = (pos_part s < 2 ^ 31) × (neg_part s ≤ 2 ^ 31)

-- `r` has no carry left, is congruent to `s` modulo 65535, and is positive if `s` is, and zero if
-- `s` is.
pub record IsFolded (s r : ℤ) : Type 0 where
  pub nonneg : neg_part r ≡ 0
  pub short : pos_part r < 65536
  pub congr : (pos_part r + neg_part s) % 65535 ≡ pos_part s % 65535
  pub positive : 0 < pos_part s → 0 < pos_part r
  pub of_zero : pos_part s ≡ 0 → neg_part s ≡ 0 → pos_part r ≡ 0

next : ℤ → ℤ
next s = shift16 s +ℤ pos (low16 s)

-- One round of the loop keeps the value modulo 65535, and the sign of a positive one.
next-congr :
    (s : ℤ)
    → ((pos_part (next s) + neg_part s) % 65535 ≡ (neg_part (next s) + pos_part s) % 65535)
      × (0 < pos_part s → 0 < pos_part (next s))
      × (pos_part s ≡ 0 → neg_part s ≡ 0 → (pos_part (next s) ≡ 0) × (neg_part (next s) ≡ 0))
unfolding next shift16 low16 ◌+ℤ◌
next-congr (pos n) = ground arith
next-congr (negsuc n) = ground arith

next-near : (s : ℤ) → IsInt32 s → (pos_part (next s) ≤ 98302) × (neg_part (next s) ≤ 32768)
unfolding next shift16 low16 ◌+ℤ◌
next-near (pos n) h = ground arith
next-near (negsuc n) h = ground arith

next-short :
    (s : ℤ)
    → pos_part s ≤ 98302
    → neg_part s ≤ 32768
    → is_zero (shift16 s) ≡ false
    → (pos_part (next s) < 65536) × (neg_part (next s) ≡ 0)
unfolding next shift16 low16 ◌+ℤ◌ is_zero
next-short (pos n) h k e = ground arith
next-short (negsuc n) h k e = ground arith

stops-short : (s : ℤ) → is_zero (shift16 s) ≡ true → (pos_part s < 65536) × (neg_part s ≡ 0)
unfolding shift16 is_zero
stops-short (pos n) e = ground arith
stops-short (negsuc n) e = ground arith

short-stops : (s : ℤ) → pos_part s < 65536 → neg_part s ≡ 0 → is_zero (shift16 s) ≡ true
unfolding shift16 is_zero
short-stops (pos n) h e = ground arith
short-stops (negsuc n) h e = ground arith

IsFolded-here : (s : ℤ) → is_zero (shift16 s) ≡ true → IsFolded s s
IsFolded-here s e = record {
  nonneg = omega (arith, stops-short s e);
  short = omega (arith, stops-short s e);
  congr = omega (arith, stops-short s e);
  positive = λ h. h;
  of_zero = λ p n. p;
}

IsFolded-next : (s r : ℤ) → IsFolded (next s) r → IsFolded s r
IsFolded-next s r f = record {
  nonneg = f.nonneg;
  short = f.short;
  congr = omega (arith, next-congr s, f.congr);
  positive = λ h. f.positive ((next-congr s).1 h);
  of_zero = λ p n. let (p', n') = (next-congr s).2 p n in f.of_zero p' n';
}

-- A run of the loop of ADDCARRY: from a sum, in so many rounds, to where its test fails.
pub data Rounds : ℤ → ℕ → ℤ → Type 0 where
  ends : {s : ℤ} → is_zero (shift16 s) ≡ true → Rounds s 0 s
  round :
      {s r : ℤ} {n : ℕ}
      → is_zero (shift16 s) ≡ false
      → Rounds (shift16 s +ℤ pos (low16 s)) n r
      → Rounds s (suc n) r

-- However many rounds a run takes, it folds the sum.
Rounds-IsFolded : {s r : ℤ} {n : ℕ} → Rounds s n r → IsFolded s r
unfolding next
Rounds-IsFolded {s} (ends e) = IsFolded-here s e
Rounds-IsFolded {s} {r} (round e run) = IsFolded-next s r (Rounds-IsFolded run)

-- A run of at most so many rounds.
abbrev pub EndsWithin : ℕ → ℤ → ℤ → Type 0
EndsWithin bound s r = (n : ℕ) × (n ≤ bound) × Rounds s n r

loop-stop :
    (fuel bound : ℕ) (s : ℤ)
    → is_zero (shift16 s) ≡ true
    → EndsWithin bound s (addcarry_loop fuel s)
unfolding addcarry_loop
loop-stop zero bound s e = (0, omega arith, ends e)
loop-stop (suc fuel) bound s e = rw e (0, omega arith, ends e)

loop-next :
    (fuel bound : ℕ) (s : ℤ)
    → is_zero (shift16 s) ≡ false
    → EndsWithin bound (next s) (addcarry_loop fuel (next s))
    → EndsWithin (suc bound) s (addcarry_loop (suc fuel) s)
unfolding addcarry_loop next
loop-next fuel bound s e (n, small, run) = rw e (suc n, omega arith, round e run)

near-EndsWithin :
    (fuel : ℕ) (s : ℤ)
    → pos_part s ≤ 98302
    → neg_part s ≤ 32768
    → EndsWithin 1 s (addcarry_loop (suc fuel) s)
near-EndsWithin fuel s p n = elim (Bool-cases (is_zero (shift16 s))) [
  | inl e ↦ loop-stop (suc fuel) 1 s e
  | inr e ↦
      let (p', n') = next-short s p n e in
      loop-next fuel 0 s e (loop-stop fuel 0 (next s) (short-stops (next s) p' n'))
]

addcarry-EndsWithin : (s : ℤ) → IsInt32 s → EndsWithin 2 s (addcarry s)
unfolding addcarry
addcarry-EndsWithin s h = elim (Bool-cases (is_zero (shift16 s))) [
  | inl e ↦ loop-stop 3 2 s e
  | inr e ↦ let (p, n) = next-near s h in loop-next 2 1 s e (near-EndsWithin 1 (next s) p n)
]

pub addcarry-IsFolded : (s : ℤ) → IsInt32 s → IsFolded s (addcarry s)
addcarry-IsFolded s h = Rounds-IsFolded (addcarry-EndsWithin s h).2

-- On every sum in the range of an int32_t, negative ones included, the loop of ADDCARRY has a run
-- of at most two rounds, after which its own test fails, and the result is where that run ends: it
-- has 16 bits, is congruent to the sum modulo 65535, is positive where the sum is, and zero where it
-- is zero.
pub addcarry-Rounds :
    (s : ℤ) → IsInt32 s → ((n : ℕ) × (n ≤ 2) × Rounds s n (addcarry s)) × IsFolded s (addcarry s)
addcarry-Rounds s h = (addcarry-EndsWithin s h, addcarry-IsFolded s h)

-- `~sum & 0xffff` of a folded sum.
pub complement16-IsFolded : {s r : ℤ} → IsFolded s r → complement16 r + pos_part r ≡ 65535
unfolding complement16 complement low16
complement16-IsFolded {s} {r = pos n} f = omega (arith, f.short)
complement16-IsFolded {s} {r = negsuc n} f = absurd (omega (arith, f.nonneg))

pub complement16-short : (c : ℕ) → c < 65536 → complement16 (pos c) + c ≡ 65535
unfolding complement16 complement low16
complement16-short c h = omega arith

pub complement16-lt : (s : ℤ) → complement16 s < 65536
unfolding complement16 complement low16
complement16-lt (pos n) = omega arith
complement16-lt (negsuc n) = omega arith
