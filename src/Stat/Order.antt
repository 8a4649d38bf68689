-- ===== src/Stat/Order.antt =====
-- The comparisons of addresses in stat.h, by which `std::map` keeps its entries.
use map.Common.{
  ℕ, zero, suc, ◌+◌, ◌*◌, ◌≡◌, refl, true, false, not, ◌&&◌, ◌||◌, ◌↔◌, [], ◌∷◌, arith, length,
}
use map.Common.Maps.{IsOrder}
use map.Memory.{Bytes, Endian, little, big, load16, word}
use map.Memory.Bound.{IsBytes}
use map.Stat.{
  load32, lt_in_addr, lt_words, eq_words, gt_words, lt_in6_addr, eq_in6_addr, gt_in6_addr, ltb_ℤ,
}

pub lt_in_addr-IsOrder : (e : Endian) → IsOrder (lt_in_addr e)
unfolding lt_in_addr
lt_in_addr-IsOrder e = record {
  irrefl = λ a. ground arith;
  asym = λ a b h. ground arith;
  weak = λ a b c h k. ground arith;
}

pub ltb_ℤ-IsOrder : IsOrder ltb_ℤ
ltb_ℤ-IsOrder = record {
  irrefl = λ a. ground arith;
  asym = λ a b h. ground arith;
  weak = λ a b c h k. ground arith;
}

lt_words_irrefl : (e : Endian) (n i : ℕ) (a : Bytes) → lt_words e n i a a ≡ false
unfolding lt_words
lt_words_irrefl e zero i a = refl
lt_words_irrefl e (suc n) i a = ground (arith, lt_words_irrefl e n (i + 4) a)

lt_words_asym :
    (e : Endian) (n i : ℕ) (a b : Bytes) → lt_words e n i a b ≡ true → lt_words e n i b a ≡ false
unfolding lt_words
lt_words_asym e zero i a b h = refl
lt_words_asym e (suc n) i a b h = ground (arith, lt_words_asym e n (i + 4) a b)

lt_words_weak :
    (e : Endian) (n i : ℕ) (a b c : Bytes)
    → lt_words e n i a b ≡ false
    → lt_words e n i b c ≡ false
    → lt_words e n i a c ≡ false
unfolding lt_words
lt_words_weak e zero i a b c h k = refl
lt_words_weak e (suc n) i a b c h k = ground (arith, lt_words_weak e n (i + 4) a b c)

pub lt_in6_addr-IsOrder : (e : Endian) → IsOrder (lt_in6_addr e)
unfolding lt_in6_addr
lt_in6_addr-IsOrder e = record {
  irrefl = lt_words_irrefl e 4 0;
  asym = lt_words_asym e 4 0;
  weak = lt_words_weak e 4 0;
}

gt_words-lt_words : (e : Endian) (n i : ℕ) (a b : Bytes) → gt_words e n i a b ≡ lt_words e n i b a
unfolding gt_words lt_words
gt_words-lt_words e zero i a b = refl
gt_words-lt_words e (suc n) i a b = ground (arith, gt_words-lt_words e n (i + 4) a b)

eq_words-lt_words :
    (e : Endian) (n i : ℕ) (a b : Bytes)
    → eq_words e n i a b ≡ not (lt_words e n i a b || lt_words e n i b a)
unfolding eq_words lt_words
eq_words-lt_words e zero i a b = refl
eq_words-lt_words e (suc n) i a b = ground (arith, eq_words-lt_words e n (i + 4) a b)

-- A word determines its bytes.
load32-bytes :
    (e : Endian) (x y z w x' y' z' w' : ℕ) (r r' : Bytes)
    → IsBytes (x ∷ y ∷ z ∷ w ∷ r)
    → IsBytes (x' ∷ y' ∷ z' ∷ w' ∷ r')
    → load32 e (x ∷ y ∷ z ∷ w ∷ r) 0 ≡ load32 e (x' ∷ y' ∷ z' ∷ w' ∷ r') 0
    → (x ≡ x') × (y ≡ y') × (z ≡ z') × (w ≡ w')
unfolding load32 load16 word
load32-bytes little x y z w x' y' z' w' r r' (b0, (b1, (b2, (b3, _)))) (c0, (c1, (c2, (c3, _)))) h =
    omega arith
load32-bytes big x y z w x' y' z' w' r r' (b0, (b1, (b2, (b3, _)))) (c0, (c1, (c2, (c3, _)))) h =
    omega arith

load32-skip :
    (e : Endian) (i : ℕ) (x y z w : ℕ) (r : Bytes)
    → load32 e (x ∷ y ∷ z ∷ w ∷ r) (suc (suc (suc (suc i)))) ≡ load32 e r i
unfolding load32 load16
load32-skip little i x y z w r =
    let two : suc (suc (suc (suc i))) + 2 ≡ suc (suc (suc (suc (i + 2)))) = omega arith in
    rw two refl
load32-skip big i x y z w r =
    let two : suc (suc (suc (suc i))) + 2 ≡ suc (suc (suc (suc (i + 2)))) = omega arith in
    rw two refl

eq_words-skip :
    (e : Endian) (n i : ℕ) (x y z w x' y' z' w' : ℕ) (r r' : Bytes)
    → eq_words e n (i + 4) (x ∷ y ∷ z ∷ w ∷ r) (x' ∷ y' ∷ z' ∷ w' ∷ r') ≡ eq_words e n i r r'
unfolding eq_words
eq_words-skip e zero i x y z w x' y' z' w' r r' = refl
eq_words-skip e (suc n) i x y z w x' y' z' w' r r' =
    let four : i + 4 ≡ suc (suc (suc (suc i))) = omega arith in
    let ih = eq_words-skip e n (i + 4) x y z w x' y' z' w' r r' in
    let here = load32-skip e i x y z w r in
    let there = load32-skip e i x' y' z' w' r' in rw (four, here, there, ← four) (rw ih refl)

eq_words-eq :
    (e : Endian) (n : ℕ) (a b : Bytes)
    → length a ≡ n * 4
    → length b ≡ n * 4
    → IsBytes a
    → IsBytes b
    → eq_words e n 0 a b ≡ true
    → a ≡ b
unfolding eq_words
eq_words-eq e zero [] [] p q s t h = refl
eq_words-eq e zero (x ∷ a) b p q s t h = absurd (omega arith)
eq_words-eq e zero [] (x ∷ b) p q s t h = absurd (omega arith)
eq_words-eq e (suc n) (x ∷ y ∷ z ∷ w ∷ r) (x' ∷ y' ∷ z' ∷ w' ∷ r') p q s t h = ground (
  arith,
  load32-bytes e x y z w x' y' z' w' r r' s t,
  eq_words-skip e n 0 x y z w x' y' z' w' r r',
  eq_words-eq e n r r' (omega arith) (omega arith) s.1.1.1.1 t.1.1.1.1,
)
eq_words-eq e (suc n) _ _ p q s t h = absurd (omega arith)

-- The comparisons of IPv6 addresses agree: `<` is an order that `std::map` can use, irreflexive,
-- asymmetric, and such that of two addresses in order a third one is above the first or below the
-- second; `>` is its converse, and `==` holds where neither does, which is for equal addresses alone.
pub in6_addr-order :
    (e : Endian) (a b c : Bytes)
    → length a ≡ 16
    → length b ≡ 16
    → IsBytes a
    → IsBytes b
    → (lt_in6_addr e a a ≡ false)
      × ((lt_in6_addr e a b && lt_in6_addr e b a) ≡ false)
      × ((lt_in6_addr e a b && not (lt_in6_addr e a c || lt_in6_addr e c b)) ≡ false)
      × (gt_in6_addr e a b ≡ lt_in6_addr e b a)
      × (eq_in6_addr e a b ≡ not (lt_in6_addr e a b || gt_in6_addr e a b))
      × ((eq_in6_addr e a b ≡ true) ↔ (a ≡ b))
unfolding lt_in6_addr gt_in6_addr eq_in6_addr
in6_addr-order e a b c p q s t = (
  lt_words_irrefl e 4 0 a,
  ground (arith, lt_words_asym e 4 0 a b),
  ground (arith, lt_words_weak e 4 0 a c b),
  gt_words-lt_words e 4 0 a b,
  rw gt_words-lt_words (eq_words-lt_words e 4 0 a b),
  (
    eq_words-eq e 4 a b p q s t,
    λ same. rw same (rw (eq_words-lt_words e 4 0 b b, lt_words_irrefl e 4 0 b) refl),
  ),
)
