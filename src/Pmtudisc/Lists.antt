-- ===== src/Pmtudisc/Lists.antt =====
-- Lists of entry numbers: how often a number occurs, and taking it out.
use map.Common.{
  ℕ, ◌+◌, ◌-◌, ◌<◌, ◌≡◌, refl, List, [], ◌∷◌, ◌++◌, ◌==◌, if◌then◌else◌, arith, length,
}
use map.Pmtudisc.{erase}

abbrev pub count : ℕ → List ℕ → ℕ
count p [] = 0
count p (q ∷ qs) = (if p == q then 1 else 0) + count p qs

pub count-erase :
    (p q : ℕ) (qs : List ℕ) → count p (erase q qs) ≡ count p qs - (if p == q then 1 else 0)
unfolding erase
count-erase p q [] = ground arith
count-erase p q (x ∷ xs) = ground (arith, count-erase p q xs)

pub length-erase : (p : ℕ) (ps : List ℕ) → 0 < count p ps → length (erase p ps) + 1 ≡ length ps
unfolding erase
length-erase p [] h = absurd (omega arith)
length-erase p (q ∷ qs) h = ground (arith, length-erase p qs)

pub count-append : (p : ℕ) (ps qs : List ℕ) → count p (ps ++ qs) ≡ count p ps + count p qs
count-append p [] qs = omega arith
count-append p (x ∷ ps) qs = omega (arith, count-append p ps qs)

-- Taking the second part of a list out leaves the first.
pub erase-absent : (p : ℕ) (ps : List ℕ) → count p ps ≡ 0 → erase p ps ≡ ps
unfolding erase
erase-absent p [] h = refl
erase-absent p (q ∷ qs) h = ground (arith, erase-absent p qs)

pub erase-append : (p : ℕ) (ps qs : List ℕ) → count p ps ≡ 0 → erase p (ps ++ p ∷ qs) ≡ ps ++ qs
unfolding erase
erase-append p [] qs h = ground arith
erase-append p (x ∷ ps) qs h = ground (arith, erase-append p ps qs)
