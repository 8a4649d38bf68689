-- ===== src/Pmtudisc/Coherent.antt =====
-- The invariant of the cache: the list and the hash table hold the same entries, each once and
-- in its own chain; no two entries have one address; the list is ordered by time.
use map.Common.{
  ℕ, ◌≤◌, ◌<◌, ◌≡◌, refl, ◌⊎◌, true, List, [], ◌∷◌, ◌==◌, if◌then◌else◌, arith, length, Bool-cases,
  inl, inr, lt→ltb,
}
use map.HashTable.{get_hash_index, hash_size}
use map.HashTable.Lookup.{init_heads_lem}
use map.Memory.{Endian}
use map.Pmtudisc.Lists.{count, count-erase, length-erase}
use map.Pmtudisc.{PathMtu, Cache, initialize, erase, matches, remove_path_mtu}
use map.Tunif.{af_inet, af_inet6}

-- The length of an address, for the families that the cache holds.
abbrev pub len_of : ℕ → ℕ
len_of af = if af == af_inet then 4 else 16

-- The chain of an entry.
abbrev pub chain_of : Endian → PathMtu → ℕ
chain_of e p = get_hash_index e p.addr (len_of p.af)

-- The times along the list fall, from at most `bound`.
abbrev pub Descends : (ℕ → PathMtu) → ℕ → List ℕ → Type 0
Descends cell bound [] = Unit
Descends cell bound (p ∷ ps) =
    ((cell p).last_updated ≤ bound) × Descends cell (cell p).last_updated ps

abbrev pub SameKey : PathMtu → PathMtu → Type 0
SameKey p q = matches p.af p.addr (len_of p.af) q ≡ true

pub record IsCoherent (e : Endian) (clock : ℕ) (c : Cache) : Type 0 where
  pub once : (p : ℕ) → count p c.entries ≤ 1
  pub chained :
      (p i : ℕ)
      → i < hash_size
      → count p (c.heads i) ≡ (if i == chain_of e (c.cell p) then count p c.entries else 0)
  pub distinct :
      (p q : ℕ)
      → 0 < count p c.entries
      → 0 < count q c.entries
      → SameKey (c.cell p) (c.cell q)
      → p ≡ q
  pub known_af :
      (p : ℕ) → 0 < count p c.entries → ((c.cell p).af ≡ af_inet) ⊎ ((c.cell p).af ≡ af_inet6)
  pub allocated : (p : ℕ) → 0 < count p c.entries → p < c.next
  pub counted : c.instance_size ≡ length c.entries
  pub ordered : Descends c.cell clock c.entries

pub Descends-le :
    (cell : ℕ → PathMtu) (a b : ℕ) (ps : List ℕ) → a ≤ b → Descends cell a ps → Descends cell b ps
Descends-le cell a b [] h d = tt
Descends-le cell a b (p ∷ ps) h d = (omega arith, d.1)

pub erase-Descends :
    (cell : ℕ → PathMtu) (bound p : ℕ) (ps : List ℕ)
    → Descends cell bound ps
    → Descends cell bound (erase p ps)
unfolding erase
erase-Descends cell bound p [] d = tt
erase-Descends cell bound p (q ∷ qs) d = elim (Bool-cases (p == q)) [
  | inl same ↦ rw same (Descends-le cell _ bound qs d.0 d.1)
  | inr other ↦ rw other (d.0, erase-Descends cell _ p qs d.1)
]

pub remove_path_mtu-IsCoherent :
    (e : Endian) (clock p : ℕ) (c : Cache)
    → 0 < count p c.entries
    → IsCoherent e clock c
    → IsCoherent e clock (remove_path_mtu p c)
unfolding remove_path_mtu
remove_path_mtu-IsCoherent e clock p c h k = record {
  once = λ q. ground (arith, count-erase q p c.entries, k.once q);
  chained = λ q i lt.
      ground (arith, count-erase q p c.entries, count-erase q p (c.heads i), k.chained q i lt);
  distinct = λ q r hq hr s.
      k.distinct q r (ground (arith, count-erase q p c.entries))
        (ground (arith, count-erase r p c.entries)) s;
  known_af = λ q hq. k.known_af q (ground (arith, count-erase q p c.entries));
  allocated = λ q hq. k.allocated q (ground (arith, count-erase q p c.entries));
  counted = omega (arith, length-erase p c.entries h, k.counted);
  ordered = erase-Descends c.cell clock p c.entries k.ordered;
}

pub initialize-IsCoherent : (e : Endian) (clock : ℕ) (c : Cache) → IsCoherent e clock (initialize c)
unfolding initialize
initialize-IsCoherent e clock c = record {
  once = λ p. omega arith;
  chained = λ p i lt. rw (init_heads_lem hash_size c.heads i, lt→ltb _ _ lt) (ground arith);
  distinct = λ p q h. absurd (omega arith);
  known_af = λ p h. absurd (omega arith);
  allocated = λ p h. absurd (omega arith);
  counted = refl;
  ordered = tt;
}

-- Time passes.
pub IsCoherent-later :
    {e : Endian} {clock : ℕ} {c : Cache} (later : ℕ)
    → clock ≤ later
    → IsCoherent e clock c
    → IsCoherent e later c
IsCoherent-later {e} {clock} {c} later h k = record {
  once = k.once;
  chained = k.chained;
  distinct = k.distinct;
  known_af = k.known_af;
  allocated = k.allocated;
  counted = k.counted;
  ordered = Descends-le c.cell clock later c.entries h k.ordered;
}
