-- ===== src/Pmtudisc/Linking.antt =====
-- Linking a new entry, for an address that the cache does not hold, keeps the cache coherent.
use map.Common.{
  ℕ, suc, ◌≤◌, ◌<◌, ◌≡◌, refl, sym, inl, inr, true, false, List, [], ◌∷◌, ◌==◌, if◌then◌else◌,
  arith, Bool-cases,
}
use map.HashTable.Lookup.{memcmp_eq_symm}
use map.HashTable.{hash_size}
use map.Memory.{Endian}
use map.Pmtudisc.Coherent.{IsCoherent, SameKey, len_of, chain_of, Descends, Descends-le}
use map.Pmtudisc.Lists.{count}
use map.Pmtudisc.Scan.{IsFamily, matches_af, matches_addr, matches_of}
use map.Pmtudisc.Steps.{set_cell-Descends}
use map.Pmtudisc.{PathMtu, Cache, matches, set_cell, link_path_mtu}

-- The cache with a new entry's fields, before it is linked.
abbrev pub stored : PathMtu → Cache → Cache
stored v c = record c { cell = set_cell c.cell c.next v; next = suc c.next }

set_cell_old :
    (cell : ℕ → PathMtu) (n q : ℕ) (v : PathMtu) → (n == q) ≡ false → set_cell cell n v q ≡ cell q
set_cell_old cell n q v h = ground arith

set_cell_new :
    (cell : ℕ → PathMtu) (n q : ℕ) (v : PathMtu) → (n == q) ≡ true → set_cell cell n v q ≡ v
set_cell_new cell n q v h = ground arith

SameKey-symm : (p q : PathMtu) → SameKey p q → SameKey q p
SameKey-symm p q h =
    let same = matches_af p.af (len_of p.af) p.addr q h in
    let equal = matches_addr p.af (len_of p.af) p.addr q h in
    matches_of q.af (len_of q.af) q.addr p (sym same) (rw (← same) (rw memcmp_eq_symm at equal))

module _ {e : Endian} {clock : ℕ} {c : Cache} (k : IsCoherent e clock c) (v : PathMtu)
    (missed : (p : ℕ)
      → 0 < count p c.entries
      → matches v.af v.addr (len_of v.af) (c.cell p) ≡ false) where
  n : ℕ
  n = c.next

  linked : Cache
  linked = link_path_mtu e c.next (len_of v.af) (stored v c)

  new_absent : count n c.entries ≡ 0
  unfolding n
  new_absent = ground (arith, k.allocated n)

  link_chained :
      (q i : ℕ)
      → i < hash_size
      → count q (linked.heads i)
        ≡ (if i == chain_of e (linked.cell q) then count q linked.entries else 0)
  unfolding n linked link_path_mtu
  link_chained q i lt = elim (Bool-cases (n == q)) [
    | inl new ↦
        rw (set_cell_new c.cell n q v new, set_cell_new c.cell n n v (ground arith))
          (ground (arith, new_absent, k.chained q i lt))
    | inr old ↦
        rw (set_cell_old c.cell n q v old, set_cell_new c.cell n n v (ground arith))
          (ground (arith, k.chained q i lt))
  ]

  link_distinct :
      (q r : ℕ)
      → 0 < count q linked.entries
      → 0 < count r linked.entries
      → SameKey (linked.cell q) (linked.cell r)
      → q ≡ r
  unfolding n linked link_path_mtu
  link_distinct q r hq hr s = elim (Bool-cases (n == q)) [
    | inl a ↦ elim (Bool-cases (n == r)) [
      | inl b ↦ ground arith
      | inr b ↦
          let t = rw (set_cell_new c.cell n q v a, set_cell_old c.cell n r v b) at s in
          let m = missed r (ground arith) in absurd (cc)
    ]
    | inr a ↦ elim (Bool-cases (n == r)) [
      | inl b ↦
          let t = rw (set_cell_old c.cell n q v a, set_cell_new c.cell n r v b) at s in
          let m = missed q (ground arith) in let u = SameKey-symm (c.cell q) v t in absurd (cc)
      | inr b ↦
          let t = rw (set_cell_old c.cell n q v a, set_cell_old c.cell n r v b) at s in
          k.distinct q r (ground arith) (ground arith) t
    ]
  ]

  -- The new entry heads the list and its chain.
  pub link_path_mtu-IsCoherent :
      clock ≤ v.last_updated
      → IsFamily v.af
      → IsCoherent e v.last_updated (link_path_mtu e c.next (len_of v.af) (stored v c))
  unfolding n linked link_path_mtu
  link_path_mtu-IsCoherent h f = record {
    once = λ q. ground (arith, new_absent, k.once q);
    chained = link_chained;
    distinct = link_distinct;
    known_af = λ q hq. elim (Bool-cases (n == q)) [
      | inl a ↦ rw (set_cell_new c.cell n q v a) f
      | inr b ↦ rw (set_cell_old c.cell n q v b) (k.known_af q (ground arith))
    ];
    allocated = λ q hq. ground (arith, k.allocated q);
    counted = omega (arith, k.counted);
    ordered =
        set_cell-Descends c.cell n v.last_updated v c.entries refl new_absent
          (Descends-le c.cell clock v.last_updated c.entries h k.ordered);
  }

stored_Descends :
    (cell : ℕ → PathMtu) (n : ℕ) (v : PathMtu) (ps : List ℕ) (bound : ℕ)
    → ((q : ℕ) → 0 < count q ps → q < n)
    → Descends cell bound ps
    → Descends (set_cell cell n v) bound ps
stored_Descends cell n v [] bound h d = tt
stored_Descends cell n v (q ∷ qs) bound h d =
    rw (set_cell_old cell n q v (ground (arith, h q)))
      (d.0, stored_Descends cell n v qs _ (λ r hr. h r (ground arith)) d.1)

-- The fields of an entry that is not linked are none of the list's.
module _ {e : Endian} {clock : ℕ} (v : PathMtu) {c : Cache} (k : IsCoherent e clock c) where
  unstored : (q : ℕ) → 0 < count q c.entries → set_cell c.cell c.next v q ≡ c.cell q
  unstored q hq = set_cell_old c.cell c.next q v (ground (arith, k.allocated q hq))

  pub stored-IsCoherent : IsCoherent e clock (stored v c)
  stored-IsCoherent = record {
    once = k.once;
    chained = λ q i lt. elim (Bool-cases (c.next == q)) [
      | inl new ↦
          let absent : count q c.entries ≡ 0 = ground (arith, k.allocated q) in
          ground (arith, k.chained q i lt)
      | inr old ↦ rw (set_cell_old c.cell c.next q v old) (k.chained q i lt)
    ];
    distinct = λ q r hq hr s. k.distinct q r hq hr (rw (unstored q hq, unstored r hr) at s);
    known_af = λ q hq. rw (unstored q hq) (k.known_af q hq);
    allocated = λ q hq. omega (arith, k.allocated q hq);
    counted = k.counted;
    ordered = stored_Descends c.cell c.next v c.entries clock k.allocated k.ordered;
  }
