-- ===== src/Pmtudisc/Steps.antt =====
-- Changing an entry and linking a new one keep the cache coherent.
use map.Common.{ℕ, ◌≤◌, ◌<◌, ◌≡◌, refl, inl, inr, List, [], ◌∷◌, ◌==◌, arith, Bool-cases}
use map.Memory.{Endian}
use map.Pmtudisc.Coherent.{
  IsCoherent, SameKey, Descends, Descends-le, erase-Descends, IsCoherent-later,
}
use map.Pmtudisc.Lists.{count, count-erase, length-erase}
use map.Pmtudisc.{PathMtu, Cache, matches, erase, set_cell, change_path_mtu}

-- A write to an entry that a list does not hold leaves the times along the list.
Descends-set_cell :
    (cell : ℕ → PathMtu) (p : ℕ) (v : PathMtu) (bound : ℕ) (ps : List ℕ)
    → count p ps ≡ 0
    → Descends cell bound ps
    → Descends (set_cell cell p v) bound ps
Descends-set_cell cell p v bound [] h d = tt
Descends-set_cell cell p v bound (q ∷ qs) h d =
    let kept : set_cell cell p v q ≡ cell q = ground arith in
    rw kept (d.0, Descends-set_cell cell p v _ qs (ground arith) d.1)

-- The entry with a new MTU and time.
abbrev pub changed : ℕ → ℕ → PathMtu → PathMtu
changed now mtu p = record p { mtu = mtu; last_updated = now }

changed_af :
    (now mtu : ℕ) (cell : ℕ → PathMtu) (p q : ℕ)
    → (set_cell cell p (changed now mtu (cell p)) q).af ≡ (cell q).af
changed_af now mtu cell p q = ground arith

changed_addr :
    (now mtu : ℕ) (cell : ℕ → PathMtu) (p q : ℕ)
    → (set_cell cell p (changed now mtu (cell p)) q).addr ≡ (cell q).addr
changed_addr now mtu cell p q = ground arith

changed_key :
    (now mtu : ℕ) (cell : ℕ → PathMtu) (p q r : ℕ)
    → let cell' = set_cell cell p (changed now mtu (cell p)) in
      SameKey (cell' q) (cell' r) → SameKey (cell q) (cell r)
unfolding matches
changed_key now mtu cell p q r h =
    rw
      (
        changed_af now mtu cell p q,
        changed_addr now mtu cell p q,
        changed_af now mtu cell p r,
        changed_addr now mtu cell p r,
      )
      at h

-- A write of the latest time puts an entry at the head of the list without it.
pub set_cell-Descends :
    (cell : ℕ → PathMtu) (p now : ℕ) (v : PathMtu) (ps : List ℕ)
    → v.last_updated ≡ now
    → count p ps ≡ 0
    → Descends cell now ps
    → Descends (set_cell cell p v) now (p ∷ ps)
set_cell-Descends cell p now v ps t h d =
    let written : (set_cell cell p v p).last_updated ≡ now = ground arith in
    rw written (omega arith, Descends-set_cell cell p v now ps h d)

-- An entry whose MTU changes moves to the head of the list and stays in its chain.
pub change_path_mtu-IsCoherent :
    (e : Endian) (clock now p mtu : ℕ) (c : Cache)
    → clock ≤ now
    → 0 < count p c.entries
    → IsCoherent e clock c
    → IsCoherent e now (change_path_mtu now p mtu c)
unfolding change_path_mtu
change_path_mtu-IsCoherent e clock now p mtu c h live k =
    elim (Bool-cases ((c.cell p).mtu == mtu)) [
      | inl same ↦ rw same (IsCoherent-later now h k)
      | inr other ↦ rw other (record {
        once = λ q. ground (arith, count-erase q p c.entries, k.once q);
        chained = λ q i lt.
            rw (changed_af now mtu c.cell p q, changed_addr now mtu c.cell p q)
              (ground (arith, count-erase q p c.entries, k.chained q i lt));
        distinct = λ q r hq hr s.
            k.distinct q r (ground (arith, count-erase q p c.entries))
              (ground (arith, count-erase r p c.entries)) (changed_key now mtu c.cell p q r s);
        known_af = λ q hq.
            rw (changed_af now mtu c.cell p q)
              (k.known_af q (ground (arith, count-erase q p c.entries)));
        allocated = λ q hq. k.allocated q (ground (arith, count-erase q p c.entries));
        counted = omega (arith, length-erase p c.entries live, k.counted);
        ordered =
            set_cell-Descends c.cell p now (changed now mtu (c.cell p)) (erase p c.entries) refl
              (ground (arith, count-erase p p c.entries, k.once p))
              (erase-Descends c.cell now p c.entries
                (Descends-le c.cell clock now c.entries h k.ordered));
      })
    ]
