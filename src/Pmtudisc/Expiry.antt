-- ===== src/Pmtudisc/Expiry.antt =====
-- Expiry: the entries after the first outdated one, or after 5001 entries, leave the cache.
use map.Common.{
  ℕ, zero, suc, ◌+◌, ◌≤◌, ◌<◌, ◌≡◌, refl, sym, inl, inr, false, List, [], ◌∷◌, ◌++◌, if◌then◌else◌,
  arith, length, Bool-cases, ltb, take,
}
use map.Memory.{Endian}
use map.Pmtudisc.Coherent.{IsCoherent, Descends, remove_path_mtu-IsCoherent}
use map.Pmtudisc.Lists.{count, count-erase, count-append, erase-append}
use map.Pmtudisc.{
  PathMtu, Cache, erase, remove_path_mtu, remove_all, expired_from, expire_path_mtus, is_outdated,
  expire_budget, shrink, max_instance_size,
}

-- Taking entries of the list out, each once, keeps the cache coherent.
pub remove_all-IsCoherent :
    (e : Endian) (clock : ℕ) (ps : List ℕ) (c : Cache)
    → ((p : ℕ) → count p ps ≤ count p c.entries)
    → IsCoherent e clock c
    → IsCoherent e clock (remove_all ps c)
unfolding remove_all remove_path_mtu
remove_all-IsCoherent e clock [] c h k = k
remove_all-IsCoherent e clock (p ∷ ps) c h k =
    let live : 0 < count p c.entries = ground (arith, h p) in
    remove_all-IsCoherent e clock ps (remove_path_mtu p c)
      (λ q. ground (arith, count-erase q p c.entries, h q))
      (remove_path_mtu-IsCoherent e clock p c live k)

-- The entries that stay.
abbrev pub kept : (ℕ → PathMtu) → ℕ → ℕ → List ℕ → List ℕ
kept cell now budget [] = []
kept cell now zero (p ∷ ps) = []
kept cell now (suc budget) (p ∷ ps) =
    if is_outdated now (cell p) then [] else p ∷ kept cell now budget ps

kept_append :
    (cell : ℕ → PathMtu) (now budget : ℕ) (ps : List ℕ)
    → kept cell now budget ps ++ expired_from cell now budget ps ≡ ps
unfolding expired_from
kept_append cell now budget [] = refl
kept_append cell now zero (p ∷ ps) = refl
kept_append cell now (suc budget) (p ∷ ps) = ground (arith, kept_append cell now budget ps)

length-kept :
    (cell : ℕ → PathMtu) (now budget : ℕ) (ps : List ℕ) → length (kept cell now budget ps) ≤ budget
length-kept cell now budget [] = omega arith
length-kept cell now zero (p ∷ ps) = omega arith
length-kept cell now (suc budget) (p ∷ ps) = ground (arith, length-kept cell now budget ps)

kept_fresh :
    (cell : ℕ → PathMtu) (now budget : ℕ) (ps : List ℕ) (p : ℕ)
    → 0 < count p (kept cell now budget ps)
    → is_outdated now (cell p) ≡ false
kept_fresh cell now budget [] p h = absurd (omega arith)
kept_fresh cell now zero (q ∷ ps) p h = absurd (omega arith)
kept_fresh cell now (suc budget) (q ∷ ps) p h = ground (arith, kept_fresh cell now budget ps p)

append_nil : (ps : List ℕ) → ps ++ [] ≡ ps
append_nil [] = refl
append_nil (p ∷ ps) = rw (append_nil ps)

-- Taking the rest of the list out leaves what stands before it.
remove_all_entries :
    (ps qs : List ℕ) (c : Cache)
    → c.entries ≡ ps ++ qs
    → ((p : ℕ) → count p c.entries ≤ 1)
    → (remove_all qs c).entries ≡ ps
unfolding remove_all remove_path_mtu
remove_all_entries ps [] c h once = rw h (append_nil ps)
remove_all_entries ps (q ∷ qs) c h once =
    let absent : count q ps ≡ 0 = ground (arith, once q, h, count-append q ps (q ∷ qs)) in
    let rest : erase q c.entries ≡ ps ++ qs = rw h (erase-append q ps qs absent) in
    remove_all_entries ps qs (remove_path_mtu q c) rest
      (λ p. ground (arith, count-erase p q c.entries, once p))

-- What stays in the list is the part before the first outdated entry, of at most 5001 entries.
pub expire_path_mtus_entries :
    (e : Endian) (clock now : ℕ) (c : Cache)
    → IsCoherent e clock c
    → (expire_path_mtus now c).entries ≡ kept c.cell now expire_budget c.entries
unfolding expire_path_mtus
expire_path_mtus_entries e clock now c k =
    remove_all_entries (kept c.cell now expire_budget c.entries)
      (expired_from c.cell now expire_budget c.entries) c
      (sym (kept_append c.cell now expire_budget c.entries)) k.once

-- The entries that are not outdated.
abbrev pub fresh : (ℕ → PathMtu) → ℕ → List ℕ → List ℕ
fresh cell now [] = []
fresh cell now (p ∷ ps) =
    if is_outdated now (cell p) then fresh cell now ps else p ∷ fresh cell now ps

-- After an outdated entry all are outdated.
fresh_outdated :
    (cell : ℕ → PathMtu) (now bound : ℕ) (ps : List ℕ)
    → bound + 3600 < now
    → Descends cell bound ps
    → fresh cell now ps ≡ []
unfolding is_outdated
fresh_outdated cell now bound [] h d = refl
fresh_outdated cell now bound (p ∷ ps) h d =
    ground (arith, d.0, fresh_outdated cell now (cell p).last_updated ps (omega (arith, d.0)) d.1)

pub kept-fresh :
    (cell : ℕ → PathMtu) (now bound budget : ℕ) (ps : List ℕ)
    → Descends cell bound ps
    → kept cell now budget ps ≡ take budget (fresh cell now ps)
unfolding is_outdated
kept-fresh cell now bound zero [] d = refl
kept-fresh cell now bound (suc budget) [] d = refl
kept-fresh cell now bound zero (p ∷ ps) d = refl
kept-fresh cell now bound (suc budget) (p ∷ ps) d = elim (Bool-cases (is_outdated now (cell p))) [
  | inl old ↦ rw (old, fresh_outdated cell now (cell p).last_updated ps (ground arith) d.1) refl
  | inr new ↦ rw (new, kept-fresh cell now (cell p).last_updated budget ps d.1) refl
]

expired_le :
    (cell : ℕ → PathMtu) (now budget : ℕ) (ps : List ℕ) (p : ℕ)
    → count p (expired_from cell now budget ps) ≤ count p ps
expired_le cell now budget ps p =
    let parts = kept_append cell now budget ps in
    let both = count-append p (kept cell now budget ps) (expired_from cell now budget ps) in
    let total = rw parts at both in omega arith

-- Expiry keeps the cache coherent.
pub expire_path_mtus-IsCoherent :
    (e : Endian) (clock now : ℕ) (c : Cache)
    → IsCoherent e clock c
    → IsCoherent e clock (expire_path_mtus now c)
unfolding expire_path_mtus
expire_path_mtus-IsCoherent e clock now c k =
    remove_all-IsCoherent e clock (expired_from c.cell now expire_budget c.entries) c
      (λ p. expired_le c.cell now expire_budget c.entries p) k

pub remove_all_cell : (ps : List ℕ) (c : Cache) → (remove_all ps c).cell ≡ c.cell
unfolding remove_all remove_path_mtu
remove_all_cell [] c = refl
remove_all_cell (p ∷ ps) c = remove_all_cell ps (remove_path_mtu p c)

expired_size :
    (e : Endian) (clock now : ℕ) (c : Cache)
    → IsCoherent e clock c
    → (expire_path_mtus now c).instance_size ≤ max_instance_size
expired_size e clock now c k =
    let left = expire_path_mtus_entries e clock now c k in
    let after = (expire_path_mtus-IsCoherent e clock now c k).counted in
    rw (after, left) (omega (arith, length-kept c.cell now expire_budget c.entries))

-- After an insertion the count is at most 10000.
pub shrink_size :
    (e : Endian) (clock now : ℕ) (c : Cache)
    → IsCoherent e clock c
    → (shrink now c).instance_size ≤ max_instance_size
unfolding shrink
shrink_size e clock now c k = elim (Bool-cases (ltb max_instance_size c.instance_size)) [
  | inl over ↦ rw over (expired_size e clock now c k)
  | inr fits ↦ rw fits (ground arith)
]

pub shrink-IsCoherent :
    (e : Endian) (clock now : ℕ) (c : Cache)
    → IsCoherent e clock c
    → IsCoherent e clock (shrink now c)
unfolding shrink
shrink-IsCoherent e clock now c k = elim (Bool-cases (ltb max_instance_size c.instance_size)) [
  | inl over ↦ rw over (expire_path_mtus-IsCoherent e clock now c k)
  | inr fits ↦ rw fits k
]
