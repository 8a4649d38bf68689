-- ===== src/Pmtudisc/Answers.antt =====
-- The operations of the cache: each keeps it coherent and within its size, and a path MTU that
-- was noted is the one that is found.
use map.Common.{
  ℕ, suc, ◌≤◌, ◌<◌, ◌≡◌, ◌∙◌, inl, inr, Bool, true, none, some, arith, Option-cases, Bool-cases,
  take,
}
use map.Memory.{Bytes, Endian}
use map.Pmtudisc.Branches.{
  IsFamily-cases, find_path_mtu_unknown, get_missed, get_found, update_found, update_missed,
  create_known, create_refused, create_unknown, entry,
}
use map.Pmtudisc.Coherent.{IsCoherent, remove_path_mtu-IsCoherent, IsCoherent-later}
use map.Pmtudisc.Expiry.{
  fresh, kept-fresh, expire_path_mtus_entries, shrink-IsCoherent, shrink_size,
}
use map.Pmtudisc.Linking.{stored-IsCoherent, link_path_mtu-IsCoherent}
use map.Pmtudisc.Lists.{count}
use map.Pmtudisc.Scan.{find_path_mtu-some, find_path_mtu-none}
use map.Pmtudisc.Steps.{change_path_mtu-IsCoherent}
use map.Pmtudisc.{
  Cache, Call, is_outdated, find_path_mtu, remove_path_mtu, expire_path_mtus, get_path_mtu_size,
  change_path_mtu, create_path_mtu, update_path_mtu_size, max_instance_size, expire_budget,
}

-- Expiry leaves the entries that are not outdated, of these the 5001 that changed last, if the
-- cache is coherent.
pub expire_path_mtus-fresh :
    (e : Endian) (clock now : ℕ) (c : Cache)
    → IsCoherent e clock c
    → (expire_path_mtus now c).entries ≡ take 5001 (fresh c.cell now c.entries)
expire_path_mtus-fresh e clock now c k =
    expire_path_mtus_entries e clock now c k
    ∙ kept-fresh c.cell now clock expire_budget c.entries k.ordered

-- What is found is an entry of the list.
find_path_mtu_live :
    (e : Endian) (clock : ℕ) (c : Cache) (af : ℕ) (addr : Bytes) (p : ℕ)
    → IsCoherent e clock c
    → find_path_mtu e c af addr ≡ some p
    → 0 < count p c.entries
find_path_mtu_live e clock c af addr p k h = elim (IsFamily-cases af) [
  | inl f ↦ (find_path_mtu-some k af addr f p h).0
  | inr n ↦ let missed = find_path_mtu_unknown e c af addr n in absurd (cc)
]

removed_size : (p : ℕ) (c : Cache) → (remove_path_mtu p c).instance_size ≤ c.instance_size
unfolding remove_path_mtu
removed_size p c = omega arith

-- Looking a path MTU up keeps a coherent cache coherent and does not make it larger.
pub get_path_mtu_size-IsCoherent :
    (e : Endian) (clock now af : ℕ) (addr : Bytes) (c : Cache)
    → IsCoherent e clock c
    → IsCoherent e clock (get_path_mtu_size e now af addr c).1
      × ((get_path_mtu_size e now af addr c).1.instance_size ≤ c.instance_size)
get_path_mtu_size-IsCoherent e clock now af addr c k =
    elim (Option-cases (find_path_mtu e c af addr)) [
      | inl n ↦ rw (get_missed e now af addr c n) (k, omega arith)
      | inr (p, h) ↦ elim (Bool-cases (is_outdated now (c.cell p))) [
        | inl old ↦
            rw (get_found e now af addr c p h, old)
              (
                remove_path_mtu-IsCoherent e clock p c (find_path_mtu_live e clock c af addr p k h)
                    k,
                removed_size p c,
              )
        | inr new ↦ rw (get_found e now af addr c p h, new) (k, omega arith)
      ]
    ]

-- A coherent cache within its size.
abbrev pub IsGood : Endian → ℕ → Cache → Type 0
IsGood e clock c = IsCoherent e clock c × (c.instance_size ≤ max_instance_size)

IsGood-freed :
    (e : Endian) (clock : ℕ) (c : Cache)
    → IsGood e clock c
    → IsGood e clock (record c { next = suc c.next })
IsGood-freed e clock c g = (
  record {
    once = g.0.once;
    chained = g.0.chained;
    distinct = g.0.distinct;
    known_af = g.0.known_af;
    allocated = λ p hp. omega (arith, g.0.allocated p hp);
    counted = g.0.counted;
    ordered = g.0.ordered;
  },
  g.1,
)

create_path_mtu-IsGood :
    (e : Endian) (clock : ℕ) (call : Call) (af : ℕ) (addr : Bytes) (mtu : ℕ) (c : Cache)
    → clock ≤ call.now
    → find_path_mtu e c af addr ≡ none
    → IsGood e clock c
    → IsGood e call.now (create_path_mtu e call af addr mtu c).1
create_path_mtu-IsGood e clock call af addr mtu c h missed g =
    let k = g.0 in
    let later = IsCoherent-later call.now h k in
    let v = entry call af addr mtu in
    elim (Bool-cases call.granted_entry) [
      | inr refused ↦ rw (create_refused e call af addr mtu c refused) (later, g.1)
      | inl granted ↦ elim (IsFamily-cases af) [
        | inr n ↦
            rw (create_unknown e call af addr mtu c n granted)
              (IsGood-freed e call.now c (later, g.1))
        | inl f ↦ elim (Bool-cases call.granted_hash) [
          | inl both ↦
              let linked =
                link_path_mtu-IsCoherent k v (find_path_mtu-none k af addr f missed) h f in
              rw (create_known e call af addr mtu c f granted, both)
                (
                  shrink-IsCoherent e call.now call.later _ linked,
                  shrink_size e call.now call.later _ linked,
                )
          | inr one ↦
              rw (create_known e call af addr mtu c f granted, one) (stored-IsCoherent v later, g.1)
        ]
      ]
    ]

change_path_mtu_size :
    (now p mtu : ℕ) (c : Cache) → (change_path_mtu now p mtu c).instance_size ≡ c.instance_size
unfolding change_path_mtu
change_path_mtu_size now p mtu c = ground arith

-- An update of a coherent cache within its size, at a time that is not before the last one, with
-- an MTU of at least 68, returns; the cache that it leaves is coherent and within its size.
pub update_path_mtu_size-IsGood :
    (e : Endian) (clock : ℕ) (call : Call) (af : ℕ) (addr : Bytes) (mtu : ℕ) (c : Cache)
    → 68 ≤ mtu
    → clock ≤ call.now
    → IsGood e clock c
    → (result : Bool × Cache) × (update_path_mtu_size e call af addr mtu c ≡ some result)
      × IsGood e call.now result.1
update_path_mtu_size-IsGood e clock call af addr mtu c m h g =
    elim (Option-cases (find_path_mtu e c af addr)) [
      | inl missed ↦ (
        create_path_mtu e call af addr mtu c,
        update_missed e call af addr mtu c m missed,
        create_path_mtu-IsGood e clock call af addr mtu c h missed g,
      )
      | inr (p, found) ↦ (
        (true, change_path_mtu call.now p mtu c),
        update_found e call af addr mtu c p m found,
        (
          change_path_mtu-IsCoherent e clock call.now p mtu c h
              (find_path_mtu_live e clock c af addr p g.0 found) g.0,
          rw (change_path_mtu_size call.now p mtu c) g.1,
        ),
      )
    ]
