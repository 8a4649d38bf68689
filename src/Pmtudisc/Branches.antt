-- ===== src/Pmtudisc/Branches.antt =====
-- The branches of the operations of the cache, each as an equation.
use map.Common.{
  ℕ, suc, ◌≤◌, ◌≡◌, refl, ap, ◌∙◌, ◌⊎◌, inl, inr, Bool, true, false, none, some, ◌==◌,
  if◌then◌else◌, arith, Bool-cases, ltb,
}
use map.Memory.{Bytes, Endian}
use map.Pmtudisc.Coherent.{len_of}
use map.Pmtudisc.Linking.{stored}
use map.Pmtudisc.Scan.{IsFamily, addr_len_lem}
use map.Pmtudisc.{
  PathMtu, Cache, Call, addr_len, is_outdated, find_path_mtu, remove_path_mtu, link_path_mtu,
  shrink, insert_path_mtu, get_path_mtu_size, change_path_mtu, create_path_mtu,
  update_path_mtu_size, default_mtu,
}
use map.Tunif.{af_inet, af_inet6}

pub IsFamily-cases : (af : ℕ) → IsFamily af ⊎ (addr_len af ≡ none)
unfolding addr_len
IsFamily-cases af = elim (Bool-cases (af == af_inet)) [
  | inl a ↦ inl (inl (ground arith))
  | inr b ↦ elim (Bool-cases (af == af_inet6)) [
    | inl a ↦ inl (inr (ground arith))
    | inr d ↦ inr (ground arith)
  ]
]

pub find_path_mtu_unknown :
    (e : Endian) (c : Cache) (af : ℕ) (addr : Bytes)
    → addr_len af ≡ none
    → find_path_mtu e c af addr ≡ none
unfolding find_path_mtu
find_path_mtu_unknown e c af addr h = rw (h, find_path_mtu) refl

pub get_missed :
    (e : Endian) (now af : ℕ) (addr : Bytes) (c : Cache)
    → find_path_mtu e c af addr ≡ none
    → get_path_mtu_size e now af addr c ≡ (default_mtu, c)
unfolding get_path_mtu_size
get_missed e now af addr c h = rw (h, get_path_mtu_size) refl

pub get_found :
    (e : Endian) (now af : ℕ) (addr : Bytes) (c : Cache) (p : ℕ)
    → find_path_mtu e c af addr ≡ some p
    → get_path_mtu_size e now af addr c ≡ (
        if is_outdated now (c.cell p)
        then (default_mtu, remove_path_mtu p c)
        else ((c.cell p).mtu, c))
unfolding get_path_mtu_size
get_found e now af addr c p h = rw (h, get_path_mtu_size) refl

pub update_found :
    (e : Endian) (call : Call) (af : ℕ) (addr : Bytes) (mtu : ℕ) (c : Cache) (p : ℕ)
    → 68 ≤ mtu
    → find_path_mtu e c af addr ≡ some p
    → update_path_mtu_size e call af addr mtu c ≡ some (true, change_path_mtu call.now p mtu c)
unfolding update_path_mtu_size
update_found e call af addr mtu c p m h =
    let big : ltb mtu 68 ≡ false = ground arith in rw (big, h, update_path_mtu_size) refl

pub update_missed :
    (e : Endian) (call : Call) (af : ℕ) (addr : Bytes) (mtu : ℕ) (c : Cache)
    → 68 ≤ mtu
    → find_path_mtu e c af addr ≡ none
    → update_path_mtu_size e call af addr mtu c ≡ some (create_path_mtu e call af addr mtu c)
unfolding update_path_mtu_size
update_missed e call af addr mtu c m h =
    let big : ltb mtu 68 ≡ false = ground arith in rw (big, h, update_path_mtu_size) refl

-- The fields of a new entry.
abbrev pub entry : Call → ℕ → Bytes → ℕ → PathMtu
entry call af addr mtu = record { af = af; addr = addr; mtu = mtu; last_updated = call.now }

pub insert_known :
    (e : Endian) (granted : Bool) (later p len : ℕ) (c : Cache)
    → addr_len (c.cell p).af ≡ some len
    → insert_path_mtu e granted later p c
      ≡ (if granted then (true, shrink later (link_path_mtu e p len c)) else (false, c))
unfolding insert_path_mtu
insert_known e granted later p len c h = rw (h, insert_path_mtu) refl

pub stored_new : (v : PathMtu) (c : Cache) → (stored v c).cell c.next ≡ v
stored_new v c = ground arith

-- The cache after a new entry is made: linked, if both allocations succeed.
pub create_known :
    (e : Endian) (call : Call) (af : ℕ) (addr : Bytes) (mtu : ℕ) (c : Cache)
    → IsFamily af
    → call.granted_entry ≡ true
    → create_path_mtu e call af addr mtu c ≡ (
        let c' = stored (entry call af addr mtu) c in
        if call.granted_hash
        then (true, shrink call.later (link_path_mtu e c.next (len_of af) c'))
        else (false, c'))
unfolding create_path_mtu
create_known e call af addr mtu c f g =
    let v = entry call af addr mtu in
    let len = ap (λ w. addr_len w.af) (stored_new v c) ∙ addr_len_lem af f in
    rw (g, addr_len_lem af f, create_path_mtu)
      (insert_known e call.granted_hash call.later c.next (len_of af) (stored v c) len)

pub create_refused :
    (e : Endian) (call : Call) (af : ℕ) (addr : Bytes) (mtu : ℕ) (c : Cache)
    → call.granted_entry ≡ false
    → create_path_mtu e call af addr mtu c ≡ (false, c)
unfolding create_path_mtu
create_refused e call af addr mtu c g = rw (g, create_path_mtu) refl

pub create_unknown :
    (e : Endian) (call : Call) (af : ℕ) (addr : Bytes) (mtu : ℕ) (c : Cache)
    → addr_len af ≡ none
    → call.granted_entry ≡ true
    → create_path_mtu e call af addr mtu c ≡ (false, record c { next = suc c.next })
unfolding create_path_mtu
create_unknown e call af addr mtu c n g = rw (n, g, create_path_mtu) refl
