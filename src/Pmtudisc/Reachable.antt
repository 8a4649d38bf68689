-- ===== src/Pmtudisc/Reachable.antt =====
-- The caches that calls of the module lead to, with the time of the last call.
use map.Common.{ℕ, ◌≤◌, ◌≡◌, inl, inr, Bool, some, arith, Bool-cases, ltb}
use map.Memory.{Bytes, Endian}
use map.Pmtudisc.Answers.{IsGood, update_path_mtu_size-IsGood, get_path_mtu_size-IsCoherent}
use map.Pmtudisc.Coherent.{initialize-IsCoherent, IsCoherent-later}
use map.Pmtudisc.{Cache, initialize, Call, get_path_mtu_size, update_path_mtu_size}

pub data Reachable (e : Endian) : ℕ → Cache → Type 0 where
  started : (clock : ℕ) (c : Cache) → Reachable e clock (initialize c)
  got :
      {clock : ℕ} {c : Cache} (now af : ℕ) (addr : Bytes)
      → clock ≤ now
      → Reachable e clock c
      → Reachable e now (get_path_mtu_size e now af addr c).1
  updated :
      {clock : ℕ} {c : Cache} (call : Call) (af : ℕ) (addr : Bytes) (mtu : ℕ) (ok : Bool)
      (c' : Cache)
      → clock ≤ call.now
      → update_path_mtu_size e call af addr mtu c ≡ some (ok, c')
      → Reachable e clock c
      → Reachable e call.now c'

asserted :
    (e : Endian) (call : Call) (af : ℕ) (addr : Bytes) (mtu : ℕ) (c : Cache) (r : Bool × Cache)
    → update_path_mtu_size e call af addr mtu c ≡ some r
    → 68 ≤ mtu
unfolding update_path_mtu_size
asserted e call af addr mtu c r h = elim (Bool-cases (ltb mtu 68)) [
  | inl small ↦ let failed = rw (small, update_path_mtu_size) at h in absurd (cc)
  | inr big ↦ ground arith
]

-- Every cache that is reached is coherent and holds at most 10000 entries.
pub Reachable-IsGood : {e : Endian} {clock : ℕ} {c : Cache} → Reachable e clock c → IsGood e clock c
unfolding initialize
Reachable-IsGood {e} (started clock c) = (initialize-IsCoherent e clock c, omega arith)
Reachable-IsGood {e} (got {clock} {c} now af addr h r) =
    let g = Reachable-IsGood r in
    let left = get_path_mtu_size-IsCoherent e clock now af addr c g.0 in
    (IsCoherent-later now h left.0, omega (arith, left.1, g.1))
Reachable-IsGood {e} (updated {clock} {c} call af addr mtu ok c' h u r) =
    let (result, returned, good) =
      update_path_mtu_size-IsGood e clock call af addr mtu c
        (asserted e call af addr mtu c (ok, c') u) h (Reachable-IsGood r) in
    let same : result ≡ (ok, c') = cc in rw same at good
