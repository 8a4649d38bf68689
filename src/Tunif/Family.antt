-- ===== src/Tunif/Family.antt =====
-- The address family written before a packet is the one that is read from it.
use map.Common.{ℕ, ◌≡◌, ◌≤◌, ◌<◌, ◌⊎◌, inl, inr, some, length, arith}
use map.Memory.Bound.{htons-lt}
use map.Memory.Words.{load16-store16, length-store16}
use map.Memory.{Bytes, Endian, little, big, htons, store16}
use map.Tunif.{tun_get_af, tun_set_af, af_inet, af_inet6}

-- `ntohs` undoes `htons`.
pub htons-htons : (e : Endian) (v : ℕ) → v < 65536 → htons e (htons e v) ≡ v
unfolding htons
htons-htons little v h = omega arith
htons-htons big v h = omega arith

-- `tun_set_af` succeeds on the two families, keeps the buffer's length, and `tun_get_af` reads the
-- family back, in either byte order of the host.
pub tun_get_af-tun_set_af :
    (e : Endian) (buf : Bytes) (af : ℕ)
    → (af ≡ af_inet) ⊎ (af ≡ af_inet6)
    → 4 ≤ length buf
    → (buf' : Bytes) × (tun_set_af e buf af ≡ some buf')
      × (length buf' ≡ length buf)
      × (tun_get_af e buf' ≡ af)
unfolding tun_set_af tun_get_af
tun_get_af-tun_set_af e buf af (inl f) room = (
  store16 e (store16 e buf 0 0) 2 (htons e 0x0800),
  rw f,
  omega (arith, length-store16 e (store16 e buf 0 0) 2 (htons e 0x0800), length-store16 e buf 0 0),
  rw (
    load16-store16 e 2 (htons e 0x0800) (store16 e buf 0 0) (rw length-store16 (omega arith))
        (htons-lt e 0x0800),
    htons-htons e 0x0800 (omega arith),
    f,
  ),
)
tun_get_af-tun_set_af e buf af (inr f) room = (
  store16 e (store16 e buf 0 0) 2 (htons e 0x86dd),
  rw f,
  omega (arith, length-store16 e (store16 e buf 0 0) 2 (htons e 0x86dd), length-store16 e buf 0 0),
  rw (
    load16-store16 e 2 (htons e 0x86dd) (store16 e buf 0 0) (rw length-store16 (omega arith))
        (htons-lt e 0x86dd),
    htons-htons e 0x86dd (omega arith),
    f,
  ),
)
