-- ===== src/Packet/Headers.antt =====
-- The headers that are made: they are whole, and the IPv4 header's checksum is right.
use map.Checksum.Sum.{IsIpHeader}
use map.Checksum.Update.{IsBalanced}
use map.Common.{ℕ, ◌<◌, ◌≡◌, refl, inr, arith, length, length-append, length-take, take}
use map.Icmpsub.Created.{append-IsBytes, word_zero, summed_lem}
use map.Icmpsub.{summed}
use map.Memory.Bound.{IsBytes, take-IsBytes}
use map.Memory.Words.{words_sum}
use map.Memory.{Bytes, Endian, load16}
use map.Packet.{hdr4, hdr6}

-- An address of `n` bytes.
abbrev pub IsAddr : ℕ → Bytes → Type 0
IsAddr n addr = IsBytes addr × (length addr ≡ n)

module _ (plen nxt hlim : ℕ) (src dst : Bytes) (hn : nxt < 256) (hh : hlim < 256)
    (hs : IsAddr 16 src) (hd : IsAddr 16 dst) where
  pub length-hdr6 : length (hdr6 plen nxt hlim src dst) ≡ 40
  unfolding hdr6
  length-hdr6 = omega (
    arith,
    length-append (take 16 src) (take 16 dst),
    length-take 16 src,
    length-take 16 dst,
    hs.1,
    hd.1,
  )

  pub hdr6-IsIpHeader : IsIpHeader (hdr6 plen nxt hlim src dst)
  unfolding hdr6
  hdr6-IsIpHeader =
      let addrs =
        append-IsBytes (take 16 src) (take 16 dst) (take-IsBytes 16 src hs.0)
          (take-IsBytes 16 dst hd.0) in
      (
        (
          omega arith,
          (
            omega arith,
            (omega arith, (omega arith, (omega arith, (omega arith, (hn, (hh, addrs)))))),
          ),
        ),
        inr (refl, omega (arith, length-hdr6)),
      )

module _ (len id off ttl proto : ℕ) (src dst : Bytes) (ht : ttl < 256) (hp : proto < 256)
    (hs : IsAddr 4 src) (hd : IsAddr 4 dst) where
  pub length-hdr4 : length (hdr4 len id off ttl proto src dst) ≡ 20
  unfolding hdr4
  length-hdr4 = omega (
    arith,
    length-append (take 4 src) (take 4 dst),
    length-take 4 src,
    length-take 4 dst,
    hs.1,
    hd.1,
  )

  pub hdr4-IsBytes : IsBytes (hdr4 len id off ttl proto src dst)
  unfolding hdr4
  hdr4-IsBytes =
      let addrs =
        append-IsBytes (take 4 src) (take 4 dst) (take-IsBytes 4 src hs.0)
          (take-IsBytes 4 dst hd.0) in
      (
        omega arith,
        (
          omega arith,
          (
            omega arith,
            (
              omega arith,
              (
                omega arith,
                (
                  omega arith,
                  (omega arith, (omega arith, (ht, (hp, (omega arith, (omega arith, addrs)))))),
                ),
              ),
            ),
          ),
        ),
      )

  -- The header with its checksum has a zero sum.
  pub summed-hdr4 :
      (e : Endian) → IsBalanced (words_sum e (summed e (hdr4 len id off ttl proto src dst)))
  summed-hdr4 e =
      summed_lem e (hdr4 len id off ttl proto src dst) hdr4-IsBytes length-hdr4
        (unfold hdr4 in refl) (unfold hdr4 load16 in word_zero e)
