-- ===== src/Checksum/Update.antt =====
-- What the adjustments of checksum.c do to a packet that carries a correct checksum.
use map.Common.{
  ℕ, ◌+◌, ◌%◌, ◌≤◌, ◌<◌, ◌≡◌, refl, length, ◌^◌, arith, ◌⊎◌, inl, inr, some, none, ◌≢◌, ◌↔◌, ◌==◌,
  if◌then◌else◌, Bool-cases,
}
use mathlib.Core.Option.{some-injective}
use map.Common.Int.{pos, ◌+ℤ◌, ◌-ℤ◌, +ℤ_parts, -ℤ_parts, +ℤ_le, -ℤ_le}
use map.Memory.{Bytes, Endian, load16}
use map.Memory.Bound.{IsBytes, load16-lt}
use map.Memory.Words.{words_sum, double, words_sum-store16, length-store16}
use map.Checksum.Sum.{
  IsIpHeader, pseudo_header, pheader_wo-lt, pheader-lt, pheader_lem, pheader-pseudo_header,
}
use map.Checksum.{
  adjust, addcarry, complement16, Iov, proto_icmp, proto_icmp6, proto_tcp, proto_udp,
  acc_ip_pheader, acc_ip_pheader_wo_payload_len, pheader_payload_len, update_ulp, update66_ulp,
}
use map.Checksum.Carry.{
  IsInt32, addcarry-IsFolded, complement16-IsFolded, complement16-short, complement16-lt,
}

-- Taking `old` out of the checksum and putting `new` in balances an exchange of `old` for `new`
-- in what the checksum covers.
pub adjust-words_sum :
    (e : Endian) (k old new : ℕ) (ulp : Bytes)
    → IsBytes ulp
    → double k + 1 < length ulp
    → old < 2 ^ 30
    → new < 2 ^ 30
    → (words_sum e (adjust e (double k) old new ulp) + new) % 65535
      ≡ (words_sum e ulp + old) % 65535
unfolding adjust
adjust-words_sum e k old new ulp bytes room ho hn =
    let c = load16 e ulp (double k) in
    let c-lt : c < 65536 = load16-lt e ulp (double k) bytes in
    let t = complement16 (pos c) in
    let d = pos t -ℤ pos old in
    let s = d +ℤ pos new in
    let range : IsInt32 s =
      omega (arith, complement16-lt (pos c), -ℤ_le (pos t) (pos old), +ℤ_le d (pos new)) in
    let f = addcarry-IsFolded s range in
    omega (
      arith,
      words_sum-store16 e k (complement16 (addcarry s)) ulp room (complement16-lt _),
      f.congr,
      complement16-IsFolded f,
      complement16-short c c-lt,
      -ℤ_parts (pos t) (pos old),
      +ℤ_parts d (pos new),
    )

-- A ones' complement sum of zero: what a receiver asks of a packet.
abbrev pub IsBalanced : ℕ → Type 0
IsBalanced total = total % 65535 ≡ 0

-- What a receiver of TCP, UDP or ICMPv6 adds up: the pseudo header, the length word and the
-- segment.
abbrev pub covered : Endian → Bytes → ℕ → Bytes → ℕ
covered e hdr len segment = words_sum e (pseudo_header hdr) + len + words_sum e segment

-- The adjusted list differs from `iov` in the upper-layer bytes alone, which keep their length.
pub record IsAdjusted (e : Endian) (iov iov' : Iov) : Type 0 where
  pub others : iov' ≡ record iov { ulp = iov'.ulp }
  pub same_length : length iov'.ulp ≡ length iov.ulp

pub length-adjust :
    (e : Endian) (at old new : ℕ) (ulp : Bytes) → length (adjust e at old new ulp) ≡ length ulp
unfolding adjust
length-adjust e at old new ulp = length-store16 e ulp at _

-- Where the checksum of a TCP or UDP header stands, in words.
abbrev pub sum_word_at : ℕ → ℕ
sum_word_at ulp = if ulp == proto_tcp then 8 else 3

transport-adjust :
    (e : Endian) (k len : ℕ) (orig : Bytes) (iov : Iov)
    → IsIpHeader orig
    → IsIpHeader iov.ip
    → IsBytes iov.ulp
    → double k + 1 < length iov.ulp
    → IsBalanced (covered e orig len iov.ulp)
    → let old = acc_ip_pheader_wo_payload_len e orig in
      let new = acc_ip_pheader_wo_payload_len e iov.ip in
      IsBalanced (covered e iov.ip len (adjust e (double k) old new iov.ulp))
transport-adjust e k len orig iov ho hi bytes room valid = omega (
  arith,
  adjust-words_sum e k (acc_ip_pheader_wo_payload_len e orig)
      (acc_ip_pheader_wo_payload_len e iov.ip) iov.ulp bytes room
      (omega (arith, pheader_wo-lt e orig ho.0)) (omega (arith, pheader_wo-lt e iov.ip hi.0)),
  pheader-pseudo_header e orig ho,
  pheader-pseudo_header e iov.ip hi,
)

-- Between IPv4 and IPv6 in either direction, a TCP or UDP segment that checks out under the
-- incoming header checks out under the outgoing header after `cksum_update_ulp`.
pub update_ulp-transport :
    (e : Endian) (ulp len : ℕ) (orig : Bytes) (iov : Iov)
    → (ulp ≡ proto_tcp) ⊎ (ulp ≡ proto_udp)
    → IsIpHeader orig
    → IsIpHeader iov.ip
    → IsBytes iov.ulp
    → double (sum_word_at ulp) + 1 < length iov.ulp
    → IsBalanced (covered e orig len iov.ulp)
    → (iov' : Iov) × (update_ulp e ulp orig iov ≡ some iov')
      × IsAdjusted e iov iov'
      × IsBalanced (covered e iov.ip len iov'.ulp)
unfolding update_ulp
update_ulp-transport e ulp len orig iov (inl t) ho hi bytes room valid = (
  record iov { ulp = _ },
  rw t,
  record { others = refl; same_length = length-adjust e 16 _ _ iov.ulp },
  transport-adjust e 8 len orig iov ho hi bytes (rw t at room) valid,
)
update_ulp-transport e ulp len orig iov (inr t) ho hi bytes room valid = (
  record iov { ulp = _ },
  rw t,
  record { others = refl; same_length = length-adjust e 6 _ _ iov.ulp },
  transport-adjust e 3 len orig iov ho hi bytes (rw t at room) valid,
)

-- An ICMPv4 message whose words add up becomes an ICMPv6 message that checks out under the new
-- IPv6 header.
pub update_ulp-icmp6 :
    (e : Endian) (orig : Bytes) (iov : Iov)
    → IsIpHeader iov.ip
    → IsBytes iov.ulp
    → 4 ≤ length iov.ulp
    → IsBalanced (words_sum e iov.ulp)
    → (iov' : Iov) × (update_ulp e proto_icmp6 orig iov ≡ some iov')
      × IsAdjusted e iov iov'
      × IsBalanced (covered e iov.ip (pheader_payload_len e iov.ip) iov'.ulp)
unfolding update_ulp
update_ulp-icmp6 e orig iov hi bytes room valid = (
  record iov { ulp = _ },
  refl,
  record { others = refl; same_length = length-adjust e 2 0 (acc_ip_pheader e iov.ip) iov.ulp },
  omega (
    arith,
    adjust-words_sum e 1 0 (acc_ip_pheader e iov.ip) iov.ulp bytes (omega arith) (omega arith)
        (omega (arith, pheader-lt e iov.ip hi.0)),
    pheader_lem e iov.ip hi,
  ),
)

-- An ICMPv6 message that checks out under the incoming header becomes an ICMPv4 message whose
-- words add up.
pub update_ulp-icmp :
    (e : Endian) (orig : Bytes) (iov : Iov)
    → IsIpHeader orig
    → IsBytes iov.ulp
    → 4 ≤ length iov.ulp
    → IsBalanced (covered e orig (pheader_payload_len e orig) iov.ulp)
    → (iov' : Iov) × (update_ulp e proto_icmp orig iov ≡ some iov')
      × IsAdjusted e iov iov'
      × IsBalanced (words_sum e iov'.ulp)
unfolding update_ulp
update_ulp-icmp e orig iov ho bytes room valid = (
  record iov { ulp = _ },
  refl,
  record { others = refl; same_length = length-adjust e 2 _ _ iov.ulp },
  omega (
    arith,
    adjust-words_sum e 1 (acc_ip_pheader e orig) 0 iov.ulp bytes (omega arith)
        (omega (arith, pheader-lt e orig ho.0)) (omega arith),
    pheader_lem e orig ho,
  ),
)

-- The adjustment between two IPv6 headers differs from that between IPv4 and IPv6 on ICMPv6 alone.
pub update66_ulp-transport :
    (e : Endian) (ulp : ℕ) (orig : Bytes) (iov : Iov)
    → ulp ≢ proto_icmp6
    → update66_ulp e ulp orig iov ≡ update_ulp e ulp orig iov
unfolding update66_ulp update_ulp
update66_ulp-transport e ulp orig iov h = ground arith

-- IPv6 to IPv6: an ICMPv6 message that checks out under the incoming header checks out under
-- the outgoing header.
pub update66_ulp-icmp6 :
    (e : Endian) (orig : Bytes) (iov : Iov)
    → IsIpHeader orig
    → IsIpHeader iov.ip
    → IsBytes iov.ulp
    → 4 ≤ length iov.ulp
    → IsBalanced (covered e orig (pheader_payload_len e orig) iov.ulp)
    → (iov' : Iov) × (update66_ulp e proto_icmp6 orig iov ≡ some iov')
      × IsAdjusted e iov iov'
      × IsBalanced (covered e iov.ip (pheader_payload_len e iov.ip) iov'.ulp)
unfolding update66_ulp
update66_ulp-icmp6 e orig iov ho hi bytes room valid = (
  record iov { ulp = _ },
  refl,
  record { others = refl; same_length = length-adjust e 2 _ _ iov.ulp },
  omega (
    arith,
    adjust-words_sum e 1 (acc_ip_pheader e orig) (acc_ip_pheader e iov.ip) iov.ulp bytes
        (omega arith) (omega (arith, pheader-lt e orig ho.0))
        (omega (arith, pheader-lt e iov.ip hi.0)),
    pheader_lem e orig ho,
    pheader_lem e iov.ip hi,
  ),
)

-- Any other protocol is refused, in both directions alike.
pub update_ulp-eq-none :
    (e : Endian) (ulp : ℕ) (orig : Bytes) (iov : Iov)
    → (update_ulp e ulp orig iov ≡ none)
      ↔ ((ulp ≢ proto_icmp) × (ulp ≢ proto_icmp6) × (ulp ≢ proto_tcp) × (ulp ≢ proto_udp))
unfolding update_ulp
update_ulp-eq-none e ulp orig iov = ground arith

some-IsAdjusted :
    (e : Endian) (at old new : ℕ) (iov iov' : Iov)
    → some (record iov { ulp = adjust e at old new iov.ulp }) ≡ some iov'
    → IsAdjusted e iov iov'
some-IsAdjusted e at old new iov iov' h =
    rw (← some-injective _ _ h)
      (record { others = refl; same_length = length-adjust e at old new iov.ulp })

-- Whatever the protocol, a list that is returned differs in the upper-layer bytes alone.
pub update_ulp-IsAdjusted :
    (e : Endian) (ulp : ℕ) (orig : Bytes) (iov iov' : Iov)
    → update_ulp e ulp orig iov ≡ some iov'
    → IsAdjusted e iov iov'
unfolding update_ulp
update_ulp-IsAdjusted e ulp orig iov iov' h = elim (Bool-cases (ulp == proto_icmp)) [
  | inl a ↦ some-IsAdjusted e 2 _ _ iov iov' (rw (a, update_ulp) at h)
  | inr a ↦ elim (Bool-cases (ulp == proto_icmp6)) [
    | inl b ↦ some-IsAdjusted e 2 _ _ iov iov' (rw (a, b, update_ulp) at h)
    | inr b ↦ elim (Bool-cases (ulp == proto_tcp)) [
      | inl c ↦ some-IsAdjusted e 16 _ _ iov iov' (rw (a, b, c, update_ulp) at h)
      | inr c ↦ elim (Bool-cases (ulp == proto_udp)) [
        | inl d ↦ some-IsAdjusted e 6 _ _ iov iov' (rw (a, b, c, d, update_ulp) at h)
        | inr d ↦ let failed = rw (a, b, c, d, update_ulp) at h in absurd (cc)
      ]
    ]
  ]
]
