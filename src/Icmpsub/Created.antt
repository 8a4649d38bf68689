-- ===== src/Icmpsub/Created.antt =====
-- The messages that are made: their checksums are right, and they carry the MTU and the addresses.
use map.Checksum.Calc.{calc_ip4_header-IsBalanced, calc_ulp-icmp}
use map.Checksum.Update.{IsBalanced}
use map.Checksum.{Iov, proto_icmp, ip_header_len, calc_ip4_header, calc_ulp}
use map.Common.{
  ℕ, zero, suc, ◌+◌, ◌^◌, ◌≤◌, ◌<◌, ◌≡◌, refl, ap, ◌∙◌, sym, none, some, [], ◌∷◌, ◌++◌, arith,
  length, set, take, replicate, length-append, length-take,
}
use map.Icmpsub.Process.{extract_mtu4, extract_mtu6}
use map.Icmpsub.{
  ip4_header, summed, create_icmp4_unreach_needfrag, create_icmp6_packet_too_big, with_checksum,
  icmp4_message, tun_header,
}
use map.Tunif.{af_inet}
use map.Memory.Bound.{IsBytes, store16-IsBytes, set-IsBytes, take-IsBytes}
use map.Memory.Words.{words_sum, length-store16, take-length}
use map.Memory.{Bytes, Endian, little, big, htons, load16, store16, word, first_byte, second_byte}

-- An ICMPv6 Packet Too Big message that is made with an MTU from 1280 on, of less than 31 bits, is
-- read back with the MTU.
pub extract_mtu6-create_icmp6_packet_too_big :
    (mtu : ℕ) (rest : Bytes)
    → 1280 ≤ mtu
    → mtu < 2 ^ 31
    → extract_mtu6 (create_icmp6_packet_too_big mtu ++ rest) ≡ mtu
unfolding extract_mtu6 create_icmp6_packet_too_big
extract_mtu6-create_icmp6_packet_too_big mtu rest h k = ground arith

-- An ICMPv4 message of a needed fragmentation that is made with an MTU from 68 to 65535 is read back
-- with the MTU.
pub extract_mtu4-create_icmp4_unreach_needfrag :
    (e : Endian) (mtu : ℕ) (rest : Bytes)
    → 68 ≤ mtu
    → mtu < 65536
    → extract_mtu4 e (create_icmp4_unreach_needfrag e mtu ++ rest) ≡ mtu
unfolding extract_mtu4 create_icmp4_unreach_needfrag store16 load16 word first_byte second_byte
    htons
extract_mtu4-create_icmp4_unreach_needfrag little mtu rest h k = ground arith
extract_mtu4-create_icmp4_unreach_needfrag big mtu rest h k = ground arith

pub append-IsBytes : (xs ys : Bytes) → IsBytes xs → IsBytes ys → IsBytes (xs ++ ys)
append-IsBytes [] ys hx hy = hy
append-IsBytes (x ∷ xs) ys hx hy = (hx.0, append-IsBytes xs ys hx.1 hy)

zeros-IsBytes : (n : ℕ) → IsBytes (replicate n 0)
zeros-IsBytes zero = tt
zeros-IsBytes (suc n) = (omega arith, zeros-IsBytes n)

pub word_zero : (e : Endian) → word e 0 0 ≡ 0
unfolding word
word_zero little = refl
word_zero big = refl

abbrev pub IsAddr4 : Bytes → Type 0
IsAddr4 addr = IsBytes addr × (length addr ≡ 4)

-- A header of 20 bytes with a zero checksum gets one that makes its sum zero.
pub summed_lem :
    (e : Endian) (hdr : Bytes)
    → IsBytes hdr
    → length hdr ≡ 20
    → ip_header_len hdr ≡ 20
    → load16 e hdr 10 ≡ 0
    → IsBalanced (words_sum e (summed e hdr))
unfolding summed
summed_lem e hdr bytes size hlen clear =
    let whole =
      calc_ip4_header-IsBalanced e hdr bytes (rw hlen (omega arith)) (rw (hlen, size) (omega arith))
        clear in
    let cut = rw hlen at whole in
    let written = store16 e hdr 10 (calc_ip4_header e hdr) in
    let full : 20 ≡ length written = sym (length-store16 e hdr 10 _ ∙ size) in
    rw (ap (λ n. take n written) full ∙ take-length written) at cut

module _ (e : Endian) (ip_len proto : ℕ) (src dst : Bytes) (p : proto < 256) (hs : IsAddr4 src)
    (hd : IsAddr4 dst) where
  hdr : Bytes
  hdr = ip4_header e ip_len proto src dst

  hdr-IsBytes : IsBytes hdr
  unfolding hdr ip4_header store16
  hdr-IsBytes =
      let first : Bytes = set (replicate 12 0) 0 0x45 in
      let versioned : Bytes = store16 e first 2 (htons e ip_len) in
      let first-IsBytes = set-IsBytes (replicate 12 0) 0 0x45 (zeros-IsBytes 12) (omega arith) in
      let lived =
        set-IsBytes versioned 8 64 (store16-IsBytes e first 2 (htons e ip_len) first-IsBytes)
          (omega arith) in
      append-IsBytes (set (set versioned 8 64) 9 proto) (take 4 src ++ take 4 dst)
        (set-IsBytes (set versioned 8 64) 9 proto lived p)
        (append-IsBytes (take 4 src) (take 4 dst) (take-IsBytes 4 src hs.0)
          (take-IsBytes 4 dst hd.0))

  pub summed-IsBytes : IsBytes (summed e (ip4_header e ip_len proto src dst))
  unfolding hdr summed
  summed-IsBytes = store16-IsBytes e hdr 10 (calc_ip4_header e hdr) hdr-IsBytes

  length-hdr : length hdr ≡ 20
  unfolding hdr ip4_header store16
  length-hdr = omega (
    arith,
    length-append (take 4 src) (take 4 dst),
    length-take 4 src,
    length-take 4 dst,
    hs.1,
    hd.1,
  )

  hdr-ip_header_len : ip_header_len hdr ≡ 20
  unfolding hdr ip4_header store16
  hdr-ip_header_len = refl

  hdr_clear : load16 e hdr 10 ≡ 0
  unfolding hdr ip4_header store16 load16 word
  hdr_clear = word_zero e

  -- The header that is made, with its checksum, has a zero sum.
  pub summed-IsBalanced : IsBalanced (words_sum e (summed e (ip4_header e ip_len proto src dst)))
  unfolding hdr
  summed-IsBalanced = summed_lem e hdr hdr-IsBytes length-hdr hdr-ip_header_len hdr_clear

create_icmp4-IsBytes :
    (e : Endian) (mtu : ℕ)
    → IsBytes (create_icmp4_unreach_needfrag e mtu)
      × (length (create_icmp4_unreach_needfrag e mtu) ≡ 8)
unfolding create_icmp4_unreach_needfrag
create_icmp4-IsBytes e mtu =
    let typed : Bytes = set (set (replicate 8 0) 0 3) 1 4 in
    let typed-IsBytes =
      set-IsBytes (set (replicate 8 0) 0 3) 1 4
        (set-IsBytes (replicate 8 0) 0 3 (zeros-IsBytes 8) (omega arith)) (omega arith) in
    (store16-IsBytes e typed 6 (htons e mtu) typed-IsBytes, length-store16 e typed 6 (htons e mtu))

with_checksum-some :
    (e : Endian) (ulp : ℕ) (iov iov' : Iov)
    → calc_ulp e ulp iov ≡ some iov'
    → with_checksum e ulp iov ≡ iov'
unfolding with_checksum
with_checksum-some e ulp iov iov' h = rw (h, with_checksum) refl

-- The ICMPv4 message that is made for two IPv4 addresses has right checksums: the IPv4 header has a
-- zero sum, and so has the message with the 20 bytes of the original header, whatever the MTU.
pub icmp4_message-IsBalanced :
    (e : Endian) (in_pkt local remote : Bytes) (mtu : ℕ)
    → IsBytes in_pkt
    → IsAddr4 local
    → IsAddr4 remote
    → let message = icmp4_message e in_pkt local remote mtu in
      IsBalanced (words_sum e message.ip)
      × IsBalanced (words_sum e message.ulp + words_sum e (take 20 in_pkt))
unfolding icmp4_message
icmp4_message-IsBalanced e in_pkt local remote mtu bytes hl hr =
    let original = take 20 in_pkt in
    let made : Iov = record {
      af = tun_header e af_inet;
      ip = summed e (ip4_header e 48 proto_icmp local remote);
      frag = none;
      ulp = create_icmp4_unreach_needfrag e mtu;
      payload = some original;
    } in
    let room = create_icmp4-IsBytes e mtu in
    let (sent, calculated, same, balanced) =
      calc_ulp-icmp e made original room.0 (take-IsBytes 20 in_pkt bytes) (omega (arith, room.1))
        (omega (arith, room.1, length-take 20 in_pkt)) refl in
    let header = ap (λ m. words_sum e m.ip) same in
    rw (with_checksum-some e proto_icmp made sent calculated)
      (rw header (summed-IsBalanced e 48 proto_icmp local remote (omega arith) hl hr), balanced)
