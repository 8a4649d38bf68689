-- ===== src/Icmpsub/Needfrag.antt =====
-- The ICMPv4 message about a packet that an IPv6 router found too big, byte by byte.
use map.Checksum.Update.{IsBalanced}
use map.Checksum.{Iov, proto_tcp, calc_ulp}
use map.Common.{ℕ, ◌+◌, ◌*◌, ◌%◌, ◌≡◌, refl, some, [], ◌∷◌, arith, take, length}
use map.Icmpsub.Created.{IsAddr4, icmp4_message-IsBalanced, summed-IsBytes}
use map.Icmpsub.{icmp4_message, ip4_header, summed, create_icmp4_unreach_needfrag, with_checksum}
use map.Memory.Words.{words_sum}
use map.Memory.{Bytes, Endian, little, big, load8, slice, store16, htons, first_byte, second_byte}

-- A Destination Unreachable message about a packet from `src` to `dst`, to `src` and in the name of
-- `dst`: a header of 20 bytes for 48, the MTU in the field of 16 bits, cut to them, a header with the
-- two addresses behind the message, and checksums by which the header and the message have a zero
-- sum.
pub record IsNeedfrag (e : Endian) (src dst : Bytes) (mtu : ℕ) (message : Iov) : Type 0 where
  pub version : load8 message.ip 0 ≡ 69
  pub total_length : load8 message.ip 2 * 256 + load8 message.ip 3 ≡ 48
  pub protocol : load8 message.ip 9 ≡ 1
  pub from : slice message.ip 12 4 ≡ dst
  pub to : slice message.ip 16 4 ≡ src
  pub unreachable : load8 message.ulp 0 ≡ 3
  pub needs_fragmentation : load8 message.ulp 1 ≡ 4
  pub next_mtu : load8 message.ulp 6 * 256 + load8 message.ulp 7 ≡ mtu % 65536
  pub quoted :
      (header : Bytes) × (message.payload ≡ some header)
      × (slice header 12 4 ≡ src)
      × (slice header 16 4 ≡ dst)
      × IsBalanced (words_sum e message.ulp + words_sum e header)
  pub header_sum : IsBalanced (words_sum e message.ip)

-- The message that is sent.
abbrev pub needfrag_about : Endian → Bytes → Bytes → ℕ → Iov
needfrag_about e src dst mtu =
    icmp4_message e (summed e (ip4_header e 20 proto_tcp src dst)) dst src mtu

-- The fields, but for the sums.
abbrev IsFilled : Bytes → Bytes → Bytes → ℕ → Iov → Type 0
IsFilled header src dst mtu message =
    (load8 message.ip 0 ≡ 69)
    × (load8 message.ip 2 * 256 + load8 message.ip 3 ≡ 48)
    × (load8 message.ip 9 ≡ 1)
    × (slice message.ip 12 4 ≡ dst)
    × (slice message.ip 16 4 ≡ src)
    × (load8 message.ulp 0 ≡ 3)
    × (load8 message.ulp 1 ≡ 4)
    × (load8 message.ulp 6 * 256 + load8 message.ulp 7 ≡ mtu % 65536)
    × (message.payload ≡ some header)
    × (slice header 12 4 ≡ src)
    × (slice header 16 4 ≡ dst)

abbrev quoted_header : Endian → Bytes → Bytes → Bytes
quoted_header e src dst = take 20 (summed e (ip4_header e 20 proto_tcp src dst))

needfrag_about-IsFilled :
    (e : Endian) (src dst : Bytes) (mtu : ℕ)
    → length src ≡ 4
    → length dst ≡ 4
    → IsFilled (quoted_header e src dst) src dst mtu (needfrag_about e src dst mtu)
unfolding icmp4_message with_checksum calc_ulp summed ip4_header create_icmp4_unreach_needfrag
    store16 first_byte second_byte htons
needfrag_about-IsFilled little (a ∷ b ∷ c ∷ d ∷ []) (i ∷ j ∷ k ∷ l ∷ []) mtu hs hd =
    (refl, refl, refl, refl, refl, refl, refl, omega arith, refl, refl, refl)
needfrag_about-IsFilled big (a ∷ b ∷ c ∷ d ∷ []) (i ∷ j ∷ k ∷ l ∷ []) mtu hs hd =
    (refl, refl, refl, refl, refl, refl, refl, omega arith, refl, refl, refl)
needfrag_about-IsFilled e src dst mtu hs hd = absurd (omega arith)

pub needfrag_about-IsNeedfrag :
    (e : Endian) (src dst : Bytes) (mtu : ℕ)
    → IsAddr4 src
    → IsAddr4 dst
    → IsNeedfrag e src dst mtu (needfrag_about e src dst mtu)
needfrag_about-IsNeedfrag e src dst mtu hs hd =
    let inner = summed e (ip4_header e 20 proto_tcp src dst) in
    let (version, size, protocol, from, to, type, code, field, payload, of_src, of_dst) =
      needfrag_about-IsFilled e src dst mtu hs.1 hd.1 in
    let (header, message) =
      icmp4_message-IsBalanced e inner dst src mtu
        (summed-IsBytes e 20 proto_tcp src dst (omega arith) hs hd) hd hs in
    record {
      version = version;
      total_length = size;
      protocol = protocol;
      from = from;
      to = to;
      unreachable = type;
      needs_fragmentation = code;
      next_mtu = field;
      quoted = (quoted_header e src dst, payload, of_src, of_dst, message);
      header_sum = header;
    }
