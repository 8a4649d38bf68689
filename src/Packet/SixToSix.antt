-- ===== src/Packet/SixToSix.antt =====
-- map646.cpp: `send66_ItoG` and `send66_GtoI`, which differ in the conversion of the addresses. A
-- Fragment header is skipped and is not written, while the payload length is copied.
use map.Checksum.{Iov, proto_icmp6, update66_ulp}
use map.Common.{
  ℕ, ◌+◌, true, false, not, Option, none, some, [], ◌∷◌, ◌==◌, ltb, if◌then◌else◌, drop,
}
use map.Icmpsub.Process.{process_icmp6}
use map.Icmpsub.{Rate, tun_header}
use map.Mapping.{Tables, convert_addrs_gtoi, convert_addrs_itog}
use map.Memory.{Bytes, Endian, load8, slice}
use map.Packet.SixToFour.{Fields6, analyze6, is_supported, icmp6_size}
use map.Packet.{Moment, Result, hdr6, load_network16, drop_packet, after_icmp}
use map.Pmtudisc.{Cache}
use map.Tunif.{af_inet6}

-- `mapping66_convert_addrs_ItoG` or `mapping66_convert_addrs_GtoI`.
abbrev pub Convert66 : Type 0
Convert66 = Endian → Tables → Bytes → Bytes → Option (Bytes × Bytes)

-- The packet that is written. -1 of `cksum66_update_ulp` is not looked at.
unfoldable pub list66 : Endian → Bytes → Fields6 → Bytes → Bytes → Iov
list66 e pkt f src dst =
    let iov : Iov = record {
      af = tun_header e af_inet6;
      ip = hdr6 (load_network16 pkt 4) f.next_header f.hop_limit src dst;
      frag = none;
      ulp = slice (drop f.start pkt) 0 f.payload_len;
      payload = none;
    } in
    elim (update66_ulp e f.next_header pkt iov) [ none ↦ iov | some iov' ↦ iov' ]

-- Both functions after the ICMP handling.
unfoldable pub checked66 : Convert66 → Endian → Tables → Bytes → ℕ → Cache → Rate → Result
checked66 convert e t pkt data_len cache rate =
    let f = analyze6 pkt in
    if not (is_supported f.next_header)
    then drop_packet true cache rate
    else if ltb data_len (f.payload_len + 40)
    then drop_packet false cache rate
    else elim (convert e t (slice pkt 8 16) (slice pkt 24 16)) [
      | none ↦ drop_packet false cache rate
      | some addrs ↦ record {
        ok = true;
        cache = cache;
        rate = rate;
        packets = list66 e pkt f addrs.0 addrs.1 ∷ [];
      }
    ]

unfoldable pub send66 :
    Convert66 → Endian → Tables → Moment → Bytes → ℕ → Cache → Rate → Option Result
send66 convert e t m pkt data_len cache rate =
    if load8 pkt 6 == proto_icmp6
    then after_icmp (process_icmp6 e t m.turn (drop 40 pkt) (icmp6_size data_len) cache rate)
        (checked66 convert e t pkt data_len)
    else some (checked66 convert e t pkt data_len cache rate)

-- The call of `mapping66_convert_addrs_ItoG` with a destination that is not NULL.
unfoldable pub convert_itog : Convert66
convert_itog e t src dst = elim (convert_addrs_itog e t src (some dst)) [
  | none ↦ none
  | some addrs ↦ elim addrs.1 [ none ↦ none | some dst' ↦ some (addrs.0, dst') ]
]

-- `send66_ItoG`.
unfoldable pub send66_itog : Endian → Tables → Moment → Bytes → ℕ → Cache → Rate → Option Result
send66_itog = send66 convert_itog

-- `send66_GtoI`.
unfoldable pub send66_gtoi : Endian → Tables → Moment → Bytes → ℕ → Cache → Rate → Option Result
send66_gtoi = send66 convert_addrs_gtoi
