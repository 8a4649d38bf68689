-- ===== src/Packet/SixToFour.antt =====
-- map646.cpp: `send_6to4`.
use map.Checksum.{Iov, proto_icmp6, proto_tcp, proto_udp, update_ulp}
use map.Common.Bits.{bit_or}
use map.Common.{
  ℕ, zero, suc, ◌+◌, ◌-◌, ◌*◌, ◌/◌, ◌%◌, ◌^◌, Bool, true, false, not, ◌&&◌, ◌||◌, Option, none,
  some, List, [], ◌∷◌, ◌++◌, ◌==◌, ltb, if◌then◌else◌, set, drop,
}
use map.Icmpsub.Process.{process_icmp6}
use map.Icmpsub.{
  Rate, check_sending_rate, convert_icmp, icmp6_message, load_network32, tun_header, summed,
}
use map.Mapping.{Tables, convert_addrs_6to4}
use map.Memory.{Bytes, Endian, load8, slice, htons}
use map.Packet.{Moment, Result, hdr4, load_network16, drop_packet, limited, after_icmp}
use map.Packet.FourToSix.{Piece, proto_fragment}
use map.Pmtudisc.{Cache, get_path_mtu_size}
use map.Tunif.{af_inet}

-- The variables that are read from the IPv6 header and the Fragment header. `start` is where
-- `packetp` points in the end, and `fragmented` says that `ip6_frag_hdrp` is not NULL.
pub record Fields6 : Type 0 where
  pub next_header : ℕ
  pub payload_len : ℕ
  pub hop_limit : ℕ
  pub fragmented : Bool
  pub more_frag : Bool
  pub offset : ℕ
  pub id : ℕ
  pub start : ℕ

unfoldable pub analyze6 : Bytes → Fields6
analyze6 pkt =
    if load8 pkt 6 == proto_fragment
    then (record {
      next_header = load8 pkt 40;
      payload_len = (load_network16 pkt 4 + 65536 - 8) % 65536;
      hop_limit = load8 pkt 7;
      fragmented = true;
      more_frag = load_network16 pkt 42 % 2 == 1;
      offset = load_network16 pkt 42 / 8 * 8;
      id = load_network32 pkt 44;
      start = 48;
    })
    else (record {
      next_header = load8 pkt 6;
      payload_len = load_network16 pkt 4;
      hop_limit = load8 pkt 7;
      fragmented = false;
      more_frag = false;
      offset = 0;
      id = 0;
      start = 40;
    })

-- The next headers that are not dropped.
unfoldable pub is_supported : ℕ → Bool
is_supported nxt = nxt == proto_icmp6 || (nxt == proto_tcp || nxt == proto_udp)

-- IP_DF.
abbrev pub ip_df : ℕ
ip_df = 0x4000

-- The first half of the loop's body. `off` is `ip_off` in the order of the host, as the round before
-- left it.
unfoldable pub piece4 : Fields6 → ℕ → ℕ → ℕ → Piece
piece4 f unit left off =
    let more = bit_or off 0x2000 in
    let final = not (ltb unit left) in
    let flags = if final && not f.more_frag then more - more / 8192 % 2 * 8192 else more in
    let at = f.payload_len - left in
    record {
      at = at;
      len = if final then left else unit;
      offlg = bit_or flags ((f.offset + at) / 8 % 65536);
    }

-- The conversion of an ICMPv6 message and the checksum's adjustment. The next header of the incoming
-- packet is written before that.
unfoldable pub translate4 : Endian → Bytes → ℕ → Iov → Option Iov
translate4 e pkt next_header iov =
    let converted =
      if next_header == proto_icmp6 then convert_icmp e proto_icmp6 iov else some iov in
    elim converted [
      | none ↦ none
      | some iov' ↦ elim (update_ulp e (load8 iov'.ip 9) (set pkt 6 next_header) iov') [
        | none ↦ some iov'
        | some iov'' ↦ some iov''
      ]
    ]

-- The scatter list before the checksums, with the total length that the header has then.
unfoldable pub list4 : Endian → Fields6 → Bytes → Bytes → ℕ → ℕ → ℕ → ℕ → Bytes → Iov
list4 e f src dst len id off proto payload = record {
  af = tun_header e af_inet;
  ip = hdr4 len id off f.hop_limit proto src dst;
  frag = none;
  ulp = payload;
  payload = none;
}

-- The second half of the loop's body; `len` and `proto` are what the header holds from the round
-- before, and `proto` is set by a conversion. The checksum that the header holds is not read.
unfoldable pub fragment4 : Endian → Bytes → Fields6 → Bytes → Bytes → ℕ → ℕ → ℕ → Piece → Option Iov
fragment4 e pkt f src dst id len proto p =
    let iov = list4 e f src dst len id p.offlg proto (slice (drop f.start pkt) p.at p.len) in
    let translated = if p.offlg % 8192 == 0 then translate4 e pkt f.next_header iov else some iov in
    elim translated [
      | none ↦ none
      | some iov' ↦ some (record iov' {
        ip = summed e (hdr4 (p.len + 20) id p.offlg f.hop_limit (load8 iov'.ip 9) src dst);
      })
    ]

-- The loop.
unfoldable pub fragments4 :
    Endian → Bytes → Fields6 → Bytes → Bytes → ℕ → ℕ → ℕ → ℕ → ℕ → ℕ → ℕ → List Iov
fragments4 e pkt f src dst id unit zero left off len proto = []
fragments4 e pkt f src dst id unit (suc count) left off len proto =
    let p = piece4 f unit left off in
    let rest = fragments4 e pkt f src dst id unit count (left - p.len) p.offlg (p.len + 20) in
    elim (fragment4 e pkt f src dst id len proto p) [
      | none ↦ []
      | some iov ↦ iov ∷ rest (load8 iov.ip 9)
    ]

-- The branch of a packet that is too large.
unfoldable pub large4 :
    Endian → Moment → Bytes → Fields6 → Bytes → Bytes → ℕ → Cache → Rate → Result
large4 e m pkt f src dst mtu cache rate =
    let message = icmp6_message e pkt (slice pkt 24 16) (slice pkt 8 16) mtu in
    let (sent, rate') = limited (check_sending_rate m.checked rate) message in
    let unit = (mtu - 20) / 8 * 8 in
    let id = if f.id == 0 then htons e m.random else f.id % 65536 in
    let count = f.payload_len / unit + 1 in
    record {
      ok = true;
      cache = cache;
      rate = rate';
      packets =
          sent
          ++ fragments4 e pkt f src dst id unit count f.payload_len ip_df (f.payload_len + 20)
              f.next_header;
    }

-- `ip_off` of a packet that fits.
unfoldable pub single_off : Fields6 → ℕ
single_off f =
    let more = if f.more_frag then bit_or ip_df 0x2000 else ip_df in
    if f.fragmented then bit_or more (f.offset / 8) else ip_df

-- The branch of a packet that fits; `none` is the early return.
unfoldable pub small4 : Endian → Bytes → Fields6 → Bytes → Bytes → Option Iov
small4 e pkt f src dst =
    let off = single_off f in
    let iov =
      list4 e f src dst (f.payload_len + 20) (f.id % 65536) off f.next_header
        (slice (drop f.start pkt) 0 f.payload_len) in
    let translated = if off % 8192 == 0 then translate4 e pkt f.next_header iov else some iov in
    if f.fragmented && f.next_header == proto_icmp6
    then none
    else elim translated [ none ↦ none | some iov' ↦ some (record iov' { ip = summed e iov'.ip }) ]

-- `send_6to4` from the conversion of the addresses on.
unfoldable pub forward4 : Endian → Tables → Moment → Bytes → Fields6 → Cache → Rate → Result
forward4 e t m pkt f cache rate =
    let addrs = convert_addrs_6to4 e t (slice pkt 8 16) (some (slice pkt 24 16)) in
    elim addrs.0 [
      | none ↦ drop_packet false cache rate
      | some src ↦ elim addrs.1 [
        | none ↦ drop_packet false cache rate
        | some dst ↦
            let (mtu, cache') = get_path_mtu_size e m.looked_up af_inet dst cache in
            if ltb (mtu - 20) f.payload_len
            then large4 e m pkt f src dst mtu cache' rate
            else elim (small4 e pkt f src dst) [
              | none ↦ drop_packet true cache' rate
              | some iov ↦ record { ok = true; cache = cache'; rate = rate; packets = iov ∷ [] }
            ]
      ]
    ]

-- The checks after the ICMP handling.
unfoldable pub checked4 : Endian → Tables → Moment → Bytes → ℕ → Cache → Rate → Result
checked4 e t m pkt data_len cache rate =
    let f = analyze6 pkt in
    if not (is_supported f.next_header)
    then drop_packet true cache rate
    else if ltb data_len (f.payload_len + 40)
    then drop_packet false cache rate
    else forward4 e t m pkt f cache rate

-- The size of an ICMPv6 message, the difference of two `size_t`.
abbrev pub icmp6_size : ℕ → ℕ
icmp6_size data_len = (data_len + 2 ^ 64 - 40) % 2 ^ 64

-- `send_6to4`.
unfoldable pub send_6to4 : Endian → Tables → Moment → Bytes → ℕ → Cache → Rate → Option Result
send_6to4 e t m pkt data_len cache rate =
    if load8 pkt 6 == proto_icmp6
    then after_icmp (process_icmp6 e t m.turn (drop 40 pkt) (icmp6_size data_len) cache rate)
        (checked4 e t m pkt data_len)
    else some (checked4 e t m pkt data_len cache rate)
