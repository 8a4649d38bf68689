-- ===== src/Packet/FourToSix.antt =====
-- map646.cpp: `send_4to6`. The fragments of one packet read the payload from the packet itself; what
-- the conversion of the first one writes lies before the bytes of the next.
use map.Checksum.{Iov, proto_icmp, proto_icmp6, ip_header_len, update_ulp}
use map.Common.Bits.{bit_or}
use map.Common.{
  ℕ, zero, suc, ◌+◌, ◌-◌, ◌*◌, ◌/◌, ◌%◌, Bool, true, false, not, ◌&&◌, ◌||◌, Option, none, some,
  List, [], ◌∷◌, ◌++◌, ◌==◌, ltb, if◌then◌else◌, set, drop,
}
use map.Icmpsub.Process.{process_icmp4}
use map.Icmpsub.{Rate, check_sending_rate, convert_icmp, icmp4_message, network32, tun_header}
use map.Mapping.{Tables, convert_addrs_4to6}
use map.Memory.{Bytes, Endian, load8, slice}
use map.Packet.{Moment, Result, hdr6, network16, load_network16, drop_packet, limited, after_icmp}
use map.Pmtudisc.{Cache, get_path_mtu_size}
use map.Tunif.{af_inet6}

-- IPPROTO_FRAGMENT.
abbrev pub proto_fragment : ℕ
proto_fragment = 44

-- The variables that are read from the IPv4 header.
pub record Fields4 : Type 0 where
  pub plen : ℕ
  pub ttl : ℕ
  pub proto : ℕ
  pub id : ℕ
  pub offset : ℕ
  pub more_frag : Bool

unfoldable pub analyze4 : Bytes → Fields4
analyze4 pkt = record {
  plen = (load_network16 pkt 2 + 65536 - 20) % 65536;
  ttl = load8 pkt 8;
  proto = load8 pkt 9;
  id = load_network16 pkt 4;
  offset = load_network16 pkt 6 % 8192;
  more_frag = load_network16 pkt 6 / 8192 % 2 == 1;
}

-- What the loop decides for a fragment: `relative_offset`, `frag_plen`, and `ip6f_offlg` in the
-- order of the host.
pub record Piece : Type 0 where
  pub at : ℕ
  pub len : ℕ
  pub offlg : ℕ

-- The first half of the loop's body. `offlg` still holds what the round before left.
unfoldable pub piece6 : Fields4 → ℕ → ℕ → ℕ → Piece
piece6 f unit left offlg =
    let more = bit_or offlg 1 in
    let final = not (ltb unit left) in
    let flags = if final && not f.more_frag then more - more % 2 else more in
    let at = f.plen - left in
    record {
      at = at;
      len = if final then left else unit;
      offlg = bit_or flags ((f.offset * 8 + at) % 65536);
    }

-- The checksum's adjustment for a piece with an upper-layer header: an ICMP message is converted
-- before, and `none` is the return when that fails.
unfoldable pub translate6 : Endian → Bytes → ℕ → Iov → Option Iov
translate6 e pkt proto iov =
    let converted = if proto == proto_icmp then convert_icmp e proto_icmp iov else some iov in
    elim converted [
      | none ↦ none
      | some iov' ↦ elim (update_ulp e (load8 iov'.ip 6) pkt iov') [
        | none ↦ some iov'
        | some iov'' ↦ some iov''
      ]
    ]

-- A Fragment header in front of the payload, and the lengths adjusted to it.
unfoldable pub with_fragment : ℕ → ℕ → ℕ → Fields4 → Bytes → Bytes → Iov → Iov
with_fragment len offlg ident f src dst iov =
    let nxt = load8 iov.ip 6 in
    record iov {
      ip = hdr6 (len + 8) proto_fragment f.ttl src dst;
      frag = some (nxt ∷ 0 ∷ (network16 offlg ++ network32 ident));
    }

-- The scatter list before the checksum is adjusted, with the length of the whole payload.
unfoldable pub list6 : Endian → Fields4 → Bytes → Bytes → Bytes → Iov
list6 e f src dst payload = record {
  af = tun_header e af_inet6;
  ip = hdr6 f.plen f.proto f.ttl src dst;
  frag = none;
  ulp = payload;
  payload = none;
}

-- The second half of the loop's body.
unfoldable pub fragment6 : Endian → Bytes → Fields4 → Bytes → Bytes → ℕ → Piece → Option Iov
fragment6 e pkt f src dst ident p =
    let iov = list6 e f src dst (slice (drop 20 pkt) p.at p.len) in
    let rest =
      if f.proto == proto_icmp then record iov { ip = set iov.ip 6 proto_icmp6 } else iov in
    let translated = if p.offlg / 8 == 0 then translate6 e pkt f.proto iov else some rest in
    elim translated [
      | none ↦ none
      | some iov' ↦ some (with_fragment p.len p.offlg ident f src dst iov')
    ]

-- The loop.
unfoldable pub fragments6 : Endian → Bytes → Fields4 → Bytes → Bytes → ℕ → ℕ → ℕ → ℕ → ℕ → List Iov
fragments6 e pkt f src dst ident unit zero left offlg = []
fragments6 e pkt f src dst ident unit (suc count) left offlg =
    let p = piece6 f unit left offlg in
    let rest = fragments6 e pkt f src dst ident unit count (left - p.len) p.offlg in
    elim (fragment6 e pkt f src dst ident p) [ none ↦ [] | some iov ↦ iov ∷ rest ]

-- The branch of a packet that is too large: `room` is the MTU less the two headers.
unfoldable pub large6 :
    Endian → Moment → Bytes → Fields4 → Bytes → Bytes → ℕ → Cache → Rate → Result
large6 e m pkt f src dst room cache rate =
    let message = icmp4_message e pkt (slice pkt 16 4) (slice pkt 12 4) room in
    let (sent, rate') = limited (check_sending_rate m.checked rate) message in
    let unit = room / 8 * 8 in
    let ident = if f.id == 0 then m.random else f.id in
    let count = f.plen / unit + 1 in
    record {
      ok = true;
      cache = cache;
      rate = rate';
      packets = sent ++ fragments6 e pkt f src dst ident unit count f.plen 0;
    }

-- The branch of a packet that fits; `none` is the early return.
unfoldable pub small6 : Endian → Bytes → Fields4 → Bytes → Bytes → Option Iov
small6 e pkt f src dst =
    let is_frag = f.more_frag || not (f.offset == 0) in
    let iov = list6 e f src dst (slice (drop 20 pkt) 0 f.plen) in
    let translated = if f.offset == 0 then translate6 e pkt f.proto iov else some iov in
    if is_frag && f.proto == proto_icmp then none else elim translated [
      | none ↦ none
      | some iov' ↦
          if is_frag
          then some (
              with_fragment f.plen (bit_or (if f.more_frag then 1 else 0) (f.offset * 8)) f.id f src
                dst iov')
          else some iov'
    ]

-- `send_4to6` from the conversion of the addresses on.
unfoldable pub forward6 : Endian → Tables → Moment → Bytes → Fields4 → Cache → Rate → Result
forward6 e t m pkt f cache rate = elim (convert_addrs_4to6 e t (slice pkt 12 4) (slice pkt 16 4)) [
  | none ↦ drop_packet true cache rate
  | some addrs ↦
      let src = addrs.0 in
      let dst = addrs.1 in
      let (mtu, cache') = get_path_mtu_size e m.looked_up af_inet6 dst cache in
      if ltb (mtu - 48) f.plen
      then large6 e m pkt f src dst (mtu - 48) cache' rate
      else elim (small6 e pkt f src dst) [
        | none ↦ drop_packet true cache' rate
        | some iov ↦ record { ok = true; cache = cache'; rate = rate; packets = iov ∷ [] }
      ]
]

-- `send_4to6`; `none` is a failed assertion. What is taken off `data_len` for an ICMP message is the
-- size of the variable `ip4_hlen`.
unfoldable pub send_4to6 : Endian → Tables → Moment → Bytes → ℕ → Cache → Rate → Option Result
send_4to6 e t m pkt data_len cache rate =
    let f = analyze4 pkt in
    if not (ip_header_len pkt == 20)
    then some (drop_packet true cache rate)
    else if ltb data_len (load_network16 pkt 2)
    then some (drop_packet false cache rate)
    else if f.proto == proto_icmp
    then after_icmp (process_icmp4 e t m.turn (drop 20 pkt) (data_len - 2) cache rate)
        (forward6 e t m pkt f)
    else some (forward6 e t m pkt f cache rate)
