-- ===== src/Packet/Split6.antt =====
-- `send_4to6` on a packet that does not fit and is cut in two.
use map.Checksum.{Iov, proto_icmp, ip_header_len}
use map.Common.Bits.{bit_or, le-bit_or, bit_or-sum}
use map.Common.{
  ℕ, ◌+◌, ◌-◌, ◌*◌, ◌/◌, ◌≤◌, ◌<◌, ◌≡◌, ◌≢◌, ◌↔◌, refl, ap, true, false, Option, some, List, [],
  ◌∷◌, ◌++◌, arith, drop, ltb, ◌==◌, if◌then◌else◌,
}
use map.Icmpsub.{Rate, check_sending_rate, icmp4_message, network32}
use map.Mapping.{Tables, convert_addrs_4to6}
use map.Memory.{Bytes, Endian, load8, slice}
use map.Packet.FourToSix.{
  Fields4, analyze4, translate6, list6, fragment6, fragments6, large6, with_fragment, forward6,
  send_4to6,
}
use map.Packet.Pieces.{two_fragments6}
use map.Packet.{Moment, hdr6, load_network16, network16, limited}
use map.Pmtudisc.{Cache, get_path_mtu_size}
use map.Tunif.{af_inet6}

-- The payload of a fragment.
abbrev pub unit6 : ℕ → ℕ
unit6 mtu = (mtu - 48) / 8 * 8

-- The identification that the fragments carry.
abbrev pub ident6 : Moment → Fields4 → ℕ
ident6 m f = if f.id == 0 then m.random else f.id

-- The message about the size, and the state of the rate limit after it.
abbrev pub oversize6 : Endian → Moment → Bytes → ℕ → Rate → List Iov × Rate
oversize6 e m pkt mtu rate =
    limited (check_sending_rate m.checked rate)
      (icmp4_message e pkt (slice pkt 16 4) (slice pkt 12 4) (mtu - 48))

module _ (e : Endian) (t : Tables) (m : Moment) (cache cache' : Cache) (rate : Rate) (pkt : Bytes)
    {src dst : Bytes} (data_len : ℕ) {mtu : ℕ} (hlen : ip_header_len pkt ≡ 20)
    (total : load_network16 pkt 2 ≤ data_len) (other : load8 pkt 9 ≢ proto_icmp)
    (mapped : convert_addrs_4to6 e t (slice pkt 12 4) (slice pkt 16 4) ≡ some (src, dst))
    (path : get_path_mtu_size e m.looked_up af_inet6 dst cache ≡ (mtu, cache')) where
  -- A packet that is too large comes to the loop.
  pub send_4to6_large :
      (f : Fields4) (fragments : List Iov)
      → analyze4 pkt ≡ f
      → f.proto ≡ load8 pkt 9
      → mtu - 48 < f.plen
      → fragments6 e pkt f src dst (ident6 m f) (unit6 mtu) (f.plen / unit6 mtu + 1) f.plen 0
        ≡ fragments
      → send_4to6 e t m pkt data_len cache rate
        ≡ some (record {
          ok = true;
          cache = cache';
          rate = (oversize6 e m pkt mtu rate).1;
          packets = (oversize6 e m pkt mtu rate).0 ++ fragments;
        })
  unfolding send_4to6 forward6 large6
  send_4to6_large f fragments read proto large made =
      let h : (ip_header_len pkt == 20) ≡ true = ground arith in
      let long : ltb data_len (load_network16 pkt 2) ≡ false = ground arith in
      let transport : (f.proto == proto_icmp) ≡ false = ground arith in
      let over : ltb (mtu - 48) f.plen ≡ true = ground arith in
      let reached : forward6 e t m pkt f cache rate ≡ record {
        ok = true;
        cache = cache';
        rate = (oversize6 e m pkt mtu rate).1;
        packets = (oversize6 e m pkt mtu rate).0 ++ fragments;
      } =
        rw (mapped, forward6)
          (rw (ap (λ p. p.0) path) (rw (over, ap (λ p. p.1) path, made) refl)) in
      rw (read, h, long, transport, reached) refl

-- A fragment whose offset is not 0.
pub fragment6_later :
    (e : Endian) (pkt : Bytes) (f : Fields4) (src dst : Bytes) (ident at len offlg : ℕ)
    → f.proto ≢ proto_icmp
    → 8 ≤ offlg
    → fragment6 e pkt f src dst ident (record { at = at; len = len; offlg = offlg })
      ≡ some
          (with_fragment len offlg ident f src dst (list6 e f src dst (slice (drop 20 pkt) at len)))
unfolding fragment6
fragment6_later e pkt f src dst ident at len offlg other far =
    let later : (offlg / 8 == 0) ≡ false = ground arith in
    let transport : (f.proto == proto_icmp) ≡ false = ground arith in
    rw (later, transport, fragment6) refl

pub fragment6_first :
    (e : Endian) (pkt : Bytes) (f : Fields4) (src dst : Bytes) (ident len offlg : ℕ) (iov : Iov)
    → offlg < 8
    → translate6 e pkt f.proto (list6 e f src dst (slice (drop 20 pkt) 0 len)) ≡ some iov
    → fragment6 e pkt f src dst ident (record { at = 0; len = len; offlg = offlg })
      ≡ some (with_fragment len offlg ident f src dst iov)
unfolding fragment6
fragment6_first e pkt f src dst ident len offlg iov near translated =
    let here : (offlg / 8 == 0) ≡ true = ground arith in
    rw (here, fragment6) (rw (translated, fragment6) refl)

-- The Fragment header.
abbrev pub fragment_header : ℕ → ℕ → ℕ → Option Bytes
fragment_header nxt offlg ident = some (nxt ∷ 0 ∷ (network16 offlg ++ network32 ident))

-- If the last part of a TCP or UDP datagram that came in fragments, without options, its offset
-- not 0, does not fit the path MTU and is cut in two by send_4to6, then the Fragment header of the
-- second fragment has in its field the bitwise or of the offset and the sum of the offset and the
-- first one's length. That is never less than the sum, which is the right offset, and it is the sum
-- just where the bitwise or of the offset and the length is their sum, that is where no bit of the
-- one meets one of the other.
pub send_4to6-refragment :
    (e : Endian) (t : Tables) (m : Moment) (cache cache' : Cache) (rate : Rate) (pkt : Bytes)
    {src dst : Bytes} (data_len : ℕ) {mtu : ℕ}
    → ip_header_len pkt ≡ 20
    → load_network16 pkt 2 ≤ data_len
    → load8 pkt 9 ≢ proto_icmp
    → convert_addrs_4to6 e t (slice pkt 12 4) (slice pkt 16 4) ≡ some (src, dst)
    → get_path_mtu_size e m.looked_up af_inet6 dst cache ≡ (mtu, cache')
    → (f : Fields4) → analyze4 pkt ≡ f
    → f.proto ≡ load8 pkt 9
    → 56 ≤ mtu
    → mtu - 48 < f.plen
    → f.plen < unit6 mtu + unit6 mtu
    → f.more_frag ≡ false
    → 0 < f.offset
    → f.offset < 8192
    → f.offset * 8 + f.plen ≤ 65535
    → (first last : Iov) × (send_4to6 e t m pkt data_len cache rate
        ≡ some (record {
          ok = true;
          cache = cache';
          rate = (oversize6 e m pkt mtu rate).1;
          packets = (oversize6 e m pkt mtu rate).0 ++ (first ∷ last ∷ []);
        }))
      × (first.frag ≡ fragment_header (load8 pkt 9) (f.offset * 8 + 1) (ident6 m f))
      × (last.frag
          ≡ fragment_header
              (load8 pkt 9)
              (bit_or (f.offset * 8) (f.offset * 8 + unit6 mtu))
              (ident6 m f))
      × (f.offset * 8 + unit6 mtu ≤ bit_or (f.offset * 8) (f.offset * 8 + unit6 mtu))
      × ((bit_or (f.offset * 8) (f.offset * 8 + unit6 mtu) ≡ f.offset * 8 + unit6 mtu)
          ↔ (bit_or (f.offset * 8) (unit6 mtu) ≡ f.offset * 8 + unit6 mtu))
unfolding with_fragment list6 hdr6
send_4to6-refragment e t m cache cache' rate pkt {src} {dst} data_len {mtu} hlen total other mapped
      path f read proto low large two final later o fits =
    let unit = unit6 mtu in
    let far = le-bit_or (f.offset * 8) (f.offset * 8 + unit) in
    let a =
      fragment6_later e pkt f src dst (ident6 m f) 0 unit (f.offset * 8 + 1) (ground arith)
        (omega arith) in
    let b =
      fragment6_later e pkt f src dst (ident6 m f) unit (f.plen - unit)
        (bit_or (f.offset * 8) (f.offset * 8 + unit)) (ground arith) (omega arith) in
    let made =
      two_fragments6 e pkt f src dst (ident6 m f) unit _ _ (omega arith) two final o (omega arith) a
        b in
    (
      _,
      _,
      send_4to6_large e t m cache cache' rate pkt data_len hlen total other mapped path f _ read
          proto large made,
      rw proto refl,
      rw proto refl,
      far,
      bit_or-sum (f.offset * 8) unit,
    )
