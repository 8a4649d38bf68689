-- ===== src/Packet/Reassembly6.antt =====
-- `send_4to6` on a whole packet that is cut in two: what the two fragments make together.
use map.Checksum.Sum.{IsIpHeader, words_sum-append, words_sum-take-drop}
use map.Checksum.Update.{IsBalanced, covered, update_ulp-transport}
use map.Checksum.{Iov, proto_tcp, proto_udp}
use map.Common.Bits.{bit_or, zero-bit_or}
use map.Common.{
  ℕ, ◌+◌, ◌-◌, ◌*◌, ◌/◌, ◌≤◌, ◌<◌, ◌≡◌, ◌⊎◌, inl, refl, ap, ◌∙◌, true, some, [], ◌∷◌, ◌++◌, arith,
  length, length-drop, length-take, take, drop,
}
use map.Icmpsub.{Rate}
use map.Mapping.{Tables, convert_addrs_4to6}
use map.Memory.Bound.{IsBytes, load8-lt, drop-IsBytes, take-IsBytes}
use map.Memory.Words.{double, double_lem, words_sum, take-length}
use map.Memory.{Bytes, Endian, load8, slice}
use map.Packet.FourToSix.{translate6, list6, with_fragment, send_4to6, proto_fragment}
use map.Packet.Headers.{IsAddr, hdr6-IsIpHeader}
use map.Packet.Pieces.{two_fragments6}
use map.Packet.Single4.{IsWhole4, fields4, analyzed4, translate6-eq-some, outgoing6}
use map.Packet.Split6.{
  unit6, ident6, oversize6, fragment_header, send_4to6_large, fragment6_later, fragment6_first,
}
use map.Packet.{Moment, hdr6}
use map.Pmtudisc.{Cache, get_path_mtu_size}
use map.Tunif.{af_inet6}

-- The part of the payload in the first fragment.
first_part :
    (e : Endian) (pkt : Bytes) (mtu : ℕ)
    → IsBytes pkt
    → mtu - 48 < length pkt - 20
    → (length (slice (drop 20 pkt) 0 (unit6 mtu)) ≡ unit6 mtu)
      × (words_sum e (slice (drop 20 pkt) 0 (unit6 mtu))
            + words_sum e (drop (unit6 mtu) (drop 20 pkt))
          ≡ words_sum e (drop 20 pkt))
first_part e pkt mtu bytes large =
    let even : unit6 mtu ≡ double ((mtu - 48) / 8 * 4) =
      omega (arith, double_lem ((mtu - 48) / 8 * 4)) in
    (
      omega (arith, length-take (unit6 mtu) (drop 20 pkt), length-drop 20 pkt),
      rw even (
          words_sum-take-drop e ((mtu - 48) / 8 * 4) (drop 20 pkt)
            (omega (arith, even, length-drop 20 pkt))),
    )

-- The checksum is adjusted in the first part for the whole segment.
first_translated :
    (e : Endian) {pkt : Bytes} (src dst : Bytes) {data_len : ℕ} (mtu len : ℕ)
    → IsWhole4 pkt data_len
    → (load8 pkt 9 ≡ proto_tcp) ⊎ (load8 pkt 9 ≡ proto_udp)
    → 72 ≤ mtu
    → mtu - 48 < length pkt - 20
    → IsBalanced (covered e pkt len (drop 20 pkt))
    → IsAddr 16 src
    → IsAddr 16 dst
    → let listed = list6 e (fields4 pkt) src dst (slice (drop 20 pkt) 0 (unit6 mtu)) in
      (iov : Iov) × (translate6 e pkt (load8 pkt 9) listed ≡ some iov)
      × (iov.ip ≡ outgoing6 pkt src dst)
      × (length iov.ulp ≡ unit6 mtu)
      × IsBalanced
          (covered e (outgoing6 pkt src dst) len (iov.ulp ++ drop (unit6 mtu) (drop 20 pkt)))
unfolding list6 hdr6
first_translated e {pkt} src dst mtu len w proto room large balanced hs hd =
    let rest = drop (unit6 mtu) (drop 20 pkt) in
    let listed = list6 e (fields4 pkt) src dst (slice (drop 20 pkt) 0 (unit6 mtu)) in
    let part = first_part e pkt mtu w.bytes large in
    let incoming : IsIpHeader pkt = (w.bytes, inl (w.version, w.header_fits)) in
    let outgoing =
      hdr6-IsIpHeader (length pkt - 20) (load8 pkt 9) (load8 pkt 8) src dst (load8-lt pkt 9 w.bytes)
        (load8-lt pkt 8 w.bytes) hs hd in
    let (iov, updated, adjusted, right) =
      update_ulp-transport e (load8 pkt 9) (len + words_sum e rest) pkt listed proto incoming
        outgoing (take-IsBytes (unit6 mtu) (drop 20 pkt) (drop-IsBytes 20 pkt w.bytes))
        (ground (arith, part.0)) (omega (arith, balanced, part.1)) in
    let size = adjusted.same_length ∙ part.0 in
    (
      iov,
      translate6-eq-some e pkt (load8 pkt 9) listed iov (ground arith) updated,
      ap (λ i. i.ip) adjusted.others,
      size,
      omega (
        arith,
        right,
        words_sum-append e ((mtu - 48) / 8 * 4) iov.ulp rest
            (omega (arith, size, double_lem ((mtu - 48) / 8 * 4))),
      ),
    )

-- A TCP or UDP packet of IPv4 that is whole and without options, its segment having a zero sum with
-- any length word under its header, if the tables map its addresses to addresses of 16 bytes, the
-- path MTU is 72 or more, and the segment does not fit it with 48 bytes but has less than
-- two units of 8-byte groups that do, is sent by send_4to6 as two fragments behind the message about
-- the size, if the rate admits that: their headers have the lengths, the protocol 44, the time to
-- live and the mapped addresses, their Fragment headers the two offsets, the flag on the first alone
-- and one identification, the second has the rest of the segment, and both together have as
-- many bytes as the segment and a zero sum under the unfragmented header with the same length word.
pub send_4to6-split :
    (e : Endian) (t : Tables) (m : Moment) (cache cache' : Cache) (rate : Rate)
    {pkt src dst : Bytes} {data_len mtu : ℕ} (len : ℕ)
    → IsWhole4 pkt data_len
    → (load8 pkt 9 ≡ proto_tcp) ⊎ (load8 pkt 9 ≡ proto_udp)
    → IsBalanced (covered e pkt len (drop 20 pkt))
    → convert_addrs_4to6 e t (slice pkt 12 4) (slice pkt 16 4) ≡ some (src, dst)
    → IsAddr 16 src
    → IsAddr 16 dst
    → get_path_mtu_size e m.looked_up af_inet6 dst cache ≡ (mtu, cache')
    → 72 ≤ mtu
    → mtu - 48 < length pkt - 20
    → length pkt - 20 < unit6 mtu + unit6 mtu
    → let ident = ident6 m (fields4 pkt) in
      (first last : Iov) × (send_4to6 e t m pkt data_len cache rate
        ≡ some (record {
          ok = true;
          cache = cache';
          rate = (oversize6 e m pkt mtu rate).1;
          packets = (oversize6 e m pkt mtu rate).0 ++ (first ∷ last ∷ []);
        }))
      × (first.ip ≡ hdr6 (unit6 mtu + 8) proto_fragment (load8 pkt 8) src dst)
      × (last.ip ≡ hdr6 (length pkt - 20 - unit6 mtu + 8) proto_fragment (load8 pkt 8) src dst)
      × (first.frag ≡ fragment_header (load8 pkt 9) 1 ident)
      × (last.frag ≡ fragment_header (load8 pkt 9) (unit6 mtu) ident)
      × (length first.ulp ≡ unit6 mtu)
      × (last.ulp ≡ drop (unit6 mtu) (drop 20 pkt))
      × IsBalanced (covered e (outgoing6 pkt src dst) len (first.ulp ++ last.ulp))
unfolding with_fragment list6 hdr6
send_4to6-split e t m cache cache' rate {pkt} {src} {dst} {data_len} {mtu} len w proto balanced
      mapped hs hd path room large two =
    let f = fields4 pkt in
    let (iov, translated, header, size, right) =
      first_translated e src dst mtu len w proto room large balanced hs hd in
    let rest = drop (unit6 mtu) (drop 20 pkt) in
    let whole : slice (drop 20 pkt) (unit6 mtu) (length pkt - 20 - unit6 mtu) ≡ rest =
      ap (λ k. take k rest)
        (omega (arith, length-drop (unit6 mtu) (drop 20 pkt), length-drop 20 pkt))
      ∙ take-length rest in
    let a =
      fragment6_first e pkt f src dst (ident6 m f) (unit6 mtu) 1 iov (omega arith) translated in
    let b =
      fragment6_later e pkt f src dst (ident6 m f) (unit6 mtu) (length pkt - 20 - unit6 mtu)
        (bit_or 0 (0 + unit6 mtu)) (ground arith) (omega (arith, zero-bit_or (0 + unit6 mtu))) in
    let made =
      two_fragments6 e pkt f src dst (ident6 m f) (unit6 mtu) _ _ (omega arith) two refl
        (omega arith) (omega (arith, w.total, load8-lt pkt 2 w.bytes, load8-lt pkt 3 w.bytes)) a
        b in
    (
      _,
      _,
      send_4to6_large e t m cache cache' rate pkt data_len w.hlen (rw w.total w.read) (ground arith)
          mapped path f _ (analyzed4 w) refl large made,
      refl,
      refl,
      rw header refl,
      ap (λ o. fragment_header (load8 pkt 9) o (ident6 m f))
          (omega (arith, zero-bit_or (0 + unit6 mtu))),
      size,
      whole,
      rw whole right,
    )
