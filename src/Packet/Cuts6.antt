-- ===== src/Packet/Cuts6.antt =====
-- The loop of `send_4to6` for TCP and UDP: what its fragments carry together, however many they are.
use map.Checksum.Update.{update_ulp-IsAdjusted}
use map.Checksum.{Iov, proto_icmp, update_ulp, ip_header_len}
use map.Common.{
  ℕ, zero, suc, ◌+◌, ◌-◌, ◌*◌, ◌/◌, ◌≤◌, ◌<◌, ◌≡◌, ◌≢◌, ◌++◌, inl, inr, refl, ◌∙◌, true, false,
  none, some, List, [], ◌∷◌, arith, length, length-drop, length-take, drop, ltb, ◌==◌,
  if◌then◌else◌, Bool-cases, Option-cases,
}
use map.Mapping.Invariant.{All}
use map.Memory.{Bytes, Endian, load8, slice}
use map.Packet.FourToSix.{
  Fields4, Piece, piece6, translate6, with_fragment, list6, fragment6, fragments6, proto_fragment,
  analyze4, send_4to6,
}
use map.Packet.Split6.{unit6, ident6, oversize6, send_4to6_large}
use map.Packet.{Moment, hdr6, load_network16}
use map.Icmpsub.{Rate}
use map.Mapping.{Tables, convert_addrs_4to6}
use map.Pmtudisc.{Cache, get_path_mtu_size}
use map.Tunif.{af_inet6}

translated_length :
    (e : Endian) (pkt : Bytes) (proto : ℕ) (iov : Iov)
    → proto ≢ proto_icmp
    → (iov' : Iov) × (translate6 e pkt proto iov ≡ some iov') × (length iov'.ulp ≡ length iov.ulp)
unfolding translate6
translated_length e pkt proto iov other =
    let transport : (proto == proto_icmp) ≡ false = ground arith in
    elim (Option-cases (update_ulp e (load8 iov.ip 6) pkt iov)) [
      | inl n ↦ (iov, rw (transport, translate6) (rw (n, translate6) refl), refl)
      | inr (iov', h) ↦ (
        iov',
        rw (transport, translate6) (rw (h, translate6) refl),
        (update_ulp-IsAdjusted e (load8 iov.ip 6) pkt iov iov' h).same_length,
      )
    ]

-- A fragment that fits the MTU with both its headers, and whose IPv6 header has its length.
abbrev pub IsPart6 : Fields4 → Bytes → Bytes → ℕ → Iov → Type 0
IsPart6 f src dst mtu iov =
    (length iov.ulp + 48 ≤ mtu)
    × (iov.ip ≡ hdr6 (length iov.ulp + 8) proto_fragment f.ttl src dst)
    × (iov.frag ≢ none)

pub le_units : (n u : ℕ) → 0 < u → n ≤ (n / u + 1) * u
le_units n u h = grind arith

-- The bytes that fragments carry.
abbrev pub carried : List Iov → ℕ
carried [] = 0
carried (iov ∷ iovs) = length iov.ulp + carried iovs

module _ (e : Endian) (pkt : Bytes) (f : Fields4) (src dst : Bytes) (ident unit mtu : ℕ)
    (fits_mtu : unit + 48 ≤ mtu) (other : f.proto ≢ proto_icmp)
    (room : f.plen + 20 ≤ length pkt) where
  fragment6_part :
      (p : Piece)
      → p.at + p.len ≤ f.plen
      → p.len ≤ unit
      → (iov : Iov) × (fragment6 e pkt f src dst ident p ≡ some iov)
        × (length iov.ulp ≡ p.len)
        × IsPart6 f src dst mtu iov
  unfolding fragment6 with_fragment list6
  fragment6_part p inside fits =
      let listed = list6 e f src dst (slice (drop 20 pkt) p.at p.len) in
      let size : length (slice (drop 20 pkt) p.at p.len) ≡ p.len = omega (
        arith,
        length-take p.len (drop p.at (drop 20 pkt)),
        length-drop p.at (drop 20 pkt),
        length-drop 20 pkt,
      ) in
      elim (Bool-cases (p.offlg / 8 == 0)) [
        | inl first ↦
            let (iov, translated, same) = translated_length e pkt f.proto listed other in
            (
              with_fragment p.len p.offlg ident f src dst iov,
              rw (first, fragment6) (rw (translated, fragment6) refl),
              same ∙ size,
              (omega (arith, same, size), rw (same, size) refl, λ h. absurd (cc)),
            )
        | inr later ↦
            let transport : (f.proto == proto_icmp) ≡ false = ground arith in
            (
              with_fragment p.len p.offlg ident f src dst listed,
              rw (later, transport, fragment6) refl,
              size,
              (omega (arith, size), rw size refl, λ h. absurd (cc)),
            )
      ]

  piece6_inside :
      (left offlg : ℕ)
      → left ≤ f.plen
      → let p = piece6 f unit left offlg in
        (p.at + p.len ≤ f.plen) × (p.len ≤ unit) × (p.len ≡ (if ltb unit left then unit else left))
  unfolding piece6
  piece6_inside left offlg h = elim (Bool-cases (ltb unit left)) [
    | inl more ↦ rw more (ground arith, omega arith, refl)
    | inr final ↦ rw final (ground arith, ground arith, refl)
  ]

  fragments6_cut :
      (count left offlg : ℕ)
      → left ≤ f.plen
      → left ≤ count * unit
      → let parts = fragments6 e pkt f src dst ident unit count left offlg in
        (length parts ≡ count) × (carried parts ≡ left) × All (IsPart6 f src dst mtu) parts
  unfolding fragments6
  fragments6_cut zero left offlg h k = (refl, omega arith, tt)
  fragments6_cut (suc count) left offlg h k =
      let p = piece6 f unit left offlg in
      let (inside, fits, len) = piece6_inside left offlg h in
      let (iov, made, size, part) = fragment6_part p inside fits in
      let enough : left - p.len ≤ count * unit = ground arith in
      let (counted, total, parts) =
        fragments6_cut count (left - p.len) p.offlg (omega arith) enough in
      let short : p.len ≤ left = ground arith in
      rw (made, fragments6)
        (omega (arith, counted), omega (arith, size, total, short), (part, parts))

-- A TCP or UDP packet of IPv4, or a part of one, without options, if the tables map its addresses,
-- the path MTU is 56 or more and the payload does not fit it with 48 bytes, is cut by send_4to6 into
-- one fragment more than the payload has units, behind the message about the size: each has a
-- Fragment header and an IPv6 header with its own length, and is no longer than the path MTU,
-- and together they carry as many bytes as the payload.
pub send_4to6-cut :
    (e : Endian) (t : Tables) (m : Moment) (cache cache' : Cache) (rate : Rate) (pkt : Bytes)
    {src dst : Bytes} (data_len : ℕ) {mtu : ℕ}
    → ip_header_len pkt ≡ 20
    → load_network16 pkt 2 ≤ data_len
    → load8 pkt 9 ≢ proto_icmp
    → convert_addrs_4to6 e t (slice pkt 12 4) (slice pkt 16 4) ≡ some (src, dst)
    → get_path_mtu_size e m.looked_up af_inet6 dst cache ≡ (mtu, cache')
    → 56 ≤ mtu
    → (analyze4 pkt).plen + 20 ≤ length pkt
    → mtu - 48 < (analyze4 pkt).plen
    → (parts : List Iov) × (send_4to6 e t m pkt data_len cache rate
        ≡ some (record {
          ok = true;
          cache = cache';
          rate = (oversize6 e m pkt mtu rate).1;
          packets = (oversize6 e m pkt mtu rate).0 ++ parts;
        }))
      × (length parts ≡ (analyze4 pkt).plen / unit6 mtu + 1)
      × (carried parts ≡ (analyze4 pkt).plen)
      × All (IsPart6 (analyze4 pkt) src dst mtu) parts
send_4to6-cut e t m cache cache' rate pkt {src} {dst} data_len {mtu} hlen total other mapped path
      low room large =
    let f = analyze4 pkt in
    let proto : f.proto ≡ load8 pkt 9 = unfold analyze4 in refl in
    let count = f.plen / unit6 mtu + 1 in
    let enough : f.plen ≤ count * unit6 mtu = le_units f.plen (unit6 mtu) (omega arith) in
    let (counted, total', parts) =
      fragments6_cut e pkt f src dst (ident6 m f) (unit6 mtu) mtu (omega arith) (rw proto other)
        room count f.plen 0 (omega arith) enough in
    (
      fragments6 e pkt f src dst (ident6 m f) (unit6 mtu) count f.plen 0,
      send_4to6_large e t m cache cache' rate pkt data_len hlen total other mapped path f _ refl
          proto large refl,
      counted,
      total',
      parts,
    )
