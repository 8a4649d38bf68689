-- ===== src/Packet/Cuts4.antt =====
-- The loop of `send_6to4` for TCP and UDP: what its fragments carry together, however many they are.
use map.Checksum.Update.{IsAdjusted, update_ulp-IsAdjusted}
use map.Checksum.{Iov, proto_icmp6, proto_tcp, proto_udp, update_ulp}
use map.Common.{
  ℕ, zero, suc, ◌+◌, ◌-◌, ◌*◌, ◌/◌, ◌%◌, ◌≤◌, ◌<◌, ◌≡◌, ◌≢◌, ◌⊎◌, ◌++◌, inl, inr, refl, ap, ◌∙◌,
  true, false, some, List, arith, length, length-drop, length-take, drop, ltb, ◌==◌, set,
  if◌then◌else◌, Bool-cases, Option-cases,
}
use map.Icmpsub.{Rate, check_sending_rate, icmp6_message, summed}
use map.Mapping.Invariant.{All}
use map.Mapping.{Tables, convert_addrs_6to4}
use map.Memory.{Bytes, Endian, load8, slice, htons, store16}
use map.Packet.Cuts6.{carried, le_units}
use map.Packet.FourToSix.{Piece}
use map.Packet.SixToFour.{
  Fields6, analyze6, is_supported, piece4, translate4, list4, fragment4, fragments4, large4,
  forward4, checked4, send_6to4, ip_df,
}
use map.Packet.{Moment, hdr4, limited}
use map.Pmtudisc.{Cache, get_path_mtu_size}
use map.Tunif.{af_inet}

translated4_kept :
    (e : Endian) (pkt : Bytes) (next_header : ℕ) (iov : Iov)
    → next_header ≢ proto_icmp6
    → (iov' : Iov) × (translate4 e pkt next_header iov ≡ some iov') × IsAdjusted e iov iov'
unfolding translate4
translated4_kept e pkt next_header iov other =
    let transport : (next_header == proto_icmp6) ≡ false = ground arith in
    let packet = set pkt 6 next_header in
    elim (Option-cases (update_ulp e (load8 iov.ip 9) packet iov)) [
      | inl n ↦ (
        iov,
        rw (transport, translate4) (rw (n, translate4) refl),
        record { others = refl; same_length = refl },
      )
      | inr (iov', h) ↦ (
        iov',
        rw (transport, translate4) (rw (h, translate4) refl),
        update_ulp-IsAdjusted e (load8 iov.ip 9) packet iov iov' h,
      )
    ]

-- A fragment that fits the MTU with its header, which has its length, the protocol and a checksum.
abbrev pub IsPart4 : Endian → Fields6 → Bytes → Bytes → ℕ → ℕ → Iov → Type 0
IsPart4 e f src dst id mtu iov =
    (length iov.ulp + 20 ≤ mtu)
    × ((off : ℕ) × (iov.ip
          ≡ summed e (hdr4 (length iov.ulp + 20) id off f.hop_limit f.next_header src dst)))

module _ (e : Endian) (pkt : Bytes) (f : Fields6) (src dst : Bytes) (id unit mtu : ℕ)
    (fits_mtu : unit + 20 ≤ mtu) (other : f.next_header ≢ proto_icmp6)
    (room : f.payload_len + f.start ≤ length pkt) where
  fragment4_part :
      (len : ℕ) (p : Piece)
      → p.at + p.len ≤ f.payload_len
      → p.len ≤ unit
      → (iov : Iov) × (fragment4 e pkt f src dst id len f.next_header p ≡ some iov)
        × (length iov.ulp ≡ p.len)
        × (load8 iov.ip 9 ≡ f.next_header)
        × IsPart4 e f src dst id mtu iov
  unfolding fragment4 list4 hdr4 summed store16
  fragment4_part len p inside fits =
      let listed =
        list4 e f src dst len id p.offlg f.next_header (slice (drop f.start pkt) p.at p.len) in
      let size : length (slice (drop f.start pkt) p.at p.len) ≡ p.len = omega (
        arith,
        length-take p.len (drop p.at (drop f.start pkt)),
        length-drop p.at (drop f.start pkt),
        length-drop f.start pkt,
      ) in
      elim (Bool-cases (p.offlg % 8192 == 0)) [
        | inl first ↦
            let (iov, translated, adjusted) = translated4_kept e pkt f.next_header listed other in
            let long = adjusted.same_length ∙ size in
            let proto = ap (λ i. load8 i.ip 9) adjusted.others in
            (
              record iov {
                ip = summed e (hdr4 (p.len + 20) id p.offlg f.hop_limit (load8 iov.ip 9) src dst);
              },
              rw (first, fragment4) (rw (translated, fragment4) refl),
              long,
              proto,
              (omega (arith, long), (p.offlg, rw (long, proto) refl)),
            )
        | inr later ↦ (
          record listed {
            ip = summed e (hdr4 (p.len + 20) id p.offlg f.hop_limit f.next_header src dst);
          },
          rw (later, fragment4) refl,
          size,
          refl,
          (omega (arith, size), (p.offlg, rw size refl)),
        )
      ]

  piece4_inside :
      (left off : ℕ)
      → left ≤ f.payload_len
      → let p = piece4 f unit left off in
        (p.at + p.len ≤ f.payload_len)
        × (p.len ≤ unit)
        × (p.len ≡ (if ltb unit left then unit else left))
  unfolding piece4
  piece4_inside left off h = elim (Bool-cases (ltb unit left)) [
    | inl more ↦ rw more (ground arith, omega arith, refl)
    | inr final ↦ rw final (ground arith, ground arith, refl)
  ]

  fragments4_cut :
      (count left off len : ℕ)
      → left ≤ f.payload_len
      → left ≤ count * unit
      → let parts = fragments4 e pkt f src dst id unit count left off len f.next_header in
        (length parts ≡ count) × (carried parts ≡ left) × All (IsPart4 e f src dst id mtu) parts
  unfolding fragments4
  fragments4_cut zero left off len h k = (refl, omega arith, tt)
  fragments4_cut (suc count) left off len h k =
      let p = piece4 f unit left off in
      let (inside, fits, cut) = piece4_inside left off h in
      let (iov, made, size, proto, part) = fragment4_part len p inside fits in
      let enough : left - p.len ≤ count * unit = ground arith in
      let (counted, total, parts) =
        fragments4_cut count (left - p.len) p.offlg (p.len + 20) (omega arith) enough in
      let short : p.len ≤ left = ground arith in
      rw (made, fragments4)
        (rw proto (omega (arith, counted), omega (arith, size, total, short), (part, parts)))

-- The message about the size, and the state of the rate limit after it.
abbrev pub oversize4 : Endian → Moment → Bytes → ℕ → Rate → List Iov × Rate
oversize4 e m pkt mtu rate =
    limited (check_sending_rate m.checked rate)
      (icmp6_message e pkt (slice pkt 24 16) (slice pkt 8 16) mtu)

-- The identification that the fragments carry.
abbrev pub ident4 : Endian → Moment → Fields6 → ℕ
ident4 e m f = if f.id == 0 then htons e m.random else f.id % 65536

-- A TCP or UDP packet of IPv6, with a Fragment header or none, if the tables map its addresses, the
-- path MTU is 28 or more and the payload does not fit it with 20 bytes, is cut by send_6to4 into one
-- fragment more than the payload has units, behind the message about the size: each has an IPv4
-- header with its own length, the protocol and a checksum, and is no longer than the path MTU, and
-- together they carry as many bytes as the payload.
pub send_6to4-cut :
    (e : Endian) (t : Tables) (m : Moment) (cache cache' : Cache) (rate : Rate) (pkt : Bytes)
    {src dst : Bytes} (data_len : ℕ) {mtu : ℕ}
    → load8 pkt 6 ≢ proto_icmp6
    → ((analyze6 pkt).next_header ≡ proto_tcp) ⊎ ((analyze6 pkt).next_header ≡ proto_udp)
    → (analyze6 pkt).payload_len + 40 ≤ data_len
    → (analyze6 pkt).payload_len + (analyze6 pkt).start ≤ length pkt
    → convert_addrs_6to4 e t (slice pkt 8 16) (some (slice pkt 24 16)) ≡ (some src, some dst)
    → get_path_mtu_size e m.looked_up af_inet dst cache ≡ (mtu, cache')
    → 28 ≤ mtu
    → mtu - 20 < (analyze6 pkt).payload_len
    → let f = analyze6 pkt in
      (parts : List Iov) × (send_6to4 e t m pkt data_len cache rate
        ≡ some (record {
          ok = true;
          cache = cache';
          rate = (oversize4 e m pkt mtu rate).1;
          packets = (oversize4 e m pkt mtu rate).0 ++ parts;
        }))
      × (length parts ≡ f.payload_len / ((mtu - 20) / 8 * 8) + 1)
      × (carried parts ≡ f.payload_len)
      × All (IsPart4 e f src dst (ident4 e m f) mtu) parts
unfolding send_6to4 checked4 forward4 large4 is_supported
send_6to4-cut e t m cache cache' rate pkt {src} {dst} data_len {mtu} plain proto read room mapped
      path low large =
    let f = analyze6 pkt in
    let unit : ℕ = (mtu - 20) / 8 * 8 in
    let id = ident4 e m f in
    let other : (load8 pkt 6 == proto_icmp6) ≡ false = ground arith in
    let supported : is_supported f.next_header ≡ true = ground arith in
    let long : ltb data_len (f.payload_len + 40) ≡ false = ground arith in
    let over : ltb (mtu - 20) f.payload_len ≡ true = ground arith in
    let (counted, total, parts) =
      fragments4_cut e pkt f src dst id unit mtu (omega arith) (ground arith) room
        (f.payload_len / unit + 1) f.payload_len ip_df (f.payload_len + 20) (omega arith)
        (le_units f.payload_len unit (omega arith)) in
    (
      fragments4 e pkt f src dst id unit (f.payload_len / unit + 1) f.payload_len ip_df
          (f.payload_len + 20) f.next_header,
      rw (other, supported, long)
          (rw (ap (λ p. p.0) mapped, forward4)
            (rw (ap (λ p. p.1) mapped, forward4)
              (rw (ap (λ p. p.0) path) (rw (over, ap (λ p. p.1) path) refl)))),
      counted,
      total,
      parts,
    )
