-- ===== src/Packet/Single4.antt =====
-- `send_4to6` on a packet that is whole and fits: one IPv6 packet with a right checksum.
use map.Checksum.Sum.{IsIpHeader}
use map.Checksum.Update.{IsBalanced, covered, sum_word_at, update_ulp-transport}
use map.Checksum.{Iov, proto_icmp, proto_tcp, proto_udp, ip_version, ip_header_len, update_ulp}
use map.Common.{
  ℕ, ◌+◌, ◌-◌, ◌/◌, ◌%◌, ◌≤◌, ◌<◌, ◌≡◌, ◌≢◌, ◌⊎◌, inl, refl, ap, ◌∙◌, true, false, none, some, [],
  ◌∷◌, arith, length, length-drop, drop, ltb, ◌==◌,
}
use map.Icmpsub.{Rate}
use map.Mapping.{Tables, convert_addrs_4to6}
use map.Memory.Bound.{IsBytes, load8-lt, drop-IsBytes}
use map.Memory.Words.{double, take-length}
use map.Memory.{Bytes, Endian, load8, slice}
use map.Packet.FourToSix.{Fields4, analyze4, translate6, list6, small6, forward6, send_4to6}
use map.Packet.Headers.{IsAddr, hdr6-IsIpHeader}
use map.Packet.{Moment, hdr6, load_network16}
use map.Pmtudisc.{Cache, get_path_mtu_size}
use map.Tunif.{af_inet6}

-- A packet of version 4 without options or fragment information, as long as its header says.
pub record IsWhole4 (pkt : Bytes) (data_len : ℕ) : Type 0 where
  pub bytes : IsBytes pkt
  pub version : ip_version pkt ≡ 4
  pub hlen : ip_header_len pkt ≡ 20
  pub total : load_network16 pkt 2 ≡ length pkt
  pub header_fits : 20 ≤ length pkt
  pub read : length pkt ≤ data_len
  pub unfragmented : load_network16 pkt 6 % 0x4000 ≡ 0

-- What is read from the header of a whole packet.
abbrev pub fields4 : Bytes → Fields4
fields4 pkt = record {
  plen = length pkt - 20;
  ttl = load8 pkt 8;
  proto = load8 pkt 9;
  id = load_network16 pkt 4;
  offset = 0;
  more_frag = false;
}

module _ {pkt : Bytes} {data_len : ℕ} (w : IsWhole4 pkt data_len) where
  pub analyzed4 : analyze4 pkt ≡ fields4 pkt
  unfolding analyze4
  analyzed4 =
      let plen : (load_network16 pkt 2 + 65536 - 20) % 65536 ≡ length pkt - 20 =
        omega (arith, load8-lt pkt 2 w.bytes, load8-lt pkt 3 w.bytes, w.total, w.header_fits) in
      let offset : load_network16 pkt 6 % 8192 ≡ 0 = omega (arith, w.unfragmented) in
      let whole : (load_network16 pkt 6 / 8192 % 2 == 1) ≡ false = ground (arith, w.unfragmented) in
      rw (plen, offset, whole) refl

  payload_whole : slice (drop 20 pkt) 0 (length pkt - 20) ≡ drop 20 pkt
  payload_whole = rw (← length-drop 20 pkt) (take-length (drop 20 pkt))

  -- Such a packet is forwarded whole.
  small6_lem :
      (e : Endian) (src dst : Bytes) (iov : Iov)
      → translate6 e pkt (load8 pkt 9) (list6 e (fields4 pkt) src dst (drop 20 pkt)) ≡ some iov
      → small6 e pkt (fields4 pkt) src dst ≡ some iov
  unfolding small6
  small6_lem e src dst iov h = rw (payload_whole, h) refl

  module _ (e : Endian) (t : Tables) (m : Moment) (cache cache' : Cache) (rate : Rate)
      {src dst : Bytes} {mtu : ℕ} (iov : Iov)
      (mapped : convert_addrs_4to6 e t (slice pkt 12 4) (slice pkt 16 4) ≡ some (src, dst))
      (path : get_path_mtu_size e m.looked_up af_inet6 dst cache ≡ (mtu, cache'))
      (fits : length pkt + 28 ≤ mtu)
      (translated : translate6 e pkt (load8 pkt 9) (list6 e (fields4 pkt) src dst (drop 20 pkt))
        ≡ some iov) where
    -- One packet is written.
    pub forward6_whole :
        forward6 e t m pkt (fields4 pkt) cache rate
        ≡ record { ok = true; cache = cache'; rate = rate; packets = iov ∷ [] }
    unfolding forward6
    forward6_whole =
        let small : ltb (mtu - 48) (length pkt - 20) ≡ false = ground (arith, w.header_fits) in
        let made = small6_lem e src dst iov translated in
        rw (mapped, forward6) (rw (ap (λ p. p.0) path) (rw (small, made, ap (λ p. p.1) path) refl))

    send_4to6_whole :
        load8 pkt 9 ≢ proto_icmp
        → send_4to6 e t m pkt data_len cache rate
          ≡ some (record { ok = true; cache = cache'; rate = rate; packets = iov ∷ [] })
    unfolding send_4to6
    send_4to6_whole other =
        let hlen : (ip_header_len pkt == 20) ≡ true = ground (arith, w.hlen) in
        let long : ltb data_len (load_network16 pkt 2) ≡ false = ground (arith, w.total, w.read) in
        let transport : (load8 pkt 9 == proto_icmp) ≡ false = ground arith in
        rw (analyzed4, hlen, long, transport, forward6_whole) refl

pub translate6-eq-some :
    (e : Endian) (pkt : Bytes) (proto : ℕ) (iov iov' : Iov)
    → proto ≢ proto_icmp
    → update_ulp e (load8 iov.ip 6) pkt iov ≡ some iov'
    → translate6 e pkt proto iov ≡ some iov'
unfolding translate6
translate6-eq-some e pkt proto iov iov' other h =
    let transport : (proto == proto_icmp) ≡ false = ground arith in
    rw (transport, translate6) (rw (h, translate6) refl)

-- The header of the packet that is sent.
abbrev pub outgoing6 : Bytes → Bytes → Bytes → Bytes
outgoing6 pkt src dst = hdr6 (length pkt - 20) (load8 pkt 9) (load8 pkt 8) src dst

-- A TCP or UDP packet of IPv4 that is whole and without options, the segment reaching past its
-- checksum and having a zero sum with any length word under its header, if the tables map its
-- addresses to addresses of 16 bytes and it is with 28 bytes more no longer than the path MTU, is
-- sent by send_4to6 as one packet: its header has the payload's length, the protocol, the time to
-- live and the mapped addresses, and its segment has a zero sum under that header with the
-- same length word.
pub send_4to6-transport :
    (e : Endian) (t : Tables) (m : Moment) (cache cache' : Cache) (rate : Rate)
    {pkt src dst : Bytes} {data_len mtu : ℕ} (len : ℕ)
    → IsWhole4 pkt data_len
    → (load8 pkt 9 ≡ proto_tcp) ⊎ (load8 pkt 9 ≡ proto_udp)
    → double (sum_word_at (load8 pkt 9)) + 21 < length pkt
    → IsBalanced (covered e pkt len (drop 20 pkt))
    → convert_addrs_4to6 e t (slice pkt 12 4) (slice pkt 16 4) ≡ some (src, dst)
    → IsAddr 16 src
    → IsAddr 16 dst
    → get_path_mtu_size e m.looked_up af_inet6 dst cache ≡ (mtu, cache')
    → length pkt + 28 ≤ mtu
    → (iov : Iov) × (send_4to6 e t m pkt data_len cache rate
        ≡ some (record { ok = true; cache = cache'; rate = rate; packets = iov ∷ [] }))
      × (iov.ip ≡ outgoing6 pkt src dst)
      × (iov.frag ≡ none)
      × (length iov.ulp ≡ length pkt - 20)
      × IsBalanced (covered e (outgoing6 pkt src dst) len iov.ulp)
unfolding list6 hdr6
send_4to6-transport e t m cache cache' rate {pkt} {src} {dst} len w proto room balanced mapped hs hd
      path fits =
    let listed = list6 e (fields4 pkt) src dst (drop 20 pkt) in
    let incoming : IsIpHeader pkt = (w.bytes, inl (w.version, w.header_fits)) in
    let outgoing =
      hdr6-IsIpHeader (length pkt - 20) (load8 pkt 9) (load8 pkt 8) src dst (load8-lt pkt 9 w.bytes)
        (load8-lt pkt 8 w.bytes) hs hd in
    let (iov, updated, adjusted, right) =
      update_ulp-transport e (load8 pkt 9) len pkt listed proto incoming outgoing
        (drop-IsBytes 20 pkt w.bytes) (omega (arith, length-drop 20 pkt)) balanced in
    let translated = translate6-eq-some e pkt (load8 pkt 9) listed iov (ground arith) updated in
    let kept = adjusted.others in
    (
      iov,
      send_4to6_whole w e t m cache cache' rate iov mapped path fits translated (ground arith),
      ap (λ i. i.ip) kept,
      ap (λ i. i.frag) kept,
      adjusted.same_length ∙ length-drop 20 pkt,
      right,
    )
