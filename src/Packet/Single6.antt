-- ===== src/Packet/Single6.antt =====
-- `send_6to4` on a packet that has no Fragment header and fits: one IPv4 packet with right checksums.
use map.Checksum.Sum.{IsIpHeader}
use map.Checksum.Update.{IsBalanced, covered, sum_word_at, update_ulp-transport}
use map.Checksum.{Iov, proto_icmp6, proto_tcp, proto_udp, ip_version, update_ulp}
use map.Common.{
  ℕ, zero, suc, ◌+◌, ◌-◌, ◌≤◌, ◌<◌, ◌≡◌, ◌≢◌, ◌⊎◌, inl, inr, refl, ap, ◌∙◌, true, false, none, some,
  [], ◌∷◌, arith, length, length-drop, drop, set, ltb, ◌==◌,
}
use map.Icmpsub.{Rate, summed}
use map.Mapping.{Tables, convert_addrs_6to4}
use map.Memory.Bound.{IsBytes, load8-lt, drop-IsBytes}
use map.Memory.Words.{double, take-length, words_sum}
use map.Memory.{Bytes, Endian, load8, slice, store16}
use map.Packet.FourToSix.{proto_fragment}
use map.Packet.Headers.{IsAddr, length-hdr4, hdr4-IsBytes, summed-hdr4}
use map.Packet.SixToFour.{
  Fields6, analyze6, is_supported, translate4, list4, single_off, small4, forward4, checked4,
  send_6to4, ip_df,
}
use map.Packet.{Moment, Result, hdr4, load_network16}
use map.Pmtudisc.{Cache, get_path_mtu_size}
use map.Tunif.{af_inet}

-- A packet of version 6, as long as its header says.
pub record IsWhole6 (pkt : Bytes) (data_len : ℕ) : Type 0 where
  pub bytes : IsBytes pkt
  pub version : ip_version pkt ≡ 6
  pub total : load_network16 pkt 4 + 40 ≡ length pkt
  pub read : length pkt ≤ data_len

-- What is read from the header of a packet with no Fragment header.
abbrev pub fields6 : Bytes → Fields6
fields6 pkt = record {
  next_header = load8 pkt 6;
  payload_len = length pkt - 40;
  hop_limit = load8 pkt 7;
  fragmented = false;
  more_frag = false;
  offset = 0;
  id = 0;
  start = 40;
}

pub set_same : (buf : Bytes) (i : ℕ) → set buf i (load8 buf i) ≡ buf
set_same [] i = refl
set_same (b ∷ bs) zero = refl
set_same (b ∷ bs) (suc i) = ap (λ r. b ∷ r) (set_same bs i)

module _ {pkt : Bytes} {data_len : ℕ} (w : IsWhole6 pkt data_len) where
  pub analyzed6 : load8 pkt 6 ≢ proto_fragment → analyze6 pkt ≡ fields6 pkt
  unfolding analyze6
  analyzed6 other =
      let plain : (load8 pkt 6 == proto_fragment) ≡ false = ground arith in
      let plen : load_network16 pkt 4 ≡ length pkt - 40 = omega (arith, w.total) in
      rw (plain, plen) refl

  pub payload_whole : slice (drop 40 pkt) 0 (length pkt - 40) ≡ drop 40 pkt
  payload_whole = rw (← length-drop 40 pkt) (take-length (drop 40 pkt))

  -- The scatter list that such a packet becomes.
  abbrev pub listed4 : Endian → Bytes → Bytes → Iov
  listed4 e src dst =
      list4 e (fields6 pkt) src dst (length pkt - 40 + 20) 0 ip_df (load8 pkt 6) (drop 40 pkt)

  small4_lem :
      (e : Endian) (src dst : Bytes) (iov : Iov)
      → translate4 e pkt (load8 pkt 6) (listed4 e src dst) ≡ some iov
      → small4 e pkt (fields6 pkt) src dst ≡ some (record iov { ip = summed e iov.ip })
  unfolding small4 single_off
  small4_lem e src dst iov h = rw (payload_whole, h) refl

  module _ (e : Endian) (t : Tables) (m : Moment) (cache cache' : Cache) (rate : Rate)
      {src dst : Bytes} {mtu : ℕ} (iov : Iov)
      (mapped : convert_addrs_6to4 e t (slice pkt 8 16) (some (slice pkt 24 16))
        ≡ (some src, some dst))
      (path : get_path_mtu_size e m.looked_up af_inet dst cache ≡ (mtu, cache'))
      (fits : length pkt ≤ mtu + 20)
      (translated : translate4 e pkt (load8 pkt 6) (listed4 e src dst) ≡ some iov) where
    abbrev pub sent4 : Result
    sent4 = record {
      ok = true;
      cache = cache';
      rate = rate;
      packets = record iov { ip = summed e iov.ip } ∷ [];
    }

    forward4_whole : forward4 e t m pkt (fields6 pkt) cache rate ≡ sent4
    unfolding forward4
    forward4_whole =
        let small : ltb (mtu - 20) (length pkt - 40) ≡ false = ground (arith, w.total) in
        let made = small4_lem e src dst iov translated in
        rw (ap (λ p. p.0) mapped, forward4)
          (rw (ap (λ p. p.1) mapped, forward4)
            (rw (ap (λ p. p.0) path) (rw (small, made, ap (λ p. p.1) path) refl)))

    pub checked4_whole :
        load8 pkt 6 ≢ proto_fragment
        → is_supported (load8 pkt 6) ≡ true
        → checked4 e t m pkt data_len cache rate ≡ sent4
    unfolding checked4
    checked4_whole plain supported =
        let long : ltb data_len (length pkt - 40 + 40) ≡ false = ground (arith, w.total, w.read) in
        rw (analyzed6 plain, supported, long) forward4_whole

    send_6to4_whole :
        (load8 pkt 6 ≡ proto_tcp) ⊎ (load8 pkt 6 ≡ proto_udp)
        → send_6to4 e t m pkt data_len cache rate ≡ some sent4
    unfolding send_6to4 is_supported
    send_6to4_whole proto =
        let other : (load8 pkt 6 == proto_icmp6) ≡ false = ground arith in
        rw (other, checked4_whole (ground arith) (ground arith)) refl

translate4-eq-some :
    (e : Endian) (pkt : Bytes) (iov iov' : Iov)
    → load8 pkt 6 ≢ proto_icmp6
    → update_ulp e (load8 iov.ip 9) pkt iov ≡ some iov'
    → translate4 e pkt (load8 pkt 6) iov ≡ some iov'
unfolding translate4
translate4-eq-some e pkt iov iov' other h =
    let transport : (load8 pkt 6 == proto_icmp6) ≡ false = ground arith in
    rw (transport, translate4) (rw (set_same pkt 6, h, translate4) refl)

-- The header of the packet that is sent.
abbrev pub outgoing4 : Endian → Bytes → Bytes → Bytes → Bytes
outgoing4 e pkt src dst =
    summed e (hdr4 (length pkt - 40 + 20) 0 ip_df (load8 pkt 7) (load8 pkt 6) src dst)

-- A TCP or UDP packet of IPv6 with no other header and as long as its header says, the segment
-- reaching past its checksum and having a zero sum with any length word under its header, if the
-- tables map its addresses to addresses of 4 bytes and it is less 20 bytes no longer than the path
-- MTU, is sent by send_6to4 as one packet: its header has a zero sum, the total length, the hop
-- limit, the protocol and the mapped addresses, and its segment has a zero sum under that header
-- with the same length word.
pub send_6to4-transport :
    (e : Endian) (t : Tables) (m : Moment) (cache cache' : Cache) (rate : Rate)
    {pkt src dst : Bytes} {data_len mtu : ℕ} (len : ℕ)
    → IsWhole6 pkt data_len
    → (load8 pkt 6 ≡ proto_tcp) ⊎ (load8 pkt 6 ≡ proto_udp)
    → double (sum_word_at (load8 pkt 6)) + 41 < length pkt
    → IsBalanced (covered e pkt len (drop 40 pkt))
    → convert_addrs_6to4 e t (slice pkt 8 16) (some (slice pkt 24 16)) ≡ (some src, some dst)
    → IsAddr 4 src
    → IsAddr 4 dst
    → get_path_mtu_size e m.looked_up af_inet dst cache ≡ (mtu, cache')
    → length pkt ≤ mtu + 20
    → (iov : Iov) × (send_6to4 e t m pkt data_len cache rate
        ≡ some (record { ok = true; cache = cache'; rate = rate; packets = iov ∷ [] }))
      × (iov.ip ≡ outgoing4 e pkt src dst)
      × IsBalanced (words_sum e iov.ip)
      × (iov.frag ≡ none)
      × (length iov.ulp ≡ length pkt - 40)
      × IsBalanced (covered e (outgoing4 e pkt src dst) len iov.ulp)
unfolding list4 hdr4 summed store16
send_6to4-transport e t m cache cache' rate {pkt} {src} {dst} len w proto room balanced mapped hs hd
      path fits =
    let nxt = load8 pkt 6 in
    let listed = listed4 w e src dst in
    let incoming : IsIpHeader pkt = (w.bytes, inr (w.version, omega (arith, w.total))) in
    let bytes =
      hdr4-IsBytes (length pkt - 40 + 20) 0 ip_df (load8 pkt 7) nxt src dst (load8-lt pkt 7 w.bytes)
        (load8-lt pkt 6 w.bytes) hs hd in
    let size =
      length-hdr4 (length pkt - 40 + 20) 0 ip_df (load8 pkt 7) nxt src dst (load8-lt pkt 7 w.bytes)
        (load8-lt pkt 6 w.bytes) hs hd in
    let outgoing : IsIpHeader listed.ip = (bytes, inl (refl, omega (arith, size))) in
    let (iov, updated, adjusted, right) =
      update_ulp-transport e nxt len pkt listed proto incoming outgoing
        (drop-IsBytes 40 pkt w.bytes) (omega (arith, length-drop 40 pkt)) balanced in
    let translated = translate4-eq-some e pkt listed iov (ground arith) updated in
    let header = ap (λ i. summed e i.ip) adjusted.others in
    let zero_sum =
      summed-hdr4 (length pkt - 40 + 20) 0 ip_df (load8 pkt 7) nxt src dst (load8-lt pkt 7 w.bytes)
        (load8-lt pkt 6 w.bytes) hs hd e in
    (
      record iov { ip = summed e iov.ip },
      send_6to4_whole w e t m cache cache' rate iov mapped path fits translated proto,
      header,
      rw header zero_sum,
      ap (λ i. i.frag) adjusted.others,
      adjusted.same_length ∙ length-drop 40 pkt,
      right,
    )
