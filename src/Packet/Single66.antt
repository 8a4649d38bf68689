-- ===== src/Packet/Single66.antt =====
-- `send66_ItoG` and `send66_GtoI`: a whole packet, and one with a Fragment header.
use map.Checksum.Sum.{IsIpHeader}
use map.Checksum.Update.{
  IsBalanced, covered, IsAdjusted, sum_word_at, update_ulp-transport, update66_ulp-transport,
  update66_ulp-icmp6,
}
use map.Checksum.{Iov, proto_icmp6, proto_tcp, proto_udp, update66_ulp, pheader_payload_len}
use map.Common.{
  ℕ, ◌+◌, ◌-◌, ◌/◌, ◌%◌, ◌^◌, ◌≤◌, ◌<◌, ◌≡◌, ◌⊎◌, inl, inr, refl, ap, ◌∙◌, true, false, ◌||◌, none,
  some, [], ◌∷◌, arith, length, length-drop, drop, ltb, ◌==◌,
}
use map.Icmpsub.Process.{leave, process_icmp6}
use map.Icmpsub.{Rate, tun_header, icmp6_echo_request, icmp6_echo_reply}
use map.Mapping.{Tables}
use map.Memory.Bound.{load8-lt, drop-IsBytes}
use map.Memory.Words.{double}
use map.Memory.{Bytes, Endian, load8, load16, slice}
use map.Packet.Headers.{IsAddr, hdr6-IsIpHeader}
use map.Packet.Single6.{IsWhole6, fields6, analyzed6, payload_whole}
use map.Packet.SixToFour.{is_supported, icmp6_size}
use map.Packet.SixToSix.{Convert66, list66, checked66, send66}
use map.Packet.{Moment, Result, hdr6, load_network16, after_icmp}
use map.Pmtudisc.{Cache}
use map.Tunif.{af_inet6}

-- An echo message at the end of the IPv6 header.
abbrev pub IsEchoPacket : Bytes → Type 0
IsEchoPacket pkt =
    (load8 pkt 6 ≡ proto_icmp6)
    × ((load8 (drop 40 pkt) 0 ≡ icmp6_echo_request) ⊎ (load8 (drop 40 pkt) 0 ≡ icmp6_echo_reply))
    × (48 ≤ length pkt)

-- A TCP or UDP segment that reaches past its checksum.
abbrev pub IsTransport6 : Bytes → Type 0
IsTransport6 pkt =
    ((load8 pkt 6 ≡ proto_tcp) ⊎ (load8 pkt 6 ≡ proto_udp))
    × (double (sum_word_at (load8 pkt 6)) + 41 < length pkt)

-- The ICMP handling lets an echo message pass.
pub process_icmp6-echo :
    (e : Endian) (t : Tables) (m : Moment) (pkt : Bytes) (data_len : ℕ) (cache : Cache)
    (rate : Rate)
    → IsEchoPacket pkt
    → length pkt ≤ data_len
    → data_len < 2 ^ 64
    → process_icmp6 e t m.turn (drop 40 pkt) (icmp6_size data_len) cache rate
      ≡ some (leave true false cache rate)
unfolding process_icmp6
process_icmp6-echo e t m pkt data_len cache rate echo read bound =
    let size : ltb (icmp6_size data_len) 8 ≡ false = ground (arith, echo.2) in
    let passes : (load8 (drop 40 pkt) 0 == icmp6_echo_request
          || load8 (drop 40 pkt) 0 == icmp6_echo_reply)
        ≡ true =
      ground (arith, echo.1) in
    rw (size, passes) refl

-- The header of the packet that is sent.
abbrev pub outgoing66 : Bytes → Bytes → Bytes → Bytes
outgoing66 pkt src dst = hdr6 (load_network16 pkt 4) (load8 pkt 6) (load8 pkt 7) src dst

module _ {pkt : Bytes} {data_len : ℕ} (w : IsWhole6 pkt data_len) where
  -- The list before the checksum is adjusted.
  abbrev listed66 : Endian → Bytes → Bytes → Iov
  listed66 e src dst = record {
    af = tun_header e af_inet6;
    ip = outgoing66 pkt src dst;
    frag = none;
    ulp = drop 40 pkt;
    payload = none;
  }

  -- The payload length is copied.
  payload_len_kept :
      (e : Endian) (src dst : Bytes)
      → pheader_payload_len e (outgoing66 pkt src dst) ≡ pheader_payload_len e pkt
  unfolding pheader_payload_len hdr6 load16
  payload_len_kept e src dst =
      let high : load_network16 pkt 4 / 256 % 256 ≡ load8 pkt 4 =
        omega (arith, load8-lt pkt 4 w.bytes, load8-lt pkt 5 w.bytes) in
      let low : load_network16 pkt 4 % 256 ≡ load8 pkt 5 =
        omega (arith, load8-lt pkt 4 w.bytes, load8-lt pkt 5 w.bytes) in
      rw (high, low, w.version) refl

  module _ (e : Endian) (src dst : Bytes) (carried : IsTransport6 pkt ⊎ IsEchoPacket pkt)
      (balanced : IsBalanced (covered e pkt (pheader_payload_len e pkt) (drop 40 pkt)))
      (hs : IsAddr 16 src) (hd : IsAddr 16 dst) where
    -- The checksum is adjusted.
    updated66 :
        (iov : Iov) × (update66_ulp e (load8 pkt 6) pkt (listed66 e src dst) ≡ some iov)
        × IsAdjusted e (listed66 e src dst) iov
        × IsBalanced (covered e (outgoing66 pkt src dst) (pheader_payload_len e pkt) iov.ulp)
    updated66 =
        let listed = listed66 e src dst in
        let bytes = drop-IsBytes 40 pkt w.bytes in
        let incoming : IsIpHeader pkt = (w.bytes, inr (w.version, omega (arith, w.total))) in
        let outgoing =
          hdr6-IsIpHeader (load_network16 pkt 4) (load8 pkt 6) (load8 pkt 7) src dst
            (load8-lt pkt 6 w.bytes) (load8-lt pkt 7 w.bytes) hs hd in
        elim carried [
          | inl (proto, room) ↦
              rw (update66_ulp-transport e (load8 pkt 6) pkt listed (ground arith)) (
                update_ulp-transport e (load8 pkt 6) (pheader_payload_len e pkt) pkt listed proto
                  incoming outgoing bytes (omega (arith, length-drop 40 pkt)) balanced)
          | inr (proto, type, room) ↦
              let (iov, updated, adjusted, right) =
                update66_ulp-icmp6 e pkt listed incoming outgoing bytes
                  (omega (arith, length-drop 40 pkt)) balanced in
              (
                iov,
                ap (λ u. update66_ulp e u pkt listed) proto ∙ updated,
                adjusted,
                rw (← payload_len_kept e src dst) right,
              )
        ]

    list66_whole :
        (iov : Iov)
        → update66_ulp e (load8 pkt 6) pkt (listed66 e src dst) ≡ some iov
        → list66 e pkt (fields6 pkt) src dst ≡ iov
    unfolding list66
    list66_whole iov updated = rw (payload_whole w, list66) (rw (updated, list66) refl)

  -- After the ICMP handling one packet is written.
  checked66_whole :
      (convert : Convert66) (e : Endian) (t : Tables) (cache : Cache) (rate : Rate)
      (src dst : Bytes)
      → IsTransport6 pkt ⊎ IsEchoPacket pkt
      → convert e t (slice pkt 8 16) (slice pkt 24 16) ≡ some (src, dst)
      → checked66 convert e t pkt data_len cache rate ≡ record {
        ok = true;
        cache = cache;
        rate = rate;
        packets = list66 e pkt (fields6 pkt) src dst ∷ [];
      }
  unfolding checked66 is_supported
  checked66_whole convert e t cache rate src dst carried mapped =
      let supported : is_supported (load8 pkt 6) ≡ true = ground arith in
      let long : ltb data_len (length pkt - 40 + 40) ≡ false = ground (arith, w.total, w.read) in
      rw (analyzed6 w (ground arith), supported, long)
        (rw (mapped, checked66) (rw (analyzed6 w (ground arith)) refl))

  send66_whole :
      (convert : Convert66) (e : Endian) (t : Tables) (m : Moment) (cache : Cache) (rate : Rate)
      (sent : Result)
      → data_len < 2 ^ 64
      → IsTransport6 pkt ⊎ IsEchoPacket pkt
      → checked66 convert e t pkt data_len cache rate ≡ sent
      → send66 convert e t m pkt data_len cache rate ≡ some sent
  unfolding send66 after_icmp
  send66_whole convert e t m cache rate sent bound carried made = elim carried [
    | inl (proto, room) ↦
        let other : (load8 pkt 6 == proto_icmp6) ≡ false = ground arith in rw (other, made) refl
    | inr echo ↦
        let icmp : (load8 pkt 6 == proto_icmp6) ≡ true = ground (arith, echo.0) in
        rw (icmp, process_icmp6-echo e t m pkt data_len cache rate echo w.read bound, after_icmp)
          (rw made refl)
  ]

-- A packet of IPv6 with no Fragment header and as long as its header says, which has a TCP or UDP
-- segment that reaches past its checksum or an ICMPv6 echo message, with a zero sum under its header
-- and payload length, is sent by send66_ItoG, and by send66_GtoI, as one packet, if the
-- conversion of the addresses that it is given succeeds with two addresses of 16 bytes: the header has
-- the payload length, the next header, the hop limit and the new addresses, and the payload has the
-- old one's length and a zero sum under that header and its payload length.
pub send66-whole :
    (convert : Convert66) (e : Endian) (t : Tables) (m : Moment) (cache : Cache) (rate : Rate)
    {pkt src dst : Bytes} {data_len : ℕ}
    → IsWhole6 pkt data_len
    → data_len < 2 ^ 64
    → IsTransport6 pkt ⊎ IsEchoPacket pkt
    → IsBalanced (covered e pkt (pheader_payload_len e pkt) (drop 40 pkt))
    → convert e t (slice pkt 8 16) (slice pkt 24 16) ≡ some (src, dst)
    → IsAddr 16 src
    → IsAddr 16 dst
    → let header = outgoing66 pkt src dst in
      (iov : Iov) × (send66 convert e t m pkt data_len cache rate
        ≡ some (record { ok = true; cache = cache; rate = rate; packets = iov ∷ [] }))
      × (iov.ip ≡ header)
      × (iov.frag ≡ none)
      × (length iov.ulp ≡ length pkt - 40)
      × IsBalanced (covered e header (pheader_payload_len e header) iov.ulp)
send66-whole convert e t m cache rate {pkt} {src} {dst} w bound carried balanced mapped hs hd =
    let (iov, updated, adjusted, right) = updated66 w e src dst carried balanced hs hd in
    let made = checked66_whole w convert e t cache rate src dst carried mapped in
    let listed = list66_whole w e src dst carried balanced hs hd iov updated in
    (
      iov,
      send66_whole w convert e t m cache rate _ bound carried (rw (made, listed) refl),
      ap (λ i. i.ip) adjusted.others,
      ap (λ i. i.frag) adjusted.others,
      adjusted.same_length ∙ length-drop 40 pkt,
      rw (payload_len_kept w e src dst) right,
    )
