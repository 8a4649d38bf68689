-- ===== src/Packet/Echo6.antt =====
-- `send_4to6` on an ICMP echo message.
use map.Checksum.Update.{IsBalanced, covered}
use map.Checksum.{
  Iov, proto_icmp, proto_icmp6, ip_header_len, update_ulp, adjust, pheader_payload_len,
}
use map.Common.{
  ℕ, ◌+◌, ◌-◌, ◌≤◌, ◌≡◌, ◌⊎◌, refl, sym, ap, ◌∙◌, true, false, ◌||◌, some, [], ◌∷◌, arith, length,
  length-drop, drop, set, ltb, ◌==◌,
}
use map.Icmpsub.Echo.{echo_type, convert_icmp-update_ulp}
use map.Icmpsub.Process.{leave, process_icmp4}
use map.Icmpsub.{Rate, icmp_echo, icmp_echoreply}
use map.Mapping.{Tables, convert_addrs_4to6}
use map.Memory.Bound.{load8-lt, drop-IsBytes}
use map.Memory.Words.{words_sum}
use map.Memory.{Bytes, Endian, load8, slice, store16}
use map.Packet.FourToSix.{translate6, list6, send_4to6}
use map.Packet.Headers.{IsAddr, hdr6-IsIpHeader}
use map.Packet.Single4.{IsWhole4, fields4, analyzed4, forward6_whole}
use map.Packet.{Moment, hdr6, load_network16, after_icmp}
use map.Pmtudisc.{Cache, get_path_mtu_size}
use map.Tunif.{af_inet6}
use mathlib.Core.Option.{some-injective}

-- An echo message behind the IPv4 header.
abbrev pub IsEchoPacket4 : Bytes → Type 0
IsEchoPacket4 pkt =
    (load8 pkt 9 ≡ proto_icmp)
    × ((load8 (drop 20 pkt) 0 ≡ icmp_echo) ⊎ (load8 (drop 20 pkt) 0 ≡ icmp_echoreply))
    × (28 ≤ length pkt)

-- The adjustment of the checksum leaves the type.
type_kept :
    (e : Endian) (orig : Bytes) (iov iov' : Iov)
    → update_ulp e proto_icmp6 orig iov ≡ some iov'
    → load8 iov'.ulp 0 ≡ load8 iov.ulp 0
unfolding update_ulp adjust store16
type_kept e orig iov iov' h =
    ap (λ i. load8 i.ulp 0) (sym (some-injective _ _ h)) ∙ stored iov.ulp _ _
  where
    stored : (ulp : Bytes) (a b : ℕ) → load8 (set (set ulp 2 a) 3 b) 0 ≡ load8 ulp 0
    stored [] a b = refl
    stored (x ∷ xs) a b = refl

process_icmp4-echo :
    (e : Endian) (t : Tables) (m : Moment) (pkt : Bytes) (size : ℕ) (cache : Cache) (rate : Rate)
    → IsEchoPacket4 pkt
    → 8 ≤ size
    → process_icmp4 e t m.turn (drop 20 pkt) size cache rate ≡ some (leave true false cache rate)
unfolding process_icmp4
process_icmp4-echo e t m pkt size cache rate echo room =
    let long : ltb size 8 ≡ false = ground arith in
    let passes : (load8 (drop 20 pkt) 0 == icmp_echo || load8 (drop 20 pkt) 0 == icmp_echoreply)
        ≡ true =
      ground (arith, echo.1) in
    rw (long, passes) refl

-- The header that is sent.
abbrev pub echo_header6 : Bytes → Bytes → Bytes → Bytes
echo_header6 pkt src dst = hdr6 (length pkt - 20) proto_icmp6 (load8 pkt 8) src dst

echo_translated :
    (e : Endian) {pkt : Bytes} {data_len : ℕ} (src dst : Bytes)
    → IsWhole4 pkt data_len
    → IsEchoPacket4 pkt
    → IsBalanced (words_sum e (drop 20 pkt))
    → IsAddr 16 src
    → IsAddr 16 dst
    → let header = echo_header6 pkt src dst in
      (iov : Iov) × (translate6 e pkt (load8 pkt 9) (list6 e (fields4 pkt) src dst (drop 20 pkt))
        ≡ some iov)
      × (iov.ip ≡ header)
      × (load8 iov.ulp 0 ≡ echo_type (load8 (drop 20 pkt) 0))
      × IsBalanced (covered e header (pheader_payload_len e header) iov.ulp)
unfolding translate6 list6 hdr6
echo_translated e {pkt} src dst w echo balanced hs hd =
    let listed = list6 e (fields4 pkt) src dst (drop 20 pkt) in
    let outgoing =
      hdr6-IsIpHeader (length pkt - 20) proto_icmp6 (load8 pkt 8) src dst (omega arith)
        (load8-lt pkt 8 w.bytes) hs hd in
    let (iov1, converted, type, header, (iov, updated, adjusted, right)) =
      convert_icmp-update_ulp e pkt listed echo.1 outgoing (drop-IsBytes 20 pkt w.bytes)
        (omega (arith, length-drop 20 pkt, echo.2)) balanced in
    let icmp : (load8 pkt 9 == proto_icmp) ≡ true = ground (arith, echo.0) in
    let nxt : load8 iov1.ip 6 ≡ proto_icmp6 = ap (λ h. load8 h 6) header in
    (
      iov,
      rw (icmp, translate6) (rw (converted, translate6) (rw nxt (rw (updated, translate6) refl))),
      ap (λ i. i.ip) adjusted.others ∙ header,
      type_kept e pkt iov1 iov updated ∙ type,
      right,
    )

-- An ICMP echo message of IPv4 in a packet that is whole and without options, of at least 8 bytes
-- whose words have a zero sum, if the tables map the addresses to addresses of 16 bytes and the packet
-- is with 28 bytes more no longer than the path MTU, is sent by send_4to6 as one packet: its header
-- has the message's length, the next header of ICMPv6, the time to live and the mapped addresses,
-- and the message has the type of the other protocol and a zero sum under that header.
pub send_4to6-echo :
    (e : Endian) (t : Tables) (m : Moment) (cache cache' : Cache) (rate : Rate)
    {pkt src dst : Bytes} {data_len mtu : ℕ}
    → IsWhole4 pkt data_len
    → IsEchoPacket4 pkt
    → IsBalanced (words_sum e (drop 20 pkt))
    → convert_addrs_4to6 e t (slice pkt 12 4) (slice pkt 16 4) ≡ some (src, dst)
    → IsAddr 16 src
    → IsAddr 16 dst
    → get_path_mtu_size e m.looked_up af_inet6 dst cache ≡ (mtu, cache')
    → length pkt + 28 ≤ mtu
    → let header = echo_header6 pkt src dst in
      (iov : Iov) × (send_4to6 e t m pkt data_len cache rate
        ≡ some (record { ok = true; cache = cache'; rate = rate; packets = iov ∷ [] }))
      × (iov.ip ≡ header)
      × (load8 iov.ulp 0 ≡ echo_type (load8 (drop 20 pkt) 0))
      × IsBalanced (covered e header (pheader_payload_len e header) iov.ulp)
unfolding send_4to6 after_icmp
send_4to6-echo e t m cache cache' rate {pkt} {src} {dst} {data_len} w echo balanced mapped hs hd
      path fits =
    let (iov, translated, header, type, right) = echo_translated e src dst w echo balanced hs hd in
    let hlen : (ip_header_len pkt == 20) ≡ true = ground (arith, w.hlen) in
    let long : ltb data_len (load_network16 pkt 2) ≡ false = ground (arith, w.total, w.read) in
    let icmp : (load8 pkt 9 == proto_icmp) ≡ true = ground (arith, echo.0) in
    let passes =
      process_icmp4-echo e t m pkt (data_len - 2) cache rate echo (omega (arith, echo.2, w.read)) in
    let sent = forward6_whole w e t m cache cache' rate iov mapped path fits translated in
    (
      iov,
      rw (analyzed4 w, hlen, long, icmp, passes, after_icmp) (rw sent refl),
      header,
      type,
      right,
    )
