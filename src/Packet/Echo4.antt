-- ===== src/Packet/Echo4.antt =====
-- `send_6to4` on an ICMPv6 echo message.
use map.Checksum.Sum.{IsIpHeader}
use map.Checksum.Update.{IsBalanced, covered}
use map.Checksum.{Iov, proto_icmp, proto_icmp6, update_ulp, adjust, pheader_payload_len}
use map.Common.{
  ℕ, ◌+◌, ◌-◌, ◌^◌, ◌≤◌, ◌<◌, ◌≡◌, inr, refl, sym, ap, ◌∙◌, true, some, [], ◌∷◌, arith, length,
  length-drop, drop, set, ◌==◌,
}
use map.Icmpsub.Echo.{echo_type, convert_icmp-update_ulp6}
use map.Icmpsub.{Rate, summed}
use map.Mapping.{Tables, convert_addrs_6to4}
use map.Memory.Bound.{load8-lt, drop-IsBytes}
use map.Memory.Words.{words_sum}
use map.Memory.{Bytes, Endian, load8, slice, store16}
use map.Packet.Headers.{IsAddr, summed-hdr4}
use map.Packet.Single6.{IsWhole6, set_same, listed4, checked4_whole}
use map.Packet.Single66.{IsEchoPacket, process_icmp6-echo}
use map.Packet.SixToFour.{translate4, list4, send_6to4, is_supported, ip_df}
use map.Packet.{Moment, hdr4, after_icmp}
use map.Pmtudisc.{Cache, get_path_mtu_size}
use map.Tunif.{af_inet}
use mathlib.Core.Option.{some-injective}

-- The adjustment of the checksum leaves the type.
type_kept4 :
    (e : Endian) (orig : Bytes) (iov iov' : Iov)
    → update_ulp e proto_icmp orig iov ≡ some iov'
    → load8 iov'.ulp 0 ≡ load8 iov.ulp 0
unfolding update_ulp adjust store16
type_kept4 e orig iov iov' h =
    ap (λ i. load8 i.ulp 0) (sym (some-injective _ _ h)) ∙ stored iov.ulp _ _
  where
    stored : (ulp : Bytes) (a b : ℕ) → load8 (set (set ulp 2 a) 3 b) 0 ≡ load8 ulp 0
    stored [] a b = refl
    stored (x ∷ xs) a b = refl

-- The header that is sent, before its checksum.
abbrev pub echo_header4 : Bytes → Bytes → Bytes → Bytes
echo_header4 pkt src dst = hdr4 (length pkt - 40 + 20) 0 ip_df (load8 pkt 7) proto_icmp src dst

echo_translated4 :
    (e : Endian) {pkt : Bytes} {data_len : ℕ} (src dst : Bytes) (w : IsWhole6 pkt data_len)
    → IsEchoPacket pkt
    → IsBalanced (covered e pkt (pheader_payload_len e pkt) (drop 40 pkt))
    → (iov : Iov) × (translate4 e pkt (load8 pkt 6) (listed4 w e src dst) ≡ some iov)
      × (iov.ip ≡ echo_header4 pkt src dst)
      × (load8 iov.ulp 0 ≡ echo_type (load8 (drop 40 pkt) 0))
      × IsBalanced (words_sum e iov.ulp)
unfolding translate4 list4 hdr4
echo_translated4 e {pkt} src dst w echo balanced =
    let listed = listed4 w e src dst in
    let incoming : IsIpHeader pkt = (w.bytes, inr (w.version, omega (arith, w.total))) in
    let (iov1, converted, type, header, (iov, updated, adjusted, right)) =
      convert_icmp-update_ulp6 e pkt listed echo.1 incoming (drop-IsBytes 40 pkt w.bytes)
        (omega (arith, length-drop 40 pkt, echo.2)) balanced in
    let icmp : (load8 pkt 6 == proto_icmp6) ≡ true = ground (arith, echo.0) in
    let protocol : load8 iov1.ip 9 ≡ proto_icmp = ap (λ h. load8 h 9) header in
    (
      iov,
      rw (icmp, translate4)
          (rw (converted, translate4)
            (rw (protocol, set_same pkt 6) (rw (updated, translate4) refl))),
      ap (λ i. i.ip) adjusted.others ∙ header,
      type_kept4 e pkt iov1 iov updated ∙ type,
      right,
    )

-- An ICMPv6 echo message in a packet that has no Fragment header, is as long as its header says and
-- has a zero sum under its header, if the tables map its addresses to addresses of 4 bytes and
-- it is less 20 bytes no longer than the path MTU, is sent by send_6to4 as one packet: its header has
-- a zero sum, the total length, the protocol of ICMP, the hop limit and the mapped addresses, and
-- the message has the type of the other protocol and a zero sum of its own.
pub send_6to4-echo :
    (e : Endian) (t : Tables) (m : Moment) (cache cache' : Cache) (rate : Rate)
    {pkt src dst : Bytes} {data_len mtu : ℕ}
    → IsWhole6 pkt data_len
    → data_len < 2 ^ 64
    → IsEchoPacket pkt
    → IsBalanced (covered e pkt (pheader_payload_len e pkt) (drop 40 pkt))
    → convert_addrs_6to4 e t (slice pkt 8 16) (some (slice pkt 24 16)) ≡ (some src, some dst)
    → IsAddr 4 src
    → IsAddr 4 dst
    → get_path_mtu_size e m.looked_up af_inet dst cache ≡ (mtu, cache')
    → length pkt ≤ mtu + 20
    → (iov : Iov) × (send_6to4 e t m pkt data_len cache rate
        ≡ some (record { ok = true; cache = cache'; rate = rate; packets = iov ∷ [] }))
      × (iov.ip ≡ summed e (echo_header4 pkt src dst))
      × IsBalanced (words_sum e iov.ip)
      × (load8 iov.ulp 0 ≡ echo_type (load8 (drop 40 pkt) 0))
      × IsBalanced (words_sum e iov.ulp)
unfolding send_6to4 after_icmp is_supported
send_6to4-echo e t m cache cache' rate {pkt} {src} {dst} {data_len} w bound echo balanced mapped hs
      hd path fits =
    let (iov, translated, header, type, right) = echo_translated4 e src dst w echo balanced in
    let icmp : (load8 pkt 6 == proto_icmp6) ≡ true = ground (arith, echo.0) in
    let passes = process_icmp6-echo e t m pkt data_len cache rate echo w.read bound in
    let sent =
      checked4_whole w e t m cache cache' rate iov mapped path fits translated
        (ground (arith, echo.0)) (ground (arith, echo.0)) in
    let zero_sum =
      summed-hdr4 (length pkt - 40 + 20) 0 ip_df (load8 pkt 7) proto_icmp src dst
        (load8-lt pkt 7 w.bytes) (omega arith) hs hd e in
    (
      record iov { ip = summed e iov.ip },
      rw (icmp, passes, after_icmp) (rw sent refl),
      ap (summed e) header,
      rw header zero_sum,
      type,
      right,
    )
