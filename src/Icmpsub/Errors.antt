-- ===== src/Icmpsub/Errors.antt =====
-- An error of an IPv6 router about a translated packet becomes an ICMPv4 error to its sender.
use map.Checksum.{Iov}
use map.Common.{ℕ, ◌-◌, ◌≤◌, ◌≡◌, refl, ap, Bool, true, false, some, arith, ltb}
use map.Icmpsub.Process.{Turn, Outcome, send, extract_mtu6, answer_too_big, too_big, process_icmp6}
use map.Icmpsub.{Rate, check_sending_rate}
use map.Icmpsub.Created.{IsAddr4}
use map.Icmpsub.Needfrag.{IsNeedfrag, needfrag_about, needfrag_about-IsNeedfrag}
use map.Mapping.Convert.{convert_addrs-reply}
use map.Mapping.Invariant.{IsConsistent}
use map.Mapping.{Tables, convert_addrs_4to6, convert_addrs_6to4}
use map.Memory.{Bytes, Endian, load8, slice}
use map.Pmtudisc.{Cache, update_path_mtu_size}
use map.Tunif.{af_inet6}

send_free :
    (turn : Turn) (message : Iov) (cache : Cache) (checked : Bool × Rate)
    → checked.0 ≡ false
    → ((send turn message cache checked).sent ≡ some message)
      × ((send turn message cache checked).cache ≡ cache)
unfolding send
send_free turn message cache (true, rate) h = absurd (cc)
send_free turn message cache (false, rate) h = (refl, refl)

answer_too_big_sent :
    (e : Endian) (t : Tables) (turn : Turn) (src6 dst6 src dst : Bytes) (mtu : ℕ) (cache : Cache)
    (rate : Rate)
    → convert_addrs_6to4 e t dst6 (some src6) ≡ (some dst, some src)
    → (check_sending_rate turn.checked rate).0 ≡ false
    → let out = answer_too_big e t turn src6 dst6 mtu cache rate in
      (out.sent ≡ some (needfrag_about e src dst (mtu - 48))) × (out.cache ≡ cache)
unfolding answer_too_big
answer_too_big_sent e t turn src6 dst6 src dst mtu cache rate h free =
    rw (ap (λ p. p.0) h, ap (λ p. p.1) h, answer_too_big)
      (send_free turn (needfrag_about e src dst (mtu - 48)) cache
        (check_sending_rate turn.checked rate) free)

reached :
    (e : Endian) (t : Tables) (turn : Turn) (icmp6 : Bytes) (icmp6_size : ℕ) (cache cache' : Cache)
    (rate : Rate) (src6 dst6 : Bytes)
    → load8 icmp6 0 ≡ 2
    → 48 ≤ icmp6_size
    → slice icmp6 16 16 ≡ src6
    → slice icmp6 32 16 ≡ dst6
    → update_path_mtu_size e turn.call af_inet6 dst6 (extract_mtu6 icmp6) cache
      ≡ some (true, cache')
    → process_icmp6 e t turn icmp6 icmp6_size cache rate
      ≡ some (answer_too_big e t turn src6 dst6 (extract_mtu6 icmp6) cache' rate)
unfolding process_icmp6 too_big
reached e t turn icmp6 icmp6_size cache cache' rate src6 dst6 type big hs hd u =
    let short : ltb icmp6_size 8 ≡ false = ground arith in
    let cut : ltb icmp6_size 48 ≡ false = ground arith in
    let u' = rw (← hd) at u in rw (short, type, cut, ← hs, ← hd) (rw (u', too_big) refl)

-- If consistent tables translate an IPv4 packet to an IPv6 one and a Packet Too Big message quotes
-- the header of that one, the update of the cache succeeding and the rate being under the limit,
-- icmpsub_process_icmp6 sends, to the sender of the IPv4 packet and in the name of its
-- destination, an ICMPv4 message of a needed fragmentation behind a header with a zero sum. The
-- message quotes a header with the addresses of the IPv4 packet, has a zero sum with it, and has in
-- its field the MTU less 48, cut to 16 bits.
pub process_icmp6-sent :
    (e : Endian) (t : Tables) (turn : Turn) (icmp6 : Bytes) (icmp6_size : ℕ) (cache cache' : Cache)
    (rate : Rate) (src dst src6 dst6 : Bytes)
    → IsConsistent e t
    → IsAddr4 src
    → IsAddr4 dst
    → convert_addrs_4to6 e t src dst ≡ some (src6, dst6)
    → load8 icmp6 0 ≡ 2
    → 48 ≤ icmp6_size
    → slice icmp6 16 16 ≡ src6
    → slice icmp6 32 16 ≡ dst6
    → update_path_mtu_size e turn.call af_inet6 dst6 (extract_mtu6 icmp6) cache
      ≡ some (true, cache')
    → (check_sending_rate turn.checked rate).0 ≡ false
    → (out : Outcome) × (process_icmp6 e t turn icmp6 icmp6_size cache rate ≡ some out)
      × (out.cache ≡ cache')
      × (message : Iov) × (out.sent ≡ some message)
      × IsNeedfrag e src dst (extract_mtu6 icmp6 - 48) message
process_icmp6-sent e t turn icmp6 icmp6_size cache cache' rate src dst src6 dst6 k ls ld made type
      big hs hd u free =
    let back = convert_addrs-reply k src dst src6 dst6 ls.1 ld.1 made in
    let mtu = extract_mtu6 icmp6 in
    let sent = answer_too_big_sent e t turn src6 dst6 src dst mtu cache' rate back free in
    (
      answer_too_big e t turn src6 dst6 mtu cache' rate,
      reached e t turn icmp6 icmp6_size cache cache' rate src6 dst6 type big hs hd u,
      sent.1,
      needfrag_about e src dst (mtu - 48),
      sent.0,
      needfrag_about-IsNeedfrag e src dst (mtu - 48) ls ld,
    )
