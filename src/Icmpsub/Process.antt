-- ===== src/Icmpsub/Process.antt =====
-- icmpsub.c: sending the two messages, and `icmpsub_process_icmp4` and `icmpsub_process_icmp6`.
use map.Checksum.{Iov, proto_tcp}
use map.Common.{
  ℕ, ◌-◌, ◌^◌, Bool, true, false, not, ◌||◌, ◌&&◌, Option, none, some, ◌==◌, ltb, if◌then◌else◌,
}
use map.Icmpsub.{
  Rate, check_sending_rate, icmp4_message, icmp6_message, ip4_header, ip6_header, summed,
  load_network32, icmp_echo, icmp_echoreply, icmp_unreach, icmp_unreach_needfrag,
  icmp6_packet_too_big, icmp6_echo_request, icmp6_echo_reply,
}
use map.Mapping.{Tables, convert_addrs_4to6, convert_addrs_6to4}
use map.Memory.{Bytes, Endian, htons, load8, load16, slice}
use map.Pmtudisc.{Cache, Call, update_path_mtu_size}
use map.Tunif.{af_inet, af_inet6}

-- What a call meets: those of the update of the cache, the time of the rate check, whether
-- `tun_fd > 0`, and whether `writev` succeeds.
pub record Turn : Type 0 where
  pub call : Call
  pub checked : ℕ
  pub has_tun : Bool
  pub written : Bool

-- What a call leaves: whether it returns 0, `*discard_okp`, the state of pmtudisc.c and of the
-- rate limit, and the packet that is given to `writev`.
pub record Outcome : Type 0 where
  pub ok : Bool
  pub discard_ok : Bool
  pub cache : Cache
  pub rate : Rate
  pub sent : Option Iov

-- The part of `icmpsub_send_icmp4_unreach_needfrag` and `icmpsub_send_icmp6_packet_too_big` around
-- the message: one over the limit is not sent.
unfoldable pub send : Turn → Iov → Cache → Bool × Rate → Outcome
send turn message cache (over, rate) =
    if over
    then (record { ok = true; discard_ok = true; cache = cache; rate = rate; sent = none })
    else (record {
      ok = turn.written;
      discard_ok = true;
      cache = cache;
      rate = rate;
      sent = some message;
    })

-- Return without a message.
abbrev pub leave : Bool → Bool → Cache → Rate → Outcome
leave ok discard_ok cache rate = record {
  ok = ok;
  discard_ok = discard_ok;
  cache = cache;
  rate = rate;
  sent = none;
}

-- The MTU of `icmpsub_extract_icmp4_unreach_needfrag`.
unfoldable pub extract_mtu4 : Endian → Bytes → ℕ
extract_mtu4 e icmp = let mtu = htons e (load16 e icmp 6) in if ltb mtu 68 then 68 else mtu

-- The MTU of `icmpsub_extract_icmp6_packet_too_big`: an `int`, so 2 ^ 31 and more is negative.
unfoldable pub extract_mtu6 : Bytes → ℕ
extract_mtu6 icmp6 =
    let mtu = load_network32 icmp6 4 in if ltb mtu 1280 || not (ltb mtu (2 ^ 31)) then 1280 else mtu

-- `icmpsub_process_icmp4` from the conversion of the addresses on.
unfoldable pub answer_needfrag : Endian → Tables → Turn → Bytes → Bytes → ℕ → Cache → Rate → Outcome
answer_needfrag e t turn local remote mtu cache rate = elim (convert_addrs_4to6 e t remote local) [
  | none ↦ leave false true cache rate
  | some addrs ↦
      let remote6 = addrs.0 in
      let local6 = addrs.1 in
      if turn.has_tun
      then send turn (icmp6_message e (ip6_header e 40 local6 remote6) remote6 local6 mtu) cache
          (check_sending_rate turn.checked rate)
      else leave true true cache rate
]

-- `icmpsub_process_icmp4` from the message of a router on.
unfoldable pub needfrag : Endian → Tables → Turn → Bytes → Cache → Rate → Option Outcome
needfrag e t turn icmp cache rate =
    let local = slice icmp 20 4 in
    let remote = slice icmp 24 4 in
    let mtu = extract_mtu4 e icmp in
    elim (update_path_mtu_size e turn.call af_inet remote mtu cache) [
      | none ↦ none
      | some updated ↦
          if updated.0
          then some (answer_needfrag e t turn local remote mtu updated.1 rate)
          else some (leave false true updated.1 rate)
    ]

-- `icmpsub_process_icmp4`; `none` is a failed assertion.
unfoldable pub process_icmp4 : Endian → Tables → Turn → Bytes → ℕ → Cache → Rate → Option Outcome
process_icmp4 e t turn icmp icmp_size cache rate =
    let type = load8 icmp 0 in
    if ltb icmp_size 8
    then some (leave false true cache rate)
    else if type == icmp_echo || type == icmp_echoreply
    then some (leave true false cache rate)
    else if type == icmp_unreach && load8 icmp 1 == icmp_unreach_needfrag
    then if ltb icmp_size 28
      then some (leave false true cache rate)
      else needfrag e t turn icmp cache rate
    else some (leave true true cache rate)

-- `icmpsub_process_icmp6` from the conversion of the addresses on.
unfoldable pub answer_too_big : Endian → Tables → Turn → Bytes → Bytes → ℕ → Cache → Rate → Outcome
answer_too_big e t turn local remote mtu cache rate =
    let addrs = convert_addrs_6to4 e t remote (some local) in
    elim addrs.0 [
      | none ↦ leave false true cache rate
      | some remote4 ↦ elim addrs.1 [
        | none ↦ leave false true cache rate
        | some local4 ↦
            send turn
              (icmp4_message e (summed e (ip4_header e 20 proto_tcp local4 remote4)) remote4 local4
                (mtu - 48))
              cache (check_sending_rate turn.checked rate)
      ]
    ]

unfoldable pub too_big : Endian → Tables → Turn → Bytes → Cache → Rate → Option Outcome
too_big e t turn icmp6 cache rate =
    let local = slice icmp6 16 16 in
    let remote = slice icmp6 32 16 in
    let mtu = extract_mtu6 icmp6 in
    elim (update_path_mtu_size e turn.call af_inet6 remote mtu cache) [
      | none ↦ none
      | some updated ↦
          if updated.0
          then some (answer_too_big e t turn local remote mtu updated.1 rate)
          else some (leave false true updated.1 rate)
    ]

-- `icmpsub_process_icmp6`.
unfoldable pub process_icmp6 : Endian → Tables → Turn → Bytes → ℕ → Cache → Rate → Option Outcome
process_icmp6 e t turn icmp6 icmp6_size cache rate =
    let type = load8 icmp6 0 in
    if ltb icmp6_size 8
    then some (leave false true cache rate)
    else if type == icmp6_echo_request || type == icmp6_echo_reply
    then some (leave true false cache rate)
    else if type == icmp6_packet_too_big
    then if ltb icmp6_size 48
      then some (leave false true cache rate)
      else too_big e t turn icmp6 cache rate
    else some (leave true true cache rate)
