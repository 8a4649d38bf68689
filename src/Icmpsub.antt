-- ===== src/Icmpsub.antt =====
-- icmpsub.c: the ICMP and ICMPv6 messages. An echo message is converted; a message that tells of a
-- path MTU updates the cache of pmtudisc.c and is answered, to the node on the other side, with a
-- message of the other protocol; all others are discarded.
pub mod Echo
pub mod Limit
pub mod Created
pub mod Process
pub mod Safety
pub mod Needfrag
pub mod Errors
use map.Checksum.{
  Iov, proto_icmp, proto_icmp6, proto_tcp, update_icmp_type_code, calc_ip4_header, calc_ulp,
}
use map.Common.{
  ℕ, suc, ◌+◌, ◌-◌, ◌*◌, ◌/◌, ◌%◌, ◌^◌, Bool, true, false, not, ◌||◌, ◌&&◌, Option, none, some,
  List, [], ◌∷◌, ◌++◌, ◌==◌, ltb, if◌then◌else◌, set, take, replicate,
}
use map.Mapping.{Tables, convert_addrs_4to6, convert_addrs_6to4}
use map.Memory.{Bytes, Endian, htons, load8, load16, store16, slice}
use map.Pmtudisc.{Cache, Call, update_path_mtu_size}
use map.Tunif.{tun_set_af, af_inet, af_inet6}

abbrev pub icmp_echoreply : ℕ
icmp_echoreply = 0

abbrev pub icmp_unreach : ℕ
icmp_unreach = 3

abbrev pub icmp_unreach_needfrag : ℕ
icmp_unreach_needfrag = 4

abbrev pub icmp_echo : ℕ
icmp_echo = 8

abbrev pub icmp6_packet_too_big : ℕ
icmp6_packet_too_big = 2

abbrev pub icmp6_echo_request : ℕ
icmp6_echo_request = 128

abbrev pub icmp6_echo_reply : ℕ
icmp6_echo_reply = 129

-- A case of `icmpsub_convert_icmp`: the new type, the checksum, and the protocol field of the IP
-- header, which stands at `at`.
unfoldable pub retype : Endian → ℕ → ℕ → ℕ → ℕ → Iov → Iov
retype e old_type new_type at proto iov =
    let typed = set iov.ulp 0 new_type in
    let code = load8 typed 1 in
    record iov {
      ip = set iov.ip at proto;
      ulp = update_icmp_type_code e typed old_type code new_type code;
    }

-- `icmpsub_convert_icmp`: `none` is -1 or, for a protocol that is not ICMP, the failed assertion.
unfoldable pub convert_icmp : Endian → ℕ → Iov → Option Iov
convert_icmp e proto iov =
    let old_type = load8 iov.ulp 0 in
    if proto == proto_icmp
    then if old_type == icmp_echo
      then some (retype e icmp_echo icmp6_echo_request 6 proto_icmp6 iov)
      else if old_type == icmp_echoreply
      then some (retype e icmp_echoreply icmp6_echo_reply 6 proto_icmp6 iov)
      else none
    else if proto == proto_icmp6
    then if old_type == icmp6_echo_request
      then some (retype e icmp6_echo_request icmp_echo 9 proto_icmp iov)
      else if old_type == icmp6_echo_reply
      then some (retype e icmp6_echo_reply icmp_echoreply 9 proto_icmp iov)
      else none
    else none

-- The static variables of `icmpsub_check_sending_rate`.
pub record Rate : Type 0 where
  pub count : ℕ
  pub from : ℕ

abbrev pub rate_limit_count : ℕ
rate_limit_count = 10

unfoldable pub restart : ℕ → Rate → Rate
restart now r = if ltb (r.from + 1) now then record { count = 0; from = now } else r

unfoldable pub pass : Rate → Bool × Rate
pass r =
    if ltb rate_limit_count r.count then (true, r) else (false, record r { count = suc r.count })

-- `icmpsub_check_sending_rate`: whether the rate is over the limit.
unfoldable pub check_sending_rate : ℕ → Rate → Bool × Rate
check_sending_rate now r = pass (restart now r)

-- An IPv4 header of 20 bytes, filled in after `memset`.
unfoldable pub ip4_header : Endian → ℕ → ℕ → Bytes → Bytes → Bytes
ip4_header e ip_len proto src dst =
    let versioned = store16 e (set (replicate 12 0) 0 0x45) 2 (htons e ip_len) in
    set (set versioned 8 64) 9 proto ++ take 4 src ++ take 4 dst

-- An IPv6 header for an ICMPv6 message.
unfoldable pub ip6_header : Endian → ℕ → Bytes → Bytes → Bytes
ip6_header e plen src dst =
    let versioned = store16 e (set (replicate 8 0) 0 0x60) 4 (htons e plen) in
    set (set versioned 6 proto_icmp6) 7 64 ++ take 16 src ++ take 16 dst

-- The IP header's checksum is filled in.
unfoldable pub summed : Endian → Bytes → Bytes
summed e hdr = store16 e hdr 10 (calc_ip4_header e hdr)

-- The message of `icmpsub_create_icmp4_unreach_needfrag`.
unfoldable pub create_icmp4_unreach_needfrag : Endian → ℕ → Bytes
create_icmp4_unreach_needfrag e mtu =
    store16 e (set (set (replicate 8 0) 0 icmp_unreach) 1 icmp_unreach_needfrag) 6 (htons e mtu)

-- `htonl` of the MTU, in the memory of either host.
abbrev pub network32 : ℕ → Bytes
network32 v = v / 2 ^ 24 % 256 ∷ v / 2 ^ 16 % 256 ∷ v / 2 ^ 8 % 256 ∷ v % 256 ∷ []

-- `ntohl` of the four bytes.
abbrev pub load_network32 : Bytes → ℕ → ℕ
load_network32 buf i =
    load8 buf i * 2 ^ 24
    + load8 buf (i + 1) * 2 ^ 16
    + load8 buf (i + 2) * 2 ^ 8
    + load8 buf (i + 3)

-- The message of `icmpsub_create_icmp6_packet_too_big`.
unfoldable pub create_icmp6_packet_too_big : ℕ → Bytes
create_icmp6_packet_too_big mtu = icmp6_packet_too_big ∷ 0 ∷ 0 ∷ 0 ∷ network32 mtu

-- The `af` entry of a scatter list, which `tun_set_af` fills.
unfoldable pub tun_header : Endian → ℕ → Bytes
tun_header e af = elim (tun_set_af e (replicate 4 0) af) [ none ↦ replicate 4 0 | some b ↦ b ]

-- The call of `cksum_calc_ulp`, whose result is not looked at.
unfoldable pub with_checksum : Endian → ℕ → Iov → Iov
with_checksum e ulp iov = elim (calc_ulp e ulp iov) [ none ↦ iov | some iov' ↦ iov' ]

-- What `icmpsub_send_icmp4_unreach_needfrag` writes; `in_pkt` is the original header.
unfoldable pub icmp4_message : Endian → Bytes → Bytes → Bytes → ℕ → Iov
icmp4_message e in_pkt local remote mtu = with_checksum e proto_icmp (record {
  af = tun_header e af_inet;
  ip = summed e (ip4_header e 48 proto_icmp local remote);
  frag = none;
  ulp = create_icmp4_unreach_needfrag e mtu;
  payload = some (take 20 in_pkt);
})

-- What `icmpsub_send_icmp6_packet_too_big` writes.
unfoldable pub icmp6_message : Endian → Bytes → Bytes → Bytes → ℕ → Iov
icmp6_message e in_pkt local remote mtu = with_checksum e proto_icmp6 (record {
  af = tun_header e af_inet6;
  ip = ip6_header e 48 local remote;
  frag = none;
  ulp = create_icmp6_packet_too_big mtu;
  payload = some (take 40 in_pkt);
})
