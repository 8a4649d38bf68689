-- ===== src/Tests/Messages.antt =====
-- ICMP messages: the echo messages of `Packets`, an error of a router on each side, and the times
-- of a burst.
use map.Common.{ℕ, ◌-◌, ◌≤◌, ◌≡◌, refl, true, false, some, List, ◌++◌, arith, replicate}
use map.Checksum.{Iov}
use map.Icmpsub.Errors.{process_icmp6-sent}
use map.Icmpsub.Needfrag.{IsNeedfrag}
use map.Icmpsub.Limit.{passed, passed-le, after, check_sending_rate-passes}
use map.Icmpsub.Process.{Turn, Outcome, extract_mtu6, process_icmp6}
use map.Icmpsub.{
  create_icmp4_unreach_needfrag, create_icmp6_packet_too_big, Rate, check_sending_rate, restart,
  pass,
}
use map.Memory.{Bytes, little, load8, slice}
use map.Pmtudisc.{Cache, create_path_mtu, update_path_mtu_size}
use map.Tests.Packets.{server4, server6, remote4, remote6}
use map.Tests.Paths.{at, one, steps}
use map.Tests.Tables.{one_mapping, one_mapping-IsConsistent, remote_under_zero, translates}

abbrev needfrag_message : Bytes
needfrag_message = create_icmp4_unreach_needfrag little 1400 ++ replicate 12 0 ++ server4 ++ remote4

abbrev too_big_message : Bytes
too_big_message = create_icmp6_packet_too_big 1400 ++ replicate 8 0 ++ server6 ++ remote6

-- About the translation of a packet from `remote4` to `server4`.
abbrev quoting_message : Bytes
quoting_message =
    create_icmp6_packet_too_big 1400 ++ (replicate 8 0 ++ (remote_under_zero ++ server6))

abbrev turn : Turn
turn = record { call = at 200; checked = 200; has_tun = true; written = true }

abbrev idle : Rate
idle = record { count = 0; from = 0 }

abbrev burst : List ℕ
burst = replicate 40 7 ++ replicate 40 8

passed-le_example : passed burst (record { count = 0; from = 6 }) ≤ 22
passed-le_example = passed-le 7 burst (record { count = 0; from = 6 }) (omega arith)

abbrev noted : Cache
noted = (create_path_mtu little (at 200) 10 server6 1400 one).1

noted_mtu : extract_mtu6 quoting_message ≡ 1400
unfolding extract_mtu6 create_icmp6_packet_too_big
noted_mtu = refl

updated :
    update_path_mtu_size little (at 200) 10 server6 (extract_mtu6 quoting_message) one
    ≡ some (true, noted)
unfolding steps extract_mtu6 create_icmp6_packet_too_big
updated = refl

quotes_type : load8 quoting_message 0 ≡ 2
unfolding create_icmp6_packet_too_big
quotes_type = refl

quotes_src : slice quoting_message 16 16 ≡ remote_under_zero
unfolding create_icmp6_packet_too_big
quotes_src = refl

quotes_dst : slice quoting_message 32 16 ≡ server6
unfolding create_icmp6_packet_too_big
quotes_dst = refl

rate_allows : (check_sending_rate 200 idle).0 ≡ false
unfolding check_sending_rate restart pass
rate_allows = refl

process_icmp6-sent_example :
    (out : Outcome) × (process_icmp6 little one_mapping turn quoting_message 48 one idle ≡ some out)
    × (out.cache ≡ noted)
    × (message : Iov) × (out.sent ≡ some message)
    × IsNeedfrag little remote4 server4 (extract_mtu6 quoting_message - 48) message
process_icmp6-sent_example =
    process_icmp6-sent little one_mapping turn quoting_message 48 one noted idle remote4 server4
      remote_under_zero server6 one_mapping-IsConsistent (omega arith, refl) (omega arith, refl)
      translates quotes_type (omega arith) quotes_src quotes_dst updated rate_allows

check_sending_rate-passes_example :
    (check_sending_rate 10 (after burst (record { count = 0; from = 6 }))).0 ≡ false
check_sending_rate-passes_example =
    check_sending_rate-passes 8 10 burst (record { count = 0; from = 6 }) (omega arith)
      (omega arith) (omega arith)
