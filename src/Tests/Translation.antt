-- ===== src/Tests/Translation.antt =====
-- Packets through the translation.
use map.Checksum.Update.{IsBalanced, covered}
use map.Checksum.{Iov, pheader_payload_len}
use map.Common.Bits.{bit_or}
use map.Common.{
  ◌+◌, ◌/◌, ◌≡◌, ◌≤◌, ◌↔◌, refl, inl, inr, arith, false, true, none, some, List, [], ◌∷◌, ◌++◌,
  drop, length, replicate,
}
use map.Icmpsub.{Rate}
use map.Mapping.Invariant.{All}
use map.Mapping.{convert_addrs_6to4, convert_addrs_gtoi}
use map.Memory.Words.{words_sum}
use map.Memory.{Bytes, little, load8, load16, word}
use map.Packet.Cuts6.{IsPart6, carried, send_4to6-cut}
use map.Packet.Echo6.{echo_header6, send_4to6-echo}
use map.Tests.Sums.{echo4-IsBalanced}
use map.Packet.Echo4.{echo_header4, send_6to4-echo}
use map.Packet.Cuts4.{IsPart4, ident4, oversize4, send_6to4-cut}
use map.Icmpsub.{summed}
use map.Packet.SixToFour.{Fields6, analyze6}
use map.Packet.Fragment66.{IsFragment66, send66-fragment}
use map.Packet.FourToSix.{Fields4, analyze4, send_4to6, proto_fragment}
use map.Packet.Headers.{IsAddr}
use map.Packet.Reassembly6.{send_4to6-split}
use map.Packet.Single4.{IsWhole4, outgoing6, send_4to6-transport}
use map.Packet.Single6.{IsWhole6, outgoing4, send_6to4-transport}
use map.Packet.Single66.{outgoing66, send66-whole}
use map.Packet.SixToFour.{send_6to4}
use map.Packet.SixToSix.{send66}
use map.Packet.Split6.{oversize6, fragment_header, send_4to6-refragment}
use map.Packet.Refused.{send_4to6-refused}
use map.Packet.{Moment, drop_packet, hdr6, load_network16}
use map.Pmtudisc.{Cache, create_path_mtu, get_path_mtu_size}
use map.Tests.Packets.{
  header4, segment, server4, server6, remote4, long4, part4, answer6, echo66, part66, echo4,
  icmp_header4, pong6,
}
use map.Tests.Paths.{at, one, steps}
use map.Tests.Tables.{one_mapping, two_mappings, remote_under_zero, translates, lets_in, program}

abbrev idle : Rate
idle = record { count = 0; from = 0 }

abbrev moment : Moment
moment = record {
  turn = record { call = at 300; checked = 300; has_tun = true; written = true };
  looked_up = 300;
  checked = 300;
  random = 77;
}

server4-IsAddr : IsAddr 4 server4
server4-IsAddr = (omega arith, refl)

remote4-IsAddr : IsAddr 4 remote4
remote4-IsAddr = (omega arith, refl)

server6-IsAddr : IsAddr 16 server6
server6-IsAddr = (omega arith, refl)

remote_under_zero-IsAddr : IsAddr 16 remote_under_zero
remote_under_zero-IsAddr = (omega arith, refl)

abbrev syn4 : Bytes
syn4 = header4 ++ segment

syn4-IsWhole4 : IsWhole4 syn4 44
syn4-IsWhole4 = record {
  bytes = omega arith;
  version = refl;
  hlen = refl;
  total = refl;
  header_fits = omega arith;
  read = omega arith;
  unfragmented = refl;
}

syn4-covered : IsBalanced (covered little syn4 5120 (drop 20 syn4))
unfolding words_sum word
syn4-covered = refl

default_path : get_path_mtu_size little 300 10 server6 one ≡ (1500, one)
unfolding steps
default_path = refl

send_4to6-transport_example :
    (iov : Iov) × (send_4to6 little one_mapping moment syn4 44 one idle
      ≡ some (record { ok = true; cache = one; rate = idle; packets = iov ∷ [] }))
    × (iov.ip ≡ outgoing6 syn4 remote_under_zero server6)
    × (iov.frag ≡ none)
    × (length iov.ulp ≡ 20)
    × IsBalanced (covered little (outgoing6 syn4 remote_under_zero server6) 5120 iov.ulp)
send_4to6-transport_example =
    send_4to6-transport little one_mapping moment one one idle 5120 syn4-IsWhole4 (inl refl)
      (omega arith) syn4-covered translates remote_under_zero-IsAddr server6-IsAddr default_path
      (omega arith)

-- The path to the server has room for 24 bytes of a fragment.
abbrev narrow : Cache
narrow = (create_path_mtu little (at 200) 10 server6 72 one).1

narrow_path : get_path_mtu_size little 300 10 server6 narrow ≡ (72, narrow)
unfolding steps
narrow_path = refl

long4-IsWhole4 : IsWhole4 long4 64
long4-IsWhole4 = record {
  bytes = omega arith;
  version = refl;
  hlen = refl;
  total = refl;
  header_fits = omega arith;
  read = omega arith;
  unfragmented = refl;
}

long4-covered : IsBalanced (covered little long4 10240 (drop 20 long4))
unfolding words_sum word
long4-covered = refl

send_4to6-split_example :
    (first last : Iov) × (send_4to6 little one_mapping moment long4 64 narrow idle
      ≡ some (record {
        ok = true;
        cache = narrow;
        rate = (oversize6 little moment long4 72 idle).1;
        packets = (oversize6 little moment long4 72 idle).0 ++ (first ∷ last ∷ []);
      }))
    × (first.ip ≡ hdr6 32 proto_fragment 64 remote_under_zero server6)
    × (last.ip ≡ hdr6 24 proto_fragment 64 remote_under_zero server6)
    × (first.frag ≡ fragment_header 6 1 1)
    × (last.frag ≡ fragment_header 6 24 1)
    × (length first.ulp ≡ 24)
    × (last.ulp ≡ drop 24 (drop 20 long4))
    × IsBalanced
        (covered little (outgoing6 long4 remote_under_zero server6) 10240 (first.ulp ++ last.ulp))
send_4to6-split_example =
    send_4to6-split little one_mapping moment narrow narrow idle 10240 long4-IsWhole4 (inl refl)
      long4-covered translates remote_under_zero-IsAddr server6-IsAddr narrow_path (omega arith)
      (omega arith) (omega arith)

abbrev part4_fields : Fields4
part4_fields = record { plen = 40; ttl = 64; proto = 6; id = 7; offset = 1; more_frag = false }

analyzed_part4 : analyze4 part4 ≡ part4_fields
unfolding analyze4
analyzed_part4 = refl

send_4to6-refragment_example :
    (first last : Iov) × (send_4to6 little one_mapping moment part4 64 narrow idle
      ≡ some (record {
        ok = true;
        cache = narrow;
        rate = (oversize6 little moment part4 72 idle).1;
        packets = (oversize6 little moment part4 72 idle).0 ++ (first ∷ last ∷ []);
      }))
    × (first.frag ≡ fragment_header 6 9 7)
    × (last.frag ≡ fragment_header 6 (bit_or 8 32) 7)
    × (32 ≤ bit_or 8 32)
    × ((bit_or 8 32 ≡ 32) ↔ (bit_or 8 24 ≡ 32))
send_4to6-refragment_example =
    send_4to6-refragment little one_mapping moment narrow narrow idle part4 64 refl (omega arith)
      (omega arith) translates narrow_path part4_fields analyzed_part4 refl (omega arith)
      (omega arith) (omega arith) refl (omega arith) (omega arith) (omega arith)

send_4to6-cut_example :
    (parts : List Iov) × (send_4to6 little one_mapping moment part4 64 narrow idle
      ≡ some (record {
        ok = true;
        cache = narrow;
        rate = (oversize6 little moment part4 72 idle).1;
        packets = (oversize6 little moment part4 72 idle).0 ++ parts;
      }))
    × (length parts ≡ (analyze4 part4).plen / 24 + 1)
    × (carried parts ≡ (analyze4 part4).plen)
    × All (IsPart6 (analyze4 part4) remote_under_zero server6 72) parts
send_4to6-cut_example =
    send_4to6-cut little one_mapping moment narrow narrow idle part4 64 refl (omega arith)
      (omega arith) translates narrow_path (omega arith) (rw analyzed_part4 (omega arith))
      (rw analyzed_part4 (omega arith))

answer6-IsWhole6 : IsWhole6 answer6 64
answer6-IsWhole6 = record { bytes = omega arith; version = refl; total = refl; read = omega arith }

answer6-covered : IsBalanced (covered little answer6 5120 (drop 40 answer6))
unfolding words_sum word
answer6-covered = refl

answers :
    convert_addrs_6to4 little one_mapping server6 (some remote_under_zero)
    ≡ (some server4, some remote4)
unfolding program
answers = refl

path4 : get_path_mtu_size little 300 2 remote4 one ≡ (1500, one)
unfolding steps
path4 = refl

send_6to4-transport_example :
    let header = outgoing4 little answer6 server4 remote4 in
    (iov : Iov) × (send_6to4 little one_mapping moment answer6 64 one idle
      ≡ some (record { ok = true; cache = one; rate = idle; packets = iov ∷ [] }))
    × (iov.ip ≡ header)
    × IsBalanced (words_sum little iov.ip)
    × (iov.frag ≡ none)
    × (length iov.ulp ≡ 20)
    × IsBalanced (covered little header 5120 iov.ulp)
send_6to4-transport_example =
    send_6to4-transport little one_mapping moment one one idle 5120 answer6-IsWhole6 (inl refl)
      (omega arith) answer6-covered answers server4-IsAddr remote4-IsAddr path4 (omega arith)

echo66-IsWhole6 : IsWhole6 echo66 55
echo66-IsWhole6 = record { bytes = omega arith; version = refl; total = refl; read = omega arith }

echo66-covered :
    IsBalanced (covered little echo66 (pheader_payload_len little echo66) (drop 40 echo66))
unfolding words_sum word pheader_payload_len load16
echo66-covered = refl

send66-whole_example :
    let header = outgoing66 echo66 remote_under_zero server6 in
    (iov : Iov) × (send66 convert_addrs_gtoi little two_mappings moment echo66 55 one idle
      ≡ some (record { ok = true; cache = one; rate = idle; packets = iov ∷ [] }))
    × (iov.ip ≡ header)
    × (iov.frag ≡ none)
    × (length iov.ulp ≡ 11)
    × IsBalanced (covered little header (pheader_payload_len little header) iov.ulp)
send66-whole_example =
    send66-whole convert_addrs_gtoi little two_mappings moment one idle echo66-IsWhole6
      (omega arith) (inr (refl, inl refl, omega arith)) echo66-covered lets_in
      remote_under_zero-IsAddr server6-IsAddr

part66-IsFragment66 : IsFragment66 part66 60
part66-IsFragment66 = record {
  bytes = omega arith;
  fragment = refl;
  proto = inl refl;
  header_fits = omega arith;
  total = refl;
  read = omega arith;
}

send66-fragment_example :
    (iov : Iov) × (send66 convert_addrs_gtoi little two_mappings moment part66 60 one idle
      ≡ some (record { ok = true; cache = one; rate = idle; packets = iov ∷ [] }))
    × (iov.frag ≡ none)
    × (load8 iov.ip 6 ≡ 6)
    × (load_network16 iov.ip 4 ≡ length iov.ulp + 8)
send66-fragment_example =
    send66-fragment convert_addrs_gtoi little two_mappings moment one idle part66-IsFragment66
      lets_in

-- The packet of 40 bytes when 39 were read.
send_4to6-refused_example :
    send_4to6 little one_mapping moment syn4 39 one idle ≡ some (drop_packet false one idle)
send_4to6-refused_example =
    send_4to6-refused little one_mapping moment syn4 39 one idle (inr (inl (omega arith)))

abbrev ping4 : Bytes
ping4 = icmp_header4 ++ echo4

ping4-IsWhole4 : IsWhole4 ping4 35
ping4-IsWhole4 = record {
  bytes = omega arith;
  version = refl;
  hlen = refl;
  total = refl;
  header_fits = omega arith;
  read = omega arith;
  unfragmented = refl;
}

send_4to6-echo_example :
    let header = echo_header6 ping4 remote_under_zero server6 in
    (iov : Iov) × (send_4to6 little one_mapping moment ping4 35 one idle
      ≡ some (record { ok = true; cache = one; rate = idle; packets = iov ∷ [] }))
    × (iov.ip ≡ header)
    × (load8 iov.ulp 0 ≡ 128)
    × IsBalanced (covered little header (pheader_payload_len little header) iov.ulp)
send_4to6-echo_example =
    send_4to6-echo little one_mapping moment one one idle ping4-IsWhole4
      (refl, inl refl, omega arith) echo4-IsBalanced translates remote_under_zero-IsAddr
      server6-IsAddr default_path (omega arith)

pong6-IsWhole6 : IsWhole6 pong6 55
pong6-IsWhole6 = record { bytes = omega arith; version = refl; total = refl; read = omega arith }

pong6-covered : IsBalanced (covered little pong6 (pheader_payload_len little pong6) (drop 40 pong6))
unfolding words_sum word pheader_payload_len load16
pong6-covered = refl

send_6to4-echo_example :
    (iov : Iov) × (send_6to4 little one_mapping moment pong6 55 one idle
      ≡ some (record { ok = true; cache = one; rate = idle; packets = iov ∷ [] }))
    × (iov.ip ≡ summed little (echo_header4 pong6 server4 remote4))
    × IsBalanced (words_sum little iov.ip)
    × (load8 iov.ulp 0 ≡ 0)
    × IsBalanced (words_sum little iov.ulp)
send_6to4-echo_example =
    send_6to4-echo little one_mapping moment one one idle pong6-IsWhole6 (omega arith)
      (refl, inr refl, omega arith) pong6-covered answers server4-IsAddr remote4-IsAddr path4
      (omega arith)

-- A segment of 60 bytes, and the least MTU on its path.
abbrev long6 : Bytes
long6 = 96 ∷ 0 ∷ 0 ∷ 0 ∷ 0 ∷ 60 ∷ 6 ∷ 64 ∷ (server6 ++ (remote_under_zero ++ replicate 60 7))

abbrev least : Cache
least = (create_path_mtu little (at 200) 2 remote4 68 one).1

least_path : get_path_mtu_size little 300 2 remote4 least ≡ (68, least)
unfolding steps
least_path = refl

abbrev long6_fields : Fields6
long6_fields = record {
  next_header = 6;
  payload_len = 60;
  hop_limit = 64;
  fragmented = false;
  more_frag = false;
  offset = 0;
  id = 0;
  start = 40;
}

analyzed_long6 : analyze6 long6 ≡ long6_fields
unfolding analyze6
analyzed_long6 = refl

send_6to4-cut_example :
    (parts : List Iov) × (send_6to4 little one_mapping moment long6 100 least idle
      ≡ some (record {
        ok = true;
        cache = least;
        rate = (oversize4 little moment long6 68 idle).1;
        packets = (oversize4 little moment long6 68 idle).0 ++ parts;
      }))
    × (length parts ≡ (analyze6 long6).payload_len / 48 + 1)
    × (carried parts ≡ (analyze6 long6).payload_len)
    × All
        (IsPart4 little (analyze6 long6) server4 remote4 (ident4 little moment (analyze6 long6)) 68)
        parts
send_6to4-cut_example =
    send_6to4-cut little one_mapping moment least least idle long6 100 (omega arith)
      (rw analyzed_long6 (inl refl)) (rw analyzed_long6 (omega arith))
      (rw analyzed_long6 (omega arith)) answers least_path (omega arith)
      (rw analyzed_long6 (omega arith))
