-- ===== src/Stat.antt =====
-- stat.cpp and stat.h: the counters of packets, by the service's address, the protocol and the
-- direction. A counter of type int is a natural number: its overflow is not modelled.
pub mod Order
pub mod Counted
pub mod Totals
pub mod Replies
use map.Checksum.{proto_icmp, proto_icmp6, proto_tcp, proto_udp}
use map.Common.Maps.{modify}
use map.Common.{
  ℕ, zero, suc, ◌+◌, ◌-◌, ◌*◌, ◌/◌, ◌%◌, Bool, true, false, not, ◌||◌, Option, none, some, List, [],
  ◌==◌, ltb, if◌then◌else◌, set, get_or, replicate,
}
use map.Common.Int.{ℤ, pos, negsuc, sub_ℕ, pos_part, neg_part}
use map.Mapping.{Tables, Direction, convert_addrs_6to4, convert_addrs_itog}
use map.Mapping.Direction.{unknown, sixtosix_itog, sixtosix_gtoi, sixtofour, fourtosix}
use map.Memory.{Bytes, Endian, little, big, load8, load16, slice}
use map.Packet.SixToFour.{analyze6, is_supported}
use map.Packet.{load_network16}

-- `<` on int.
abbrev pub ltb_ℤ : ℤ → ℤ → Bool
ltb_ℤ a b = ltb (pos_part a + neg_part b) (pos_part b + neg_part a)

-- `std::map<int, int>`.
abbrev pub Counts : Type 0
Counts = List (ℤ × ℕ)

-- `_stat_element`.
pub record Element : Type 0 where
  pub num : ℕ
  pub error : ℕ
  pub len : Counts
  pub port_stat : Counts

-- `stat_chunk`, which has six elements.
abbrev pub Chunk : Type 0
Chunk = List Element

abbrev pub icmp_in : ℕ
icmp_in = 0

abbrev pub icmp_out : ℕ
icmp_out = 1

abbrev pub tcp_in : ℕ
tcp_in = 2

abbrev pub tcp_out : ℕ
tcp_out = 3

abbrev pub udp_in : ℕ
udp_in = 4

abbrev pub udp_out : ℕ
udp_out = 5

-- What the containers make for a missing key.
abbrev pub new_element : Element
new_element = record { num = 0; error = 0; len = []; port_stat = [] }

abbrev pub new_chunk : Chunk
new_chunk = replicate 6 new_element

unfoldable pub total_from : ℕ → Chunk → ℕ
total_from zero chunk = 0
total_from (suc i) chunk = total_from i chunk + (get_or chunk i new_element).num

-- `stat_chunk::total_num`.
unfoldable pub total_num : Chunk → ℕ
total_num chunk = total_from 6 chunk

-- A `uint32_t` in the byte order of the host.
unfoldable pub load32 : Endian → Bytes → ℕ → ℕ
load32 little buf i = load16 little buf i + 65536 * load16 little buf (i + 2)
load32 big buf i = 65536 * load16 big buf i + load16 big buf (i + 2)

-- `operator<` of `map646_in_addr`.
unfoldable pub lt_in_addr : Endian → Bytes → Bytes → Bool
lt_in_addr e a b = ltb (load32 e a 0) (load32 e b 0)

-- `operator==` of `map646_in_addr`.
unfoldable pub eq_in_addr : Endian → Bytes → Bytes → Bool
eq_in_addr e a b = load32 e a 0 == load32 e b 0

-- The loops over the words from the `i`-th to the last, with `n` words to come.
unfoldable pub lt_words : Endian → ℕ → ℕ → Bytes → Bytes → Bool
lt_words e zero i a b = false
lt_words e (suc n) i a b =
    if ltb (load32 e a i) (load32 e b i)
    then true
    else if ltb (load32 e b i) (load32 e a i)
    then false
    else lt_words e n (i + 4) a b

unfoldable pub eq_words : Endian → ℕ → ℕ → Bytes → Bytes → Bool
eq_words e zero i a b = true
eq_words e (suc n) i a b =
    if not (load32 e a i == load32 e b i) then false else eq_words e n (i + 4) a b

unfoldable pub gt_words : Endian → ℕ → ℕ → Bytes → Bytes → Bool
gt_words e zero i a b = false
gt_words e (suc n) i a b =
    if ltb (load32 e a i) (load32 e b i)
    then false
    else if ltb (load32 e b i) (load32 e a i)
    then true
    else gt_words e n (i + 4) a b

-- `operator<`, `operator==` and `operator>` of `map646_in6_addr`.
unfoldable pub lt_in6_addr : Endian → Bytes → Bytes → Bool
lt_in6_addr e a b = lt_words e 4 0 a b

unfoldable pub eq_in6_addr : Endian → Bytes → Bytes → Bool
eq_in6_addr e a b = eq_words e 4 0 a b

unfoldable pub gt_in6_addr : Endian → Bytes → Bytes → Bool
gt_in6_addr e a b = gt_words e 4 0 a b

-- The class `stat`; `last_flush` is what `time` answered.
pub record Stat : Type 0 where
  pub stat66 : List (Bytes × Chunk)
  pub stat46 : List (Bytes × Chunk)
  pub last_flush : ℕ

-- `get_hist`: division rounds to 0.
unfoldable pub get_hist : ℤ → ℤ
get_hist (pos n) = if ltb 10 (n / 150) then pos 10 else pos (n / 150)
get_hist (negsuc n) = sub_ℕ 0 (suc n / 150)

-- `counts[k]++`.
unfoldable pub count : ℤ → Counts → Counts
count k counts = modify ltb_ℤ k 0 suc counts

-- What a packet does to the element of its protocol and direction. `port` is the source port, where
-- the code reads one, and `len` the int that is given to `get_hist`.
unfoldable pub count_packet : Option ℕ → ℤ → Element → Element
count_packet none len x = record x { num = suc x.num; len = count (get_hist len) x.len }
count_packet (some port) len x = record x {
  num = suc x.num;
  port_stat = count (pos port) x.port_stat;
  len = count (get_hist len) x.len;
}

unfoldable pub count_at : ℕ → Option ℕ → ℤ → Chunk → Chunk
count_at i port len chunk = set chunk i (count_packet port len (get_or chunk i new_element))

-- The chunk of a packet with an IPv4 header, after the packet. `sizeof(icmp)` is 28.
unfoldable pub count_ip4 : Bytes → Chunk → Chunk
count_ip4 pkt chunk =
    let plen = (load_network16 pkt 2 + 65536 - 20) % 65536 in
    let proto = load8 pkt 9 in
    if proto == proto_icmp
    then count_at icmp_in none (sub_ℕ plen 28) chunk
    else if proto == proto_tcp
    then count_at tcp_in (some (load_network16 pkt 20)) (sub_ℕ plen 20) chunk
    else count_at udp_in (some (load_network16 pkt 20)) (sub_ℕ plen 8) chunk

-- The same with an IPv6 header; the three elements are those of a direction.
unfoldable pub count_ip6 : ℕ → ℕ → ℕ → Bytes → Chunk → Chunk
count_ip6 icmp tcp udp pkt chunk =
    let f = analyze6 pkt in
    if f.next_header == proto_icmp6
    then count_at icmp none (sub_ℕ f.payload_len 8) chunk
    else if f.next_header == proto_tcp
    then count_at tcp (some (load_network16 pkt f.start)) (sub_ℕ f.payload_len 20) chunk
    else count_at udp (some (load_network16 pkt f.start)) (sub_ℕ f.payload_len 8) chunk

-- The case FOURTOSIX: the entry is made only for a protocol that is counted.
unfoldable pub update_4to6 : Endian → Bytes → ℕ → Stat → Stat
update_4to6 e pkt len s =
    let proto = load8 pkt 9 in
    if not (load8 pkt 0 % 16 * 4 == 20) || ltb len (load_network16 pkt 2)
    then s
    else if proto == proto_icmp || (proto == proto_tcp || proto == proto_udp)
    then record s {
      stat46 = modify (lt_in_addr e) (slice pkt 16 4) new_chunk (count_ip4 pkt) s.stat46;
    }
    else s

-- The size of a packet with an IPv6 header.
unfoldable pub is_short : Bytes → ℕ → Bool
is_short pkt len = ltb len ((analyze6 pkt).payload_len + 40)

-- The case SIXTOFOUR: the entry is that of the IPv4 address of the source.
unfoldable pub update_6to4 : Endian → Tables → Bytes → ℕ → Stat → Stat
update_6to4 e t pkt len s =
    if not (is_supported (analyze6 pkt).next_header)
    then s
    else elim ((convert_addrs_6to4 e t (slice pkt 8 16) none).0) [
      | none ↦ s
      | some addr ↦ if is_short pkt len then s else record s {
        stat46 =
            modify (lt_in_addr e) addr new_chunk (count_ip6 icmp_out tcp_out udp_out pkt) s.stat46;
      }
    ]

-- The case SIXTOSIX_GtoI: the entry is that of the destination.
unfoldable pub update_gtoi : Endian → Bytes → ℕ → Stat → Stat
update_gtoi e pkt len s =
    if not (is_supported (analyze6 pkt).next_header)
    then s
    else if is_short pkt len
    then s
    else record s {
      stat66 =
          modify (lt_in6_addr e) (slice pkt 24 16) new_chunk (count_ip6 icmp_in tcp_in udp_in pkt)
            s.stat66;
    }

-- The case SIXTOSIX_ItoG: the entry is that of the global address of the source.
unfoldable pub update_itog : Endian → Tables → Bytes → ℕ → Stat → Stat
update_itog e t pkt len s =
    if not (is_supported (analyze6 pkt).next_header)
    then s
    else elim (convert_addrs_itog e t (slice pkt 8 16) none) [
      | none ↦ s
      | some addrs ↦ if is_short pkt len then s else record s {
        stat66 =
            modify (lt_in6_addr e) addrs.0 new_chunk (count_ip6 icmp_out tcp_out udp_out pkt)
              s.stat66;
      }
    ]

-- `stat::update`, which returns 0 in every case.
unfoldable pub update : Direction → Endian → Tables → Bytes → ℕ → Stat → Stat
update fourtosix e t pkt len s = update_4to6 e pkt len s
update sixtofour e t pkt len s = update_6to4 e t pkt len s
update sixtosix_gtoi e t pkt len s = update_gtoi e pkt len s
update sixtosix_itog e t pkt len s = update_itog e t pkt len s
update unknown e t pkt len s = s

-- `stat::flush`.
unfoldable pub flush : ℕ → Stat → Stat
flush now s = record { stat66 = []; stat46 = []; last_flush = now }
