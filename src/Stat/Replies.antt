-- ===== src/Stat/Replies.antt =====
-- The packets of a conversation are counted under one address: that by which the service behind
-- the translator is known in IPv4.
use map.Checksum.{proto_icmp, proto_icmp6, proto_tcp, proto_udp}
use map.Common.Maps.{get, modify, get-modify_self, get-modify_ne, get-Each}
use map.Common.{
  ℕ, ◌+◌, ◌%◌, ◌≤◌, ◌≡◌, refl, ap, ◌∙◌, true, false, none, some, [], ◌∷◌, arith, ◌||◌, get_or,
  length, length-take, length-drop,
}
use map.Mapping.Convert.{convert_addrs-reply}
use map.Mapping.Direction.{sixtofour, fourtosix}
use map.Mapping.Invariant.{IsConsistent}
use map.Mapping.{Tables, convert_addrs_4to6, convert_addrs_6to4}
use map.Memory.{Bytes, Endian, load8, slice}
use map.Packet.SixToFour.{analyze6, is_supported}
use map.Packet.{load_network16}
use map.Stat.Counted.{IsCounted, IsAccounted, new_chunk-IsCounted, count_ip4-IsCounted}
use map.Stat.Order.{lt_in_addr-IsOrder}
use map.Stat.{
  Chunk, Stat, new_element, new_chunk, count_ip4, count_ip6, count_at, count_packet, icmp_out,
  tcp_out, udp_out, update_4to6, update_6to4, update, lt_in_addr, is_short,
}

-- The entry of an IPv4 address, and a number in it.
abbrev pub chunk_of : Endian → Stat → Bytes → Chunk
chunk_of e s addr = get (lt_in_addr e) addr new_chunk s.stat46

abbrev pub num_of : Endian → Stat → Bytes → ℕ → ℕ
num_of e s addr i = (get_or (chunk_of e s addr) i new_element).num

-- The protocols that are counted, over IPv4 and IPv6, with the element of incoming packets; that of
-- outgoing ones is the next.
pub data Counted : ℕ → ℕ → ℕ → Type 0 where
  icmp : Counted proto_icmp proto_icmp6 0
  tcp : Counted proto_tcp proto_tcp 2
  udp : Counted proto_udp proto_udp 4

abbrev pub num_in : Chunk → ℕ → ℕ
num_in chunk i = (get_or chunk i new_element).num

count_ip4-num :
    (pkt : Bytes) (chunk : Chunk) {p q i : ℕ}
    → IsCounted chunk
    → Counted p q i
    → load8 pkt 9 ≡ p
    → (num_in (count_ip4 pkt chunk) i ≡ num_in chunk i + 1)
      × (num_in (count_ip4 pkt chunk) (i + 1) ≡ num_in chunk (i + 1))
unfolding count_ip4 count_at count_packet
count_ip4-num pkt (i ∷ o ∷ t ∷ u ∷ d ∷ v ∷ []) h icmp k = ground arith
count_ip4-num pkt (i ∷ o ∷ t ∷ u ∷ d ∷ v ∷ []) h tcp k = ground arith
count_ip4-num pkt (i ∷ o ∷ t ∷ u ∷ d ∷ v ∷ []) h udp k = ground arith
count_ip4-num pkt _ h c k = absurd h

count_ip6-num :
    (pkt : Bytes) (chunk : Chunk) {p q i : ℕ}
    → IsCounted chunk
    → Counted p q i
    → (analyze6 pkt).next_header ≡ q
    → (num_in (count_ip6 icmp_out tcp_out udp_out pkt chunk) i ≡ num_in chunk i)
      × (num_in (count_ip6 icmp_out tcp_out udp_out pkt chunk) (i + 1) ≡ num_in chunk (i + 1) + 1)
unfolding count_ip6 count_at count_packet
count_ip6-num pkt (i ∷ o ∷ t ∷ u ∷ d ∷ v ∷ []) h icmp k = ground arith
count_ip6-num pkt (i ∷ o ∷ t ∷ u ∷ d ∷ v ∷ []) h tcp k = ground arith
count_ip6-num pkt (i ∷ o ∷ t ∷ u ∷ d ∷ v ∷ []) h udp k = ground arith
count_ip6-num pkt _ h c k = absurd h

update_4to6_counts :
    (e : Endian) (pkt : Bytes) (len : ℕ) (s : Stat) {p q i : ℕ}
    → load8 pkt 0 % 16 ≡ 5
    → load_network16 pkt 2 ≤ len
    → Counted p q i
    → load8 pkt 9 ≡ p
    → update_4to6 e pkt len s ≡ record s {
      stat46 = modify (lt_in_addr e) (slice pkt 16 4) new_chunk (count_ip4 pkt) s.stat46;
    }
unfolding update_4to6
update_4to6_counts e pkt len s h l icmp k = ground arith
update_4to6_counts e pkt len s h l tcp k = ground arith
update_4to6_counts e pkt len s h l udp k = ground arith

supported : {p q i : ℕ} → Counted p q i → is_supported q ≡ true
unfolding is_supported
supported icmp = refl
supported tcp = refl
supported udp = refl

update_6to4_counts :
    (e : Endian) (t : Tables) (pkt addr : Bytes) (len : ℕ) (s : Stat) {p q i : ℕ}
    → Counted p q i
    → (analyze6 pkt).next_header ≡ q
    → (convert_addrs_6to4 e t (slice pkt 8 16) none).0 ≡ some addr
    → is_short pkt len ≡ false
    → update_6to4 e t pkt len s ≡ record s {
      stat46 =
          modify (lt_in_addr e) addr new_chunk (count_ip6 icmp_out tcp_out udp_out pkt) s.stat46;
    }
unfolding update_6to4
update_6to4_counts e t pkt addr len s c n p short = rw (p, short) (ground (arith, supported c))

module _ {e : Endian} {t : Tables} (c : IsConsistent e t) where
  -- The address under which the answer is counted.
  reply-addr :
      (pkt reply src6 dst6 : Bytes)
      → 20 ≤ length pkt
      → convert_addrs_4to6 e t (slice pkt 12 4) (slice pkt 16 4) ≡ some (src6, dst6)
      → slice reply 8 16 ≡ dst6
      → (convert_addrs_6to4 e t (slice reply 8 16) none).0 ≡ some (slice pkt 16 4)
  unfolding convert_addrs_6to4
  reply-addr pkt reply src6 dst6 long made same =
      let size : (i : ℕ) → i + 4 ≤ 20 → length (slice pkt i 4) ≡ 4 =
        λ i h. rw length-take (omega (arith, length-drop i pkt)) in
      let back =
        convert_addrs-reply c (slice pkt 12 4) (slice pkt 16 4) src6 dst6 (size 12 (omega arith))
          (size 16 (omega arith)) made in
      rw same (ap (λ p. p.0) back)

  -- With consistent tables, when a packet to a mapped IPv4 address and the answer from the mapped
  -- host, each of a protocol that is counted, without options and whole, come in, both are counted in
  -- the entry of that IPv4 address, the packet as incoming and the answer as outgoing; the entry of
  -- any other address and those of IPv6 stay.
  pub update-reply :
      (pkt reply src6 dst6 other : Bytes) (len reply_len : ℕ) (s : Stat) {p q i : ℕ}
      → IsAccounted e s
      → Counted p q i
      → 20 ≤ length pkt
      → load8 pkt 0 % 16 ≡ 5
      → load_network16 pkt 2 ≤ len
      → load8 pkt 9 ≡ p
      → convert_addrs_4to6 e t (slice pkt 12 4) (slice pkt 16 4) ≡ some (src6, dst6)
      → slice reply 8 16 ≡ dst6
      → (analyze6 reply).next_header ≡ q
      → is_short reply reply_len ≡ false
      → (lt_in_addr e other (slice pkt 16 4) || lt_in_addr e (slice pkt 16 4) other) ≡ true
      → (s' : Stat) × (update sixtofour e t reply reply_len (update fourtosix e t pkt len s) ≡ s')
        × (num_of e s' (slice pkt 16 4) i ≡ num_of e s (slice pkt 16 4) i + 1)
        × (num_of e s' (slice pkt 16 4) (i + 1) ≡ num_of e s (slice pkt 16 4) (i + 1) + 1)
        × (chunk_of e s' other ≡ chunk_of e s other)
        × (s'.stat66 ≡ s.stat66)
  unfolding update
  update-reply pkt reply src6 dst6 other len reply_len s {i} acc k long options whole proto made
        same next short differ =
      let dst = slice pkt 16 4 in
      let order = lt_in_addr-IsOrder e in
      let first = update_4to6_counts e pkt len s options whole k proto in
      let mid : Stat = record s {
        stat46 = modify (lt_in_addr e) dst new_chunk (count_ip4 pkt) s.stat46;
      } in
      let f = count_ip6 icmp_out tcp_out udp_out reply in
      let second =
        update_6to4_counts e t reply dst reply_len mid k next
          (reply-addr pkt reply src6 dst6 long made same) short in
      let old = chunk_of e s dst in
      let counted =
        get-Each (lt_in_addr e) IsCounted dst new_chunk s.stat46 new_chunk-IsCounted
          acc.table46.1 in
      let one = get-modify_self dst new_chunk (count_ip4 pkt) s.stat46 order in
      let both = get-modify_self dst new_chunk f mid.stat46 order ∙ ap f one in
      let num4 = count_ip4-num pkt old counted k proto in
      let num6 =
        count_ip6-num reply (count_ip4 pkt old) (count_ip4-IsCounted pkt old counted) k next in
      (
        record mid { stat46 = modify (lt_in_addr e) dst new_chunk f mid.stat46 },
        rw first second,
        ap (λ chunk. num_in chunk i) both ∙ num6.0 ∙ num4.0,
        ap (λ chunk. num_in chunk (i + 1)) both ∙ num6.1 ∙ ap (λ n. n + 1) num4.1,
        get-modify_ne dst other new_chunk f mid.stat46 order differ
            ∙ get-modify_ne dst other new_chunk (count_ip4 pkt) s.stat46 order differ,
        refl,
      )
