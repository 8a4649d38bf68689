-- ===== src/Stat/Totals.antt =====
-- How many packets the counters have counted.
use map.Checksum.{proto_icmp, proto_tcp, proto_udp}
use map.Common.Maps.{modify, sum_by, sum_by-modify-Each}
use map.Common.{
  ℕ, ◌+◌, ◌*◌, ◌%◌, ◌≡◌, refl, none, [], ◌∷◌, ◌⊎◌, inl, inr, arith, ◌==◌, ◌||◌, ltb, not,
  Bool-cases, Option-cases,
}
use map.Mapping.{Tables, Direction, convert_addrs_6to4, convert_addrs_itog}
use map.Mapping.Direction.{unknown, sixtosix_itog, sixtosix_gtoi, sixtofour, fourtosix}
use map.Memory.{Bytes, Endian, load8, slice}
use map.Packet.SixToFour.{analyze6, is_supported}
use map.Packet.{load_network16}
use map.Stat.Counted.{IsCounted, IsAccounted, new_chunk-IsCounted, update-IsAccounted}
use map.Stat.{
  Chunk, Stat, new_chunk, total_num, total_from, count_ip4, count_ip6, count_at, count_packet,
  icmp_in, tcp_in, udp_in, icmp_out, tcp_out, udp_out, update_4to6, update_6to4, update_gtoi,
  update_itog, update, lt_in_addr, lt_in6_addr, is_short,
}

-- All packets that were counted since the last flush.
abbrev pub packets : Stat → ℕ
packets s = sum_by total_num s.stat46 + sum_by total_num s.stat66

total_num-new_chunk : total_num new_chunk ≡ 0
unfolding total_num total_from
total_num-new_chunk = refl

total_num-count_ip4 :
    (pkt : Bytes) (chunk : Chunk)
    → IsCounted chunk
    → total_num (count_ip4 pkt chunk) ≡ total_num chunk + 1
unfolding total_num total_from count_ip4 count_at count_packet
total_num-count_ip4 pkt (i ∷ o ∷ t ∷ u ∷ d ∷ v ∷ []) h = ground arith
total_num-count_ip4 pkt _ h = absurd h

total_num-count_ip6_in :
    (pkt : Bytes) (chunk : Chunk)
    → IsCounted chunk
    → total_num (count_ip6 icmp_in tcp_in udp_in pkt chunk) ≡ total_num chunk + 1
unfolding total_num total_from count_ip6 count_at count_packet
total_num-count_ip6_in pkt (i ∷ o ∷ t ∷ u ∷ d ∷ v ∷ []) h = ground arith
total_num-count_ip6_in pkt _ h = absurd h

total_num-count_ip6_out :
    (pkt : Bytes) (chunk : Chunk)
    → IsCounted chunk
    → total_num (count_ip6 icmp_out tcp_out udp_out pkt chunk) ≡ total_num chunk + 1
unfolding total_num total_from count_ip6 count_at count_packet
total_num-count_ip6_out pkt (i ∷ o ∷ t ∷ u ∷ d ∷ v ∷ []) h = ground arith
total_num-count_ip6_out pkt _ h = absurd h

-- A step counts nothing, or one packet.
abbrev pub CountsOne : Stat → Stat → Type 0
CountsOne s s' = (s' ≡ s) ⊎ (packets s' ≡ packets s + 1)

count46 :
    (e : Endian) (k : Bytes) (f : Chunk → Chunk) (s : Stat)
    → ((c : Chunk) → IsCounted c → total_num (f c) ≡ total_num c + 1)
    → IsAccounted e s
    → packets (record s { stat46 = modify (lt_in_addr e) k new_chunk f s.stat46 }) ≡ packets s + 1
count46 e k f s step h = omega (
  arith,
  sum_by-modify-Each (lt_in_addr e) IsCounted total_num f k new_chunk 1 s.stat46 total_num-new_chunk
      new_chunk-IsCounted step h.table46.1,
)

count66 :
    (e : Endian) (k : Bytes) (f : Chunk → Chunk) (s : Stat)
    → ((c : Chunk) → IsCounted c → total_num (f c) ≡ total_num c + 1)
    → IsAccounted e s
    → packets (record s { stat66 = modify (lt_in6_addr e) k new_chunk f s.stat66 }) ≡ packets s + 1
count66 e k f s step h = omega (
  arith,
  sum_by-modify-Each (lt_in6_addr e) IsCounted total_num f k new_chunk 1 s.stat66
      total_num-new_chunk new_chunk-IsCounted step h.table66.1,
)

update_4to6-CountsOne :
    (e : Endian) (pkt : Bytes) (len : ℕ) (s : Stat)
    → IsAccounted e s
    → CountsOne s (update_4to6 e pkt len s)
unfolding update_4to6
update_4to6-CountsOne e pkt len s h =
    elim (Bool-cases (not (load8 pkt 0 % 16 * 4 == 20) || ltb len (load_network16 pkt 2))) [
      | inl bad ↦ rw bad (inl refl)
      | inr good ↦
          rw good
            (elim (Bool-cases (
              load8 pkt 9 == proto_icmp
              || (load8 pkt 9 == proto_tcp || load8 pkt 9 == proto_udp))) [
                | inl on ↦
                    rw on (
                      inr
                        (count46 e (slice pkt 16 4) (count_ip4 pkt) s (total_num-count_ip4 pkt) h))
                | inr off ↦ rw off (inl refl)
              ])
    ]

update_6to4-CountsOne :
    (e : Endian) (t : Tables) (pkt : Bytes) (len : ℕ) (s : Stat)
    → IsAccounted e s
    → CountsOne s (update_6to4 e t pkt len s)
unfolding update_6to4
update_6to4-CountsOne e t pkt len s h =
    elim (Bool-cases (not (is_supported (analyze6 pkt).next_header))) [
      | inl bad ↦ rw bad (inl refl)
      | inr good ↦ rw good (elim (Option-cases ((convert_addrs_6to4 e t (slice pkt 8 16) none).0)) [
        | inl p ↦ rw p (inl refl)
        | inr (addr, p) ↦ rw p (elim (Bool-cases (is_short pkt len)) [
          | inl short ↦ rw short (inl refl)
          | inr long ↦ rw long (inr (count46 e addr _ s (total_num-count_ip6_out pkt) h))
        ])
      ])
    ]

update_gtoi-CountsOne :
    (e : Endian) (pkt : Bytes) (len : ℕ) (s : Stat)
    → IsAccounted e s
    → CountsOne s (update_gtoi e pkt len s)
unfolding update_gtoi
update_gtoi-CountsOne e pkt len s h =
    elim (Bool-cases (not (is_supported (analyze6 pkt).next_header))) [
      | inl bad ↦ rw bad (inl refl)
      | inr good ↦ rw good (elim (Bool-cases (is_short pkt len)) [
        | inl short ↦ rw short (inl refl)
        | inr long ↦ rw long (inr (count66 e (slice pkt 24 16) _ s (total_num-count_ip6_in pkt) h))
      ])
    ]

update_itog-CountsOne :
    (e : Endian) (t : Tables) (pkt : Bytes) (len : ℕ) (s : Stat)
    → IsAccounted e s
    → CountsOne s (update_itog e t pkt len s)
unfolding update_itog
update_itog-CountsOne e t pkt len s h =
    elim (Bool-cases (not (is_supported (analyze6 pkt).next_header))) [
      | inl bad ↦ rw bad (inl refl)
      | inr good ↦ rw good (elim (Option-cases (convert_addrs_itog e t (slice pkt 8 16) none)) [
        | inl p ↦ rw p (inl refl)
        | inr (addrs, p) ↦ rw p (elim (Bool-cases (is_short pkt len)) [
          | inl short ↦ rw short (inl refl)
          | inr long ↦ rw long (inr (count66 e addrs.0 _ s (total_num-count_ip6_out pkt) h))
        ])
      ])
    ]

update_each-CountsOne :
    (d : Direction) (e : Endian) (t : Tables) (pkt : Bytes) (len : ℕ) (s : Stat)
    → IsAccounted e s
    → CountsOne s (update d e t pkt len s)
unfolding update
update_each-CountsOne fourtosix e t pkt len s h = update_4to6-CountsOne e pkt len s h
update_each-CountsOne sixtofour e t pkt len s h = update_6to4-CountsOne e t pkt len s h
update_each-CountsOne sixtosix_gtoi e t pkt len s h = update_gtoi-CountsOne e pkt len s h
update_each-CountsOne sixtosix_itog e t pkt len s h = update_itog-CountsOne e t pkt len s h
update_each-CountsOne unknown e t pkt len s h = inl refl

-- Where the counters agree, stat::update either leaves them or counts one packet more, and they
-- agree afterwards.
pub update-CountsOne :
    (d : Direction) (e : Endian) (t : Tables) (pkt : Bytes) (len : ℕ) (s : Stat)
    → IsAccounted e s
    → CountsOne s (update d e t pkt len s) × IsAccounted e (update d e t pkt len s)
update-CountsOne d e t pkt len s h =
    (update_each-CountsOne d e t pkt len s h, update-IsAccounted d e t pkt len s h)
