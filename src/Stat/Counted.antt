-- ===== src/Stat/Counted.antt =====
-- What the counters tell: the invariant of every entry.
use map.Common.{
  ℕ, suc, ◌-◌, ◌≤◌, ◌<◌, ◌≡◌, refl, Bool, none, some, List, [], ◌∷◌, arith, ◌==◌, leb, ltb, ◌/◌,
  Bool-cases, Option-cases, inl, inr,
}
use map.Common.Int.{ℤ, pos, sub_ℕ}
use map.Common.Maps.{
  IsOrder, IsAscending, modify, modify-IsAscending, Each, modify-Each, sum_by, sum_by-modify,
}
use map.Mapping.{Tables, Direction, convert_addrs_6to4, convert_addrs_itog}
use map.Mapping.Direction.{unknown, sixtosix_itog, sixtosix_gtoi, sixtofour, fourtosix}
use map.Memory.{Bytes, Endian}
use map.Checksum.{proto_icmp, proto_icmp6, proto_tcp}
use map.Memory.{load8, slice}
use map.Packet.SixToFour.{analyze6}
use map.Stat.Order.{lt_in_addr-IsOrder, lt_in6_addr-IsOrder}
use map.Stat.{
  lt_in_addr, lt_in6_addr, update_4to6, update_6to4, update_gtoi, update_itog, update, flush,
  count_ip4, count_ip6, count_at, icmp_in, tcp_in, udp_in, icmp_out, tcp_out, udp_out, Element,
  Chunk, Counts, Stat, new_element, new_chunk, get_hist, count, count_packet, ltb_ℤ,
}

-- The number of packets in a histogram.
abbrev pub sum_counts : Counts → ℕ
sum_counts counts = sum_by (λ n. n) counts

-- One of the eleven bins.
abbrev pub IsBin : ℤ → Type 0
IsBin k = (i : ℕ) × (k ≡ pos i) × (i ≤ 10)

-- The histogram of lengths counts every packet once, in one of the bins.
pub record IsTallied (x : Element) : Type 0 where
  pub tally : sum_counts x.len ≡ x.num
  pub bins : Each (λ k n. IsBin k) x.len
  pub no_error : x.error ≡ 0

-- An element of TCP or UDP counts every packet under a port as well; one of ICMP has no ports.
abbrev pub IsPorted : Element → Type 0
IsPorted x = IsTallied x × (sum_counts x.port_stat ≡ x.num)

abbrev pub IsPortless : Element → Type 0
IsPortless x = IsTallied x × (x.port_stat ≡ [])

abbrev pub IsCounted : Chunk → Type 0
IsCounted (i ∷ o ∷ t ∷ u ∷ d ∷ v ∷ []) =
    IsPortless i × IsPortless o × IsPorted t × IsPorted u × IsPorted d × IsPorted v
IsCounted _ = ⊥

sum_counts-count : (k : ℤ) (counts : Counts) → sum_counts (count k counts) ≡ suc (sum_counts counts)
unfolding count
sum_counts-count k counts =
    omega (arith, sum_by-modify ltb_ℤ (λ n. n) suc k 0 1 counts refl (λ n. omega arith))

-- Lengths less the header that the code takes off lie in a bin.
get_hist-IsBin : (n k : ℕ) → k < 150 → IsBin (get_hist (sub_ℕ n k))
unfolding get_hist
get_hist-IsBin n k h = elim (Bool-cases (leb k n)) [
  | inl e ↦ elim (Bool-cases (ltb 10 ((n - k) / 150))) [
    | inl big_ ↦ (10, ground arith, omega arith)
    | inr small ↦ ((n - k) / 150, ground arith, ground arith)
  ]
  | inr e ↦ (0, ground arith, omega arith)
]

count-bins :
    (k : ℤ) (counts : Counts)
    → IsBin k
    → Each (λ k n. IsBin k) counts
    → Each (λ k n. IsBin k) (count k counts)
unfolding count
count-bins k counts b all = modify-Each ltb_ℤ (λ k n. IsBin k) suc k 0 counts b (λ j v i. i) all

count_packet-IsPortless :
    (len : ℤ) (x : Element)
    → IsBin (get_hist len)
    → IsPortless x
    → IsPortless (count_packet none len x)
unfolding count_packet
count_packet-IsPortless len x b (t, p) = (
  record {
    tally = omega (arith, sum_counts-count (get_hist len) x.len, t.tally);
    bins = count-bins (get_hist len) x.len b t.bins;
    no_error = t.no_error;
  },
  p,
)

count_packet-IsPorted :
    (port : ℕ) (len : ℤ) (x : Element)
    → IsBin (get_hist len)
    → IsPorted x
    → IsPorted (count_packet (some port) len x)
unfolding count_packet
count_packet-IsPorted port len x b (t, p) = (
  record {
    tally = omega (arith, sum_counts-count (get_hist len) x.len, t.tally);
    bins = count-bins (get_hist len) x.len b t.bins;
    no_error = t.no_error;
  },
  omega (arith, sum_counts-count (pos port) x.port_stat),
)

pub count_ip4-IsCounted :
    (pkt : Bytes) (chunk : Chunk) → IsCounted chunk → IsCounted (count_ip4 pkt chunk)
unfolding count_ip4 count_at
count_ip4-IsCounted pkt (i ∷ o ∷ t ∷ u ∷ d ∷ v ∷ []) (a, b, c, f, g, h) =
    elim (Bool-cases (load8 pkt 9 == proto_icmp)) [
      | inl e ↦
          rw e (count_packet-IsPortless _ i (get_hist-IsBin _ 28 (omega arith)) a, b, c, f, g, h)
      | inr e ↦ rw e (elim (Bool-cases (load8 pkt 9 == proto_tcp)) [
        | inl e' ↦
            rw e' (a, b, count_packet-IsPorted _ _ t (get_hist-IsBin _ 20 (omega arith)) c, f, g, h)
        | inr e' ↦
            rw e' (a, b, c, f, count_packet-IsPorted _ _ d (get_hist-IsBin _ 8 (omega arith)) g, h)
      ])
    ]
count_ip4-IsCounted pkt _ h = absurd h

-- The elements of a direction.
pub count_ip6-IsCounted_in :
    (pkt : Bytes) (chunk : Chunk)
    → IsCounted chunk
    → IsCounted (count_ip6 icmp_in tcp_in udp_in pkt chunk)
unfolding count_ip6 count_at
count_ip6-IsCounted_in pkt (i ∷ o ∷ t ∷ u ∷ d ∷ v ∷ []) (a, b, c, f, g, h) =
    elim (Bool-cases ((analyze6 pkt).next_header == proto_icmp6)) [
      | inl e ↦
          rw e (count_packet-IsPortless _ i (get_hist-IsBin _ 8 (omega arith)) a, b, c, f, g, h)
      | inr e ↦ rw e (elim (Bool-cases ((analyze6 pkt).next_header == proto_tcp)) [
        | inl e' ↦
            rw e' (a, b, count_packet-IsPorted _ _ t (get_hist-IsBin _ 20 (omega arith)) c, f, g, h)
        | inr e' ↦
            rw e' (a, b, c, f, count_packet-IsPorted _ _ d (get_hist-IsBin _ 8 (omega arith)) g, h)
      ])
    ]
count_ip6-IsCounted_in pkt _ h = absurd h

pub count_ip6-IsCounted_out :
    (pkt : Bytes) (chunk : Chunk)
    → IsCounted chunk
    → IsCounted (count_ip6 icmp_out tcp_out udp_out pkt chunk)
unfolding count_ip6 count_at
count_ip6-IsCounted_out pkt (i ∷ o ∷ t ∷ u ∷ d ∷ v ∷ []) (a, b, c, f, g, h) =
    elim (Bool-cases ((analyze6 pkt).next_header == proto_icmp6)) [
      | inl e ↦
          rw e (a, count_packet-IsPortless _ o (get_hist-IsBin _ 8 (omega arith)) b, c, f, g, h)
      | inr e ↦ rw e (elim (Bool-cases ((analyze6 pkt).next_header == proto_tcp)) [
        | inl e' ↦
            rw e' (a, b, c, count_packet-IsPorted _ _ u (get_hist-IsBin _ 20 (omega arith)) f, g, h)
        | inr e' ↦
            rw e' (a, b, c, f, g, count_packet-IsPorted _ _ v (get_hist-IsBin _ 8 (omega arith)) h)
      ])
    ]
count_ip6-IsCounted_out pkt _ h = absurd h

new_element-IsTallied : IsTallied new_element
unfolding sum_by
new_element-IsTallied = record { tally = refl; bins = tt; no_error = refl }

pub new_chunk-IsCounted : IsCounted new_chunk
unfolding sum_by
new_chunk-IsCounted =
    let t = new_element-IsTallied in
    ((t, refl), (t, refl), (t, refl), (t, refl), (t, refl), (t, refl))

-- A map of the class: its keys ascend, and the counters of every entry agree.
abbrev pub IsTable : (Bytes → Bytes → Bool) → List (Bytes × Chunk) → Type 0
IsTable lt m = IsAscending lt m × Each (λ k c. IsCounted c) m

pub record IsAccounted (e : Endian) (s : Stat) : Type 0 where
  pub table46 : IsTable (lt_in_addr e) s.stat46
  pub table66 : IsTable (lt_in6_addr e) s.stat66

modify-IsTable :
    (lt : Bytes → Bytes → Bool) (k : Bytes) (f : Chunk → Chunk) (m : List (Bytes × Chunk))
    → IsOrder lt
    → ((c : Chunk) → IsCounted c → IsCounted (f c))
    → IsTable lt m
    → IsTable lt (modify lt k new_chunk f m)
modify-IsTable lt k f m o step (sorted, counted) = (
  modify-IsAscending lt f k new_chunk m o sorted,
  modify-Each lt (λ k c. IsCounted c) f k new_chunk m (step new_chunk new_chunk-IsCounted)
      (λ j v h. step v h) counted,
)

update_4to6-IsAccounted :
    (e : Endian) (pkt : Bytes) (len : ℕ) (s : Stat)
    → IsAccounted e s
    → IsAccounted e (update_4to6 e pkt len s)
unfolding update_4to6
update_4to6-IsAccounted e pkt len s h = ground (
  arith,
  modify-IsTable (lt_in_addr e) (slice pkt 16 4) (count_ip4 pkt) s.stat46 (lt_in_addr-IsOrder e)
      (count_ip4-IsCounted pkt) h.table46,
)

update_6to4-IsAccounted :
    (e : Endian) (t : Tables) (pkt : Bytes) (len : ℕ) (s : Stat)
    → IsAccounted e s
    → IsAccounted e (update_6to4 e t pkt len s)
unfolding update_6to4
update_6to4-IsAccounted e t pkt len s h =
    elim (Option-cases ((convert_addrs_6to4 e t (slice pkt 8 16) none).0)) [
      | inl p ↦ rw p (ground arith)
      | inr (addr, p) ↦ rw p (
          ground (
            arith,
            modify-IsTable (lt_in_addr e) addr (count_ip6 icmp_out tcp_out udp_out pkt) s.stat46
                (lt_in_addr-IsOrder e) (count_ip6-IsCounted_out pkt) h.table46,
          ))
    ]

update_gtoi-IsAccounted :
    (e : Endian) (pkt : Bytes) (len : ℕ) (s : Stat)
    → IsAccounted e s
    → IsAccounted e (update_gtoi e pkt len s)
unfolding update_gtoi
update_gtoi-IsAccounted e pkt len s h = ground (
  arith,
  modify-IsTable (lt_in6_addr e) (slice pkt 24 16) (count_ip6 icmp_in tcp_in udp_in pkt) s.stat66
      (lt_in6_addr-IsOrder e) (count_ip6-IsCounted_in pkt) h.table66,
)

update_itog-IsAccounted :
    (e : Endian) (t : Tables) (pkt : Bytes) (len : ℕ) (s : Stat)
    → IsAccounted e s
    → IsAccounted e (update_itog e t pkt len s)
unfolding update_itog
update_itog-IsAccounted e t pkt len s h =
    elim (Option-cases (convert_addrs_itog e t (slice pkt 8 16) none)) [
      | inl p ↦ rw p (ground arith)
      | inr (addrs, p) ↦ rw p (
          ground (
            arith,
            modify-IsTable (lt_in6_addr e) addrs.0 (count_ip6 icmp_out tcp_out udp_out pkt) s.stat66
                (lt_in6_addr-IsOrder e) (count_ip6-IsCounted_out pkt) h.table66,
          ))
    ]

pub update-IsAccounted :
    (d : Direction) (e : Endian) (t : Tables) (pkt : Bytes) (len : ℕ) (s : Stat)
    → IsAccounted e s
    → IsAccounted e (update d e t pkt len s)
unfolding update
update-IsAccounted fourtosix e t pkt len s h = update_4to6-IsAccounted e pkt len s h
update-IsAccounted sixtofour e t pkt len s h = update_6to4-IsAccounted e t pkt len s h
update-IsAccounted sixtosix_gtoi e t pkt len s h = update_gtoi-IsAccounted e pkt len s h
update-IsAccounted sixtosix_itog e t pkt len s h = update_itog-IsAccounted e t pkt len s h
update-IsAccounted unknown e t pkt len s h = h

pub flush-IsAccounted : (e : Endian) (now : ℕ) (s : Stat) → IsAccounted e (flush now s)
unfolding flush
flush-IsAccounted e now s = record { table46 = (tt, tt); table66 = (tt, tt) }
