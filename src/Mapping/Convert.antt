-- ===== src/Mapping/Convert.antt =====
-- The conversions of a packet's addresses and of the answer's.
use map.Common.{
  ℕ, zero, suc, ◌≡◌, refl, sym, ap, ◌∙◌, ◌≤◌, true, some, List, [], ◌∷◌, ◌++◌, arith, length, take,
  drop, Bool-cases, Option-cases, inl, inr, length-take,
}
use mathlib.Core.Path.{subst}
use map.HashTable.Lookup.{scan_unique, scan-key, memcmp_eq-eq}
use map.HashTable.{memcmp_eq, scan}
use map.Mapping.Invariant.{
  IsConsistent, All, addr4_of, addr6_of, global_of, intra_of, find_with_ip4_addr_lem,
  find_with_ip6_addr_lem, find_with_g_addr_lem, find_with_i_addr_lem,
}
use map.Mapping.{
  Tables, Mapping, Mapping66, find_with_ip4_addr, find_with_ip6_addr, find_with_g_addr,
  find_with_i_addr, convert_addrs_4to6, convert_addrs_6to4, convert_addrs_gtoi, convert_addrs_itog,
  dispatch, sixtofour,
}
use map.Memory.{Bytes, Endian, slice}
use map.Tunif.{tun_get_af, af_inet6}

scan-All :
    {A : Type 0} (P : A → Type 0) (key : A → Bytes) (len : ℕ) (addr : Bytes) (xs : List A) (m : A)
    → All P xs
    → scan key len addr xs ≡ some m
    → P m
unfolding scan
scan-All P key len addr [] m all h = absurd (cc h)
scan-All P key len addr (x ∷ xs) m all h = elim (Bool-cases (memcmp_eq len addr (key x))) [
  | inl e ↦ let same : x ≡ m = ground arith in subst P same all.0
  | inr e ↦ scan-All P key len addr xs m all.1 (rw e at h)
]

take-append : (n : ℕ) (xs ys : Bytes) → length xs ≡ n → take n (xs ++ ys) ≡ xs
take-append zero [] ys h = refl
take-append zero (x ∷ xs) ys h = absurd (omega arith)
take-append (suc n) [] ys h = absurd (omega arith)
take-append (suc n) (x ∷ xs) ys h = ap (λ t. x ∷ t) (take-append n xs ys (omega arith))

drop-append : (n : ℕ) (xs ys : Bytes) → length xs ≡ n → drop n (xs ++ ys) ≡ ys
drop-append zero [] ys h = refl
drop-append zero (x ∷ xs) ys h = absurd (omega arith)
drop-append (suc n) [] ys h = absurd (omega arith)
drop-append (suc n) (x ∷ xs) ys h = drop-append n xs ys (omega arith)

take_all : (n : ℕ) (xs : Bytes) → length xs ≡ n → take n xs ≡ xs
take_all zero [] h = refl
take_all zero (x ∷ xs) h = absurd (omega arith)
take_all (suc n) [] h = absurd (omega arith)
take_all (suc n) (x ∷ xs) h = ap (λ t. x ∷ t) (take_all n xs (omega arith))

memcmp_eq-take-append :
    (n k : ℕ) (xs ys : Bytes) → n ≤ k → k ≤ length xs → memcmp_eq n (take k xs ++ ys) xs ≡ true
unfolding memcmp_eq
memcmp_eq-take-append zero k xs ys h l = refl
memcmp_eq-take-append (suc n) zero xs ys h l = absurd (omega arith)
memcmp_eq-take-append (suc n) (suc k) [] ys h l = absurd (omega arith)
memcmp_eq-take-append (suc n) (suc k) (x ∷ xs) ys h l =
    ground (arith, memcmp_eq-take-append n k xs ys (omega arith) (omega arith))

module _ {e : Endian} {t : Tables} (c : IsConsistent e t) where
  -- What an entry found by its IPv4 address tells: its address, and that its IPv6 address finds it.
  found_with_ip4_addr :
      (addr : Bytes) (m : Mapping)
      → length addr ≡ 4
      → find_with_ip4_addr e t addr ≡ some m
      → (m.addr4 ≡ addr) × (find_with_ip6_addr e t m.addr6 ≡ some m)
  found_with_ip4_addr addr m l h =
      let found = sym (find_with_ip4_addr_lem c addr) ∙ h in
      let size = scan-All _ addr4_of 4 addr t.mappings m c.sizes found in
      (
        sym (memcmp_eq-eq 4 addr m.addr4 l size.0 (scan-key e addr4_of 2 addr t.mappings m found)),
        find_with_ip6_addr_lem c m.addr6
            ∙ scan_unique e addr6_of 8 addr4_of 4 addr t.mappings m found c.unique_addr6,
      )

  found_with_g_addr :
      (addr : Bytes) (m : Mapping66)
      → length addr ≡ 16
      → find_with_g_addr e t addr ≡ some m
      → (m.global ≡ addr) × (find_with_i_addr e t m.intra ≡ some m)
  found_with_g_addr addr m l h =
      let found = sym (find_with_g_addr_lem c addr) ∙ h in
      let size = scan-All _ global_of 16 addr t.mappings66 m c.sizes66 found in
      (
        sym (
            memcmp_eq-eq 16 addr m.global l size.0
              (scan-key e global_of 8 addr t.mappings66 m found)),
        find_with_i_addr_lem c m.intra
            ∙ scan_unique e intra_of 8 global_of 16 addr t.mappings66 m found c.unique_intra,
      )

  prefix-length : length (take 12 t.prefix) ≡ 12
  prefix-length = rw length-take (omega (arith, c.prefix_size))

  -- The answer to a translated packet, whose source is the translated destination and whose
  -- destination is the translated source, is translated back to the addresses of the first packet.
  pub convert_addrs-reply :
      (src dst src6 dst6 : Bytes)
      → length src ≡ 4
      → length dst ≡ 4
      → convert_addrs_4to6 e t src dst ≡ some (src6, dst6)
      → convert_addrs_6to4 e t dst6 (some src6) ≡ (some dst, some src)
  unfolding convert_addrs_4to6 convert_addrs_6to4
  convert_addrs-reply src dst src6 dst6 ls ld h = elim (Option-cases (find_with_ip4_addr e t dst)) [
    | inl p ↦ absurd (cc (rw (p, convert_addrs_4to6) at h))
    | inr (m, p) ↦
        let (back4, back6) = found_with_ip4_addr dst m ld p in
        let made = rw (p, convert_addrs_4to6) at h in
        let src_made : take 12 t.prefix ++ take 4 src ≡ src6 = cc made in
        let dst_made : m.addr6 ≡ dst6 = cc made in
        rw (← src_made, ← dst_made)
          (rw (back6, convert_addrs_6to4)
            (rw (back4, drop-append 12 _ (take 4 src) prefix-length, take_all 4 src ls)
              (rw (take_all 4 src ls) refl)))
  ]

  -- The answer's packet is dispatched to that translation.
  pub dispatch-reply :
      (src dst src6 dst6 buf : Bytes)
      → length dst ≡ 4
      → convert_addrs_4to6 e t src dst ≡ some (src6, dst6)
      → tun_get_af e buf ≡ af_inet6
      → slice (drop 4 buf) 8 16 ≡ dst6
      → slice (drop 4 buf) 24 16 ≡ src6
      → dispatch e t buf ≡ sixtofour
  unfolding dispatch convert_addrs_4to6
  dispatch-reply src dst src6 dst6 buf ld h af from to =
      elim (Option-cases (find_with_ip4_addr e t dst)) [
        | inl p ↦ absurd (cc (rw (p, convert_addrs_4to6) at h))
        | inr (m, p) ↦
            let back6 = (found_with_ip4_addr dst m ld p).1 in
            let made = rw (p, convert_addrs_4to6) at h in
            let src_made : take 12 t.prefix ++ take 4 src ≡ src6 = cc made in
            let dst_made : m.addr6 ≡ dst6 = cc made in
            let known : find_with_ip6_addr e t dst6 ≡ some m = rw (← dst_made) back6 in
            let inside : memcmp_eq 8 src6 t.prefix ≡ true = rw (← src_made) (
              memcmp_eq-take-append 8 12 t.prefix (take 4 src) (omega arith)
                (omega (arith, c.prefix_size))) in
            rw (af, from, to) (rw (known, inside) (ground arith))
      ]

  -- The answer to a packet that was let in to an internal address leaves with the global address.
  pub convert_addrs66-reply :
      (src dst src' dst' : Bytes)
      → length dst ≡ 16
      → convert_addrs_gtoi e t src dst ≡ some (src', dst')
      → convert_addrs_itog e t dst' (some src') ≡ some (dst, some src)
  unfolding convert_addrs_gtoi convert_addrs_itog
  convert_addrs66-reply src dst src' dst' ld h = elim (Option-cases (find_with_g_addr e t dst)) [
    | inl p ↦ absurd (cc (rw (p, convert_addrs_gtoi) at h))
    | inr (m, p) ↦
        let (back_g, back_i) = found_with_g_addr dst m ld p in
        let made = rw (p, convert_addrs_gtoi) at h in
        let src_made : src ≡ src' = cc made in
        let dst_made : m.intra ≡ dst' = cc made in
        rw (← src_made, ← dst_made) (rw (back_i, convert_addrs_itog) (rw back_g refl))
  ]
