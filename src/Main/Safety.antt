-- ===== src/Main/Safety.antt =====
-- Every packet is handled: no assertion fails, and the cache of path MTUs stays good.
use map.Checksum.{proto_icmp, proto_icmp6, ip_header_len}
use map.Common.{
  ℕ, ◌+◌, ◌-◌, ◌≤◌, ◌≡◌, refl, not, ◌&&◌, Option, some, arith, ltb, Bool-cases, Option-cases, inl,
  inr, ◌==◌, drop,
}
use map.Icmpsub.Process.{Outcome}
use map.Icmpsub.Safety.{Returns, process_icmp4-Returns, process_icmp6-Returns}
use map.Icmpsub.{Rate}
use map.Mapping.{Tables, Direction, convert_addrs_4to6, convert_addrs_6to4, convert_addrs_gtoi}
use map.Mapping.Direction.{unknown, sixtosix_itog, sixtosix_gtoi, sixtofour, fourtosix}
use map.Memory.{Bytes, Endian, load8, slice}
use map.Packet.FourToSix.{Fields4, analyze4, large6, small6, forward6, send_4to6}
use map.Packet.SixToFour.{
  Fields6, analyze6, is_supported, large4, small4, forward4, checked4, send_6to4, icmp6_size,
}
use map.Packet.SixToSix.{Convert66, checked66, send66, convert_itog, send66_itog, send66_gtoi}
use map.Main.{send_towards}
use map.Packet.{Moment, Result, load_network16, after_icmp}
use map.Pmtudisc.Answers.{IsGood, get_path_mtu_size-IsCoherent}
use map.Pmtudisc.Coherent.{IsCoherent-later}
use map.Pmtudisc.{Cache, get_path_mtu_size}
use map.Tunif.{af_inet, af_inet6}

-- A packet is handled, and the cache that is left is good.
abbrev pub Sends : Endian → ℕ → Option Result → Type 0
Sends e clock result = (r : Result) × (result ≡ some r) × IsGood e clock r.cache

sends : (e : Endian) (clock : ℕ) (r : Result) → IsGood e clock r.cache → Sends e clock (some r)
sends e clock r good = (r, refl, good)

IsGood-later :
    (e : Endian) (clock now : ℕ) (cache : Cache)
    → clock ≤ now
    → IsGood e clock cache
    → IsGood e now cache
IsGood-later e clock now cache h g = (IsCoherent-later now h g.0, g.1)

looked_up-IsGood :
    (e : Endian) (clock now af : ℕ) (addr : Bytes) (cache : Cache)
    → clock ≤ now
    → IsGood e clock cache
    → IsGood e now (get_path_mtu_size e now af addr cache).1
looked_up-IsGood e clock now af addr cache h g =
    let (coherent, small) = get_path_mtu_size-IsCoherent e clock now af addr cache g.0 in
    (IsCoherent-later now h coherent, omega (arith, small, g.1))

forward6-IsGood :
    (e : Endian) (clock : ℕ) (t : Tables) (m : Moment) (pkt : Bytes) (f : Fields4) (cache : Cache)
    (rate : Rate)
    → clock ≤ m.looked_up
    → IsGood e clock cache
    → IsGood e m.looked_up (forward6 e t m pkt f cache rate).cache
unfolding forward6 large6
forward6-IsGood e clock t m pkt f cache rate h g =
    elim (Option-cases (convert_addrs_4to6 e t (slice pkt 12 4) (slice pkt 16 4))) [
      | inl n ↦ rw (n, forward6) (IsGood-later e clock m.looked_up cache h g)
      | inr (addrs, mapped) ↦
          let good = looked_up-IsGood e clock m.looked_up af_inet6 addrs.1 cache h g in
          let mtu : ℕ = (get_path_mtu_size e m.looked_up af_inet6 addrs.1 cache).0 in
          elim (Bool-cases (ltb (mtu - 48) f.plen)) [
            | inl large ↦ rw (mapped, forward6) (rw (large, forward6) good)
            | inr fits ↦ elim (Option-cases (small6 e pkt f addrs.0 addrs.1)) [
              | inl n ↦ rw (mapped, forward6) (rw (fits, forward6) (rw (n, forward6) good))
              | inr (iov, made) ↦
                  rw (mapped, forward6) (rw (fits, forward6) (rw (made, forward6) good))
            ]
          ]
    ]

forward4-IsGood :
    (e : Endian) (clock : ℕ) (t : Tables) (m : Moment) (pkt : Bytes) (f : Fields6) (cache : Cache)
    (rate : Rate)
    → clock ≤ m.looked_up
    → IsGood e clock cache
    → IsGood e m.looked_up (forward4 e t m pkt f cache rate).cache
unfolding forward4 large4
forward4-IsGood e clock t m pkt f cache rate h g =
    let addrs = convert_addrs_6to4 e t (slice pkt 8 16) (some (slice pkt 24 16)) in
    elim (Option-cases addrs.0) [
      | inl n ↦ rw (n, forward4) (IsGood-later e clock m.looked_up cache h g)
      | inr (src, s) ↦ elim (Option-cases addrs.1) [
        | inl n ↦ rw (s, forward4) (rw (n, forward4) (IsGood-later e clock m.looked_up cache h g))
        | inr (dst, d) ↦
            let good = looked_up-IsGood e clock m.looked_up af_inet dst cache h g in
            let mtu : ℕ = (get_path_mtu_size e m.looked_up af_inet dst cache).0 in
            elim (Bool-cases (ltb (mtu - 20) f.payload_len)) [
              | inl large ↦ rw (s, forward4) (rw (d, forward4) (rw (large, forward4) good))
              | inr fits ↦ elim (Option-cases (small4 e pkt f src dst)) [
                | inl n ↦
                    rw (s, forward4)
                      (rw (d, forward4) (rw (fits, forward4) (rw (n, forward4) good)))
                | inr (iov, made) ↦
                    rw (s, forward4)
                      (rw (d, forward4) (rw (fits, forward4) (rw (made, forward4) good)))
              ]
            ]
      ]
    ]

checked4-IsGood :
    (e : Endian) (clock : ℕ) (t : Tables) (m : Moment) (pkt : Bytes) (data_len : ℕ) (cache : Cache)
    (rate : Rate)
    → clock ≤ m.looked_up
    → IsGood e clock cache
    → IsGood e m.looked_up (checked4 e t m pkt data_len cache rate).cache
unfolding checked4
checked4-IsGood e clock t m pkt data_len cache rate h g =
    let later = IsGood-later e clock m.looked_up cache h g in
    elim (Bool-cases (is_supported (analyze6 pkt).next_header)) [
      | inr n ↦ rw n later
      | inl supported ↦ elim (Bool-cases (ltb data_len ((analyze6 pkt).payload_len + 40))) [
        | inl short ↦ rw (supported, short) later
        | inr long ↦
            rw (supported, long) (forward4-IsGood e clock t m pkt (analyze6 pkt) cache rate h g)
      ]
    ]

checked66-IsGood :
    (convert : Convert66) (e : Endian) (clock now : ℕ) (t : Tables) (pkt : Bytes) (data_len : ℕ)
    (cache : Cache) (rate : Rate)
    → clock ≤ now
    → IsGood e clock cache
    → IsGood e now (checked66 convert e t pkt data_len cache rate).cache
unfolding checked66
checked66-IsGood convert e clock now t pkt data_len cache rate h g =
    let later = IsGood-later e clock now cache h g in
    elim (Bool-cases (is_supported (analyze6 pkt).next_header)) [
      | inr n ↦ rw n later
      | inl supported ↦ elim (Bool-cases (ltb data_len ((analyze6 pkt).payload_len + 40))) [
        | inl short ↦ rw (supported, short) later
        | inr long ↦ elim (Option-cases (convert e t (slice pkt 8 16) (slice pkt 24 16))) [
          | inl n ↦ rw (supported, long, checked66) (rw (n, checked66) later)
          | inr (addrs, mapped) ↦ rw (supported, long, checked66) (rw (mapped, checked66) later)
        ]
      ]
    ]

-- The ICMP handling comes first, and what follows may be skipped.
after_icmp-Sends :
    (e : Endian) (between now : ℕ) (handled : Option Outcome) (rest : Cache → Rate → Result)
    → between ≤ now
    → Returns e between handled
    → ((cache : Cache) (rate : Rate)
        → IsGood e between cache
        → IsGood e now (rest cache rate).cache)
    → Sends e now (after_icmp handled rest)
unfolding after_icmp
after_icmp-Sends e between now handled rest h (out, returned, good) goes =
    elim (Bool-cases (out.ok && not out.discard_ok)) [
      | inl on ↦ rw (returned, after_icmp) (rw on (sends e now _ (goes out.cache out.rate good)))
      | inr over ↦
          rw (returned, after_icmp)
            (rw over (sends e now _ (IsGood-later e between now out.cache h good)))
    ]

module _ (e : Endian) (clock : ℕ) (t : Tables) (m : Moment) (pkt : Bytes) (data_len : ℕ)
    (cache : Cache) (rate : Rate) (before : clock ≤ m.turn.call.now)
    (after : m.turn.call.now ≤ m.looked_up) (good : IsGood e clock cache) where
  send_4to6-Sends : Sends e m.looked_up (send_4to6 e t m pkt data_len cache rate)
  unfolding send_4to6
  send_4to6-Sends =
      let later = IsGood-later e clock m.looked_up cache (omega arith) good in
      let f = analyze4 pkt in
      elim (Bool-cases (ip_header_len pkt == 20)) [
        | inr options ↦ rw options (sends e m.looked_up _ later)
        | inl plain ↦ elim (Bool-cases (ltb data_len (load_network16 pkt 2))) [
          | inl short ↦ rw (plain, short) (sends e m.looked_up _ later)
          | inr long ↦ elim (Bool-cases (f.proto == proto_icmp)) [
            | inl icmp ↦
                rw (plain, long, icmp)
                  (after_icmp-Sends e m.turn.call.now m.looked_up _ _ after
                    (process_icmp4-Returns e clock t m.turn (drop 20 pkt) (data_len - 2) cache rate
                      before good)
                    (λ c r g. forward6-IsGood e m.turn.call.now t m pkt f c r after g))
            | inr transport ↦
                rw (plain, long, transport)
                  (sends e m.looked_up _
                    (forward6-IsGood e clock t m pkt f cache rate (omega arith) good))
          ]
        ]
      ]

  send_6to4-Sends : Sends e m.looked_up (send_6to4 e t m pkt data_len cache rate)
  unfolding send_6to4
  send_6to4-Sends = elim (Bool-cases (load8 pkt 6 == proto_icmp6)) [
    | inl icmp ↦ rw icmp (
        after_icmp-Sends e m.turn.call.now m.looked_up _ _ after
          (process_icmp6-Returns e clock t m.turn (drop 40 pkt) (icmp6_size data_len) cache rate
            before good)
          (λ c r g. checked4-IsGood e m.turn.call.now t m pkt data_len c r after g))
    | inr other ↦ rw other (
        sends e m.looked_up _
          (checked4-IsGood e clock t m pkt data_len cache rate (omega arith) good))
  ]

  send66-Sends :
      (convert : Convert66) → Sends e m.looked_up (send66 convert e t m pkt data_len cache rate)
  unfolding send66
  send66-Sends convert = elim (Bool-cases (load8 pkt 6 == proto_icmp6)) [
    | inl icmp ↦ rw icmp (
        after_icmp-Sends e m.turn.call.now m.looked_up _ _ after
          (process_icmp6-Returns e clock t m.turn (drop 40 pkt) (icmp6_size data_len) cache rate
            before good)
          (λ c r g.
            checked66-IsGood convert e m.turn.call.now m.looked_up t pkt data_len c r after g))
    | inr other ↦ rw other (
        sends e m.looked_up _ (
          checked66-IsGood convert e clock m.looked_up t pkt data_len cache rate (omega arith)
            good))
  ]

  pub send_towards-Sends :
      (d : Direction) → Sends e m.looked_up (send_towards d e t m pkt data_len cache rate)
  unfolding send_towards send66_itog send66_gtoi
  send_towards-Sends fourtosix = send_4to6-Sends
  send_towards-Sends sixtofour = send_6to4-Sends
  send_towards-Sends sixtosix_gtoi = send66-Sends convert_addrs_gtoi
  send_towards-Sends sixtosix_itog = send66-Sends convert_itog
  send_towards-Sends unknown = (_, refl, IsGood-later e clock m.looked_up cache (omega arith) good)
