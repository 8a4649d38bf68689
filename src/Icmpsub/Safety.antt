-- ===== src/Icmpsub/Safety.antt =====
-- Every message is processed: no assertion fails, and the cache of path MTUs stays good.
use map.Common.{
  ℕ, ◌≤◌, ◌≡◌, refl, Bool, true, false, ◌||◌, ◌&&◌, Option, some, arith, ltb, Bool-cases,
  Option-cases, inl, inr, ◌==◌,
}
use map.Icmpsub.Process.{
  Turn, Outcome, send, leave, extract_mtu4, extract_mtu6, answer_needfrag, needfrag, process_icmp4,
  answer_too_big, too_big, process_icmp6,
}
use map.Icmpsub.{
  Rate, icmp_echo, icmp_echoreply, icmp_unreach, icmp_unreach_needfrag, icmp6_packet_too_big,
  icmp6_echo_request, icmp6_echo_reply,
}
use map.Mapping.{Tables, convert_addrs_4to6, convert_addrs_6to4}
use map.Memory.{Bytes, Endian, load8, slice}
use map.Pmtudisc.Answers.{IsGood, update_path_mtu_size-IsGood}
use map.Pmtudisc.Coherent.{IsCoherent-later}
use map.Pmtudisc.{Cache}
use map.Tunif.{af_inet, af_inet6}

send_cache :
    (turn : Turn) (message : _) (cache : Cache) (r : Bool × Rate)
    → (send turn message cache r).cache ≡ cache
unfolding send
send_cache turn message cache (true, rate) = refl
send_cache turn message cache (false, rate) = refl

answer_needfrag_cache :
    (e : Endian) (t : Tables) (turn : Turn) (local remote : Bytes) (mtu : ℕ) (cache : Cache)
    (rate : Rate)
    → (answer_needfrag e t turn local remote mtu cache rate).cache ≡ cache
unfolding answer_needfrag
answer_needfrag_cache e t turn local remote mtu cache rate =
    elim (Option-cases (convert_addrs_4to6 e t remote local)) [
      | inl n ↦ rw (n, answer_needfrag) refl
      | inr (addrs, h) ↦ elim (Bool-cases turn.has_tun) [
        | inl open_ ↦ rw (h, open_, answer_needfrag) (send_cache _ _ _ _)
        | inr closed ↦ rw (h, closed, answer_needfrag) refl
      ]
    ]

answer_too_big_cache :
    (e : Endian) (t : Tables) (turn : Turn) (local remote : Bytes) (mtu : ℕ) (cache : Cache)
    (rate : Rate)
    → (answer_too_big e t turn local remote mtu cache rate).cache ≡ cache
unfolding answer_too_big convert_addrs_6to4
answer_too_big_cache e t turn local remote mtu cache rate =
    elim (Option-cases (convert_addrs_6to4 e t remote (some local)).0) [
      | inl n ↦ rw (n, answer_too_big) refl
      | inr (addr, h) ↦ rw (h, answer_too_big) (send_cache turn _ cache _)
    ]

extract_mtu4-ge : (e : Endian) (icmp : Bytes) → 68 ≤ extract_mtu4 e icmp
unfolding extract_mtu4
extract_mtu4-ge e icmp = ground arith

extract_mtu6-ge : (icmp6 : Bytes) → 68 ≤ extract_mtu6 icmp6
unfolding extract_mtu6
extract_mtu6-ge icmp6 = ground arith

-- The processing of a message from a router returns and leaves a good cache.
abbrev pub Returns : Endian → ℕ → Option Outcome → Type 0
Returns e clock result = (out : Outcome) × (result ≡ some out) × IsGood e clock out.cache

needfrag-Returns :
    (e : Endian) (clock : ℕ) (t : Tables) (turn : Turn) (icmp : Bytes) (cache : Cache) (rate : Rate)
    → clock ≤ turn.call.now
    → IsGood e clock cache
    → Returns e turn.call.now (needfrag e t turn icmp cache rate)
unfolding needfrag
needfrag-Returns e clock t turn icmp cache rate h g =
    let mtu = extract_mtu4 e icmp in
    let ((ok, cache'), u, good) =
      update_path_mtu_size-IsGood e clock turn.call af_inet (slice icmp 24 4) mtu cache
        (extract_mtu4-ge e icmp) h g in
    elim (Bool-cases ok) [
      | inl updated ↦ (
        answer_needfrag e t turn (slice icmp 20 4) (slice icmp 24 4) mtu cache' rate,
        rw (u, updated, needfrag) refl,
        rw answer_needfrag_cache good,
      )
      | inr failed ↦ (leave false true cache' rate, rw (u, failed, needfrag) refl, good)
    ]

too_big-Returns :
    (e : Endian) (clock : ℕ) (t : Tables) (turn : Turn) (icmp6 : Bytes) (cache : Cache)
    (rate : Rate)
    → clock ≤ turn.call.now
    → IsGood e clock cache
    → Returns e turn.call.now (too_big e t turn icmp6 cache rate)
unfolding too_big
too_big-Returns e clock t turn icmp6 cache rate h g =
    let mtu = extract_mtu6 icmp6 in
    let ((ok, cache'), u, good) =
      update_path_mtu_size-IsGood e clock turn.call af_inet6 (slice icmp6 32 16) mtu cache
        (extract_mtu6-ge icmp6) h g in
    elim (Bool-cases ok) [
      | inl updated ↦ (
        answer_too_big e t turn (slice icmp6 16 16) (slice icmp6 32 16) mtu cache' rate,
        rw (u, updated, too_big) refl,
        rw answer_too_big_cache good,
      )
      | inr failed ↦ (leave false true cache' rate, rw (u, failed, too_big) refl, good)
    ]

-- A branch that leaves the cache as it is.
untouched :
    (e : Endian) (clock now : ℕ) (ok discard_ok : Bool) (cache : Cache) (rate : Rate)
    (result : Option Outcome)
    → clock ≤ now
    → IsGood e clock cache
    → result ≡ some (leave ok discard_ok cache rate)
    → Returns e now result
untouched e clock now ok discard_ok cache rate result h g r =
    (leave ok discard_ok cache rate, r, (IsCoherent-later now h g.0, g.1))

-- Whatever ICMPv6 message comes in, at a time that is not before the last change of a coherent
-- cache within its size, icmpsub_process_icmp4 returns, no assertion failing, and the cache that it
-- leaves is coherent and within its size.
pub process_icmp4-Returns :
    (e : Endian) (clock : ℕ) (t : Tables) (turn : Turn) (icmp : Bytes) (icmp_size : ℕ)
    (cache : Cache) (rate : Rate)
    → clock ≤ turn.call.now
    → IsGood e clock cache
    → Returns e turn.call.now (process_icmp4 e t turn icmp icmp_size cache rate)
unfolding process_icmp4
process_icmp4-Returns e clock t turn icmp icmp_size cache rate h g =
    let now = turn.call.now in
    elim (Bool-cases (ltb icmp_size 8)) [
      | inl a ↦ untouched e clock now false true cache rate _ h g (rw a refl)
      | inr a ↦ elim (Bool-cases (load8 icmp 0 == icmp_echo || load8 icmp 0 == icmp_echoreply)) [
        | inl b ↦ untouched e clock now true false cache rate _ h g (rw (a, b) refl)
        | inr b ↦
            elim (Bool-cases
              (load8 icmp 0 == icmp_unreach && load8 icmp 1 == icmp_unreach_needfrag)) [
                | inr c ↦ untouched e clock now true true cache rate _ h g (rw (a, b, c) refl)
                | inl c ↦ elim (Bool-cases (ltb icmp_size 28)) [
                  | inl d ↦ untouched e clock now false true cache rate _ h g (rw (a, b, c, d) refl)
                  | inr d ↦ rw (a, b, c, d) (needfrag-Returns e clock t turn icmp cache rate h g)
                ]
              ]
      ]
    ]

-- Whatever ICMPv6 message comes in, at a time that is not before the last change of a coherent
-- cache within its size, icmpsub_process_icmp6 returns, no assertion failing, and the cache that it
-- leaves is coherent and within its size.
pub process_icmp6-Returns :
    (e : Endian) (clock : ℕ) (t : Tables) (turn : Turn) (icmp6 : Bytes) (icmp6_size : ℕ)
    (cache : Cache) (rate : Rate)
    → clock ≤ turn.call.now
    → IsGood e clock cache
    → Returns e turn.call.now (process_icmp6 e t turn icmp6 icmp6_size cache rate)
unfolding process_icmp6
process_icmp6-Returns e clock t turn icmp6 icmp6_size cache rate h g =
    let now = turn.call.now in
    elim (Bool-cases (ltb icmp6_size 8)) [
      | inl a ↦ untouched e clock now false true cache rate _ h g (rw a refl)
      | inr a ↦
          elim (Bool-cases
            (load8 icmp6 0 == icmp6_echo_request || load8 icmp6 0 == icmp6_echo_reply)) [
              | inl b ↦ untouched e clock now true false cache rate _ h g (rw (a, b) refl)
              | inr b ↦ elim (Bool-cases (load8 icmp6 0 == icmp6_packet_too_big)) [
                | inr c ↦ untouched e clock now true true cache rate _ h g (rw (a, b, c) refl)
                | inl c ↦ elim (Bool-cases (ltb icmp6_size 48)) [
                  | inl d ↦ untouched e clock now false true cache rate _ h g (rw (a, b, c, d) refl)
                  | inr d ↦ rw (a, b, c, d) (too_big-Returns e clock t turn icmp6 cache rate h g)
                ]
              ]
            ]
    ]
