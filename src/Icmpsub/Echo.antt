-- ===== src/Icmpsub/Echo.antt =====
-- Converting an echo message and adjusting its checksum gives an echo message of the other
-- protocol with a right checksum.
use map.Checksum.Calc.{update_icmp_type_code-words_sum}
use map.Checksum.Sum.{IsIpHeader}
use map.Checksum.Update.{
  IsBalanced, covered, IsAdjusted, update_ulp-icmp, update_ulp-icmp6, length-adjust,
}
use map.Checksum.{
  Iov, proto_icmp, proto_icmp6, pheader_payload_len, update_icmp_type_code, update_ulp, adjust,
}
use map.Common.{
  ℕ, ◌%◌, ◌≤◌, ◌<◌, ◌≡◌, ◌⊎◌, inl, inr, refl, some, [], ◌∷◌, arith, length, set, ◌==◌,
  if◌then◌else◌, length-set,
}
use map.Icmpsub.{
  retype, convert_icmp, icmp_echo, icmp_echoreply, icmp6_echo_request, icmp6_echo_reply,
}
use map.Memory.Bound.{IsBytes, store16-IsBytes, set-IsBytes}
use map.Memory.Words.{words_sum}
use map.Memory.{Bytes, Endian, load8, store16}

code_kept : (ulp : Bytes) (type : ℕ) → load8 (set ulp 0 type) 1 ≡ load8 ulp 1
code_kept [] type = refl
code_kept (b ∷ bs) type = refl

-- A type that a case sets and the checksum that it adjusts keep the sum of the words.
retype-words_sum :
    (e : Endian) (new_type at proto : ℕ) (iov : Iov)
    → IsBytes iov.ulp
    → 4 ≤ length iov.ulp
    → new_type < 256
    → words_sum e (retype e (load8 iov.ulp 0) new_type at proto iov).ulp % 65535
      ≡ words_sum e iov.ulp % 65535
unfolding retype
retype-words_sum e new_type at proto iov bytes room new =
    rw (code_kept iov.ulp new_type)
      (update_icmp_type_code-words_sum e iov.ulp new_type bytes room new)

length-retype :
    (e : Endian) (old_type new_type at proto : ℕ) (iov : Iov)
    → length (retype e old_type new_type at proto iov).ulp ≡ length iov.ulp
unfolding retype update_icmp_type_code
length-retype e old_type new_type at proto iov = rw (length-adjust, length-set) refl

retype-IsBytes :
    (e : Endian) (old_type new_type at proto : ℕ) (iov : Iov)
    → IsBytes iov.ulp
    → new_type < 256
    → IsBytes (retype e old_type new_type at proto iov).ulp
unfolding retype update_icmp_type_code adjust
retype-IsBytes e old_type new_type at proto iov bytes new =
    store16-IsBytes e _ _ _ (set-IsBytes iov.ulp 0 new_type bytes new)

-- The first byte stays when the checksum is written.
retype_type :
    (e : Endian) (old_type new_type at proto : ℕ) (iov : Iov)
    → 4 ≤ length iov.ulp
    → load8 (retype e old_type new_type at proto iov).ulp 0 ≡ new_type
unfolding retype update_icmp_type_code adjust store16
retype_type e old_type new_type at proto iov room = stored iov.ulp new_type _ _ room
  where
    stored :
        (ulp : Bytes) (type a b : ℕ)
        → 4 ≤ length ulp
        → load8 (set (set (set ulp 0 type) 2 a) 3 b) 0 ≡ type
    stored [] type a b h = absurd (omega arith)
    stored (x ∷ xs) type a b h = refl

-- The messages that are converted.
abbrev pub IsEcho4 : Iov → Type 0
IsEcho4 iov = (load8 iov.ulp 0 ≡ icmp_echo) ⊎ (load8 iov.ulp 0 ≡ icmp_echoreply)

abbrev pub IsEcho6 : Iov → Type 0
IsEcho6 iov = (load8 iov.ulp 0 ≡ icmp6_echo_request) ⊎ (load8 iov.ulp 0 ≡ icmp6_echo_reply)

-- The type of the other protocol's message.
abbrev pub echo_type : ℕ → ℕ
echo_type type = if type == 8 then 128 else if type == 0 then 129 else if type == 128 then 8 else 0

convert_icmp4 :
    (e : Endian) (iov : Iov)
    → IsEcho4 iov
    → let type = load8 iov.ulp 0 in
      convert_icmp e proto_icmp iov ≡ some (retype e type (echo_type type) 6 58 iov)
unfolding convert_icmp
convert_icmp4 e iov (inl h) = rw (h, convert_icmp) refl
convert_icmp4 e iov (inr h) = rw (h, convert_icmp) refl

convert_icmp6 :
    (e : Endian) (iov : Iov)
    → IsEcho6 iov
    → let type = load8 iov.ulp 0 in
      convert_icmp e proto_icmp6 iov ≡ some (retype e type (echo_type type) 9 1 iov)
unfolding convert_icmp
convert_icmp6 e iov (inl h) = rw (h, convert_icmp) refl
convert_icmp6 e iov (inr h) = rw (h, convert_icmp) refl

-- An ICMPv4 echo message of at least 4 bytes whose words have a zero sum, with the IPv6 header
-- that goes out, becomes an ICMPv6 echo message with a zero sum under the header, its next-header
-- field set, by icmpsub_convert_icmp and then cksum_update_ulp, which both succeed.
pub convert_icmp-update_ulp :
    (e : Endian) (orig : Bytes) (iov : Iov)
    → IsEcho4 iov
    → IsIpHeader (set iov.ip 6 proto_icmp6)
    → IsBytes iov.ulp
    → 4 ≤ length iov.ulp
    → IsBalanced (words_sum e iov.ulp)
    → let hdr = set iov.ip 6 proto_icmp6 in
      (iov1 : Iov) × (convert_icmp e proto_icmp iov ≡ some iov1)
      × (load8 iov1.ulp 0 ≡ echo_type (load8 iov.ulp 0))
      × (iov1.ip ≡ hdr)
      × ((iov2 : Iov) × (update_ulp e proto_icmp6 orig iov1 ≡ some iov2)
          × IsAdjusted e iov1 iov2
          × IsBalanced (covered e hdr (pheader_payload_len e hdr) iov2.ulp))
convert_icmp-update_ulp e orig iov echo header bytes room valid =
    let type = load8 iov.ulp 0 in
    let small : echo_type type < 256 = ground arith in
    let iov1 = retype e type (echo_type type) 6 58 iov in
    let kept = retype-words_sum e (echo_type type) 6 58 iov bytes room small in
    let header1 : iov1.ip ≡ set iov.ip 6 proto_icmp6 = unfold retype in refl in
    (
      iov1,
      convert_icmp4 e iov echo,
      retype_type e type (echo_type type) 6 58 iov room,
      header1,
      rw (← header1) (
          update_ulp-icmp6 e orig iov1 (rw header1 header)
            (retype-IsBytes e type (echo_type type) 6 58 iov bytes small)
            (rw (length-retype e type (echo_type type) 6 58 iov) room)
            (omega (arith, kept, valid))),
    )

-- An ICMPv6 echo message of at least 4 bytes with a zero sum under its IPv6 header becomes an
-- ICMPv4 echo message whose words have a zero sum, the protocol field of the outgoing IPv4 header
-- set, by icmpsub_convert_icmp and then cksum_update_ulp, which both succeed.
pub convert_icmp-update_ulp6 :
    (e : Endian) (orig : Bytes) (iov : Iov)
    → IsEcho6 iov
    → IsIpHeader orig
    → IsBytes iov.ulp
    → 4 ≤ length iov.ulp
    → IsBalanced (covered e orig (pheader_payload_len e orig) iov.ulp)
    → (iov1 : Iov) × (convert_icmp e proto_icmp6 iov ≡ some iov1)
      × (load8 iov1.ulp 0 ≡ echo_type (load8 iov.ulp 0))
      × (iov1.ip ≡ set iov.ip 9 proto_icmp)
      × ((iov2 : Iov) × (update_ulp e proto_icmp orig iov1 ≡ some iov2)
          × IsAdjusted e iov1 iov2
          × IsBalanced (words_sum e iov2.ulp))
convert_icmp-update_ulp6 e orig iov echo header bytes room valid =
    let type = load8 iov.ulp 0 in
    let small : echo_type type < 256 = ground arith in
    let iov1 = retype e type (echo_type type) 9 1 iov in
    let kept = retype-words_sum e (echo_type type) 9 1 iov bytes room small in
    (
      iov1,
      convert_icmp6 e iov echo,
      retype_type e type (echo_type type) 9 1 iov room,
      unfold retype in refl,
      update_ulp-icmp e orig iov1 header
          (retype-IsBytes e type (echo_type type) 9 1 iov bytes small)
          (rw (length-retype e type (echo_type type) 9 1 iov) room) (omega (arith, kept, valid)),
    )
