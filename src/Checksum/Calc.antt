-- ===== src/Checksum/Calc.antt =====
-- Checksums computed anew, and the adjustment for an ICMP type and code.
use map.Common.{
  ℕ, ◌+◌, ◌-◌, ◌%◌, ◌≤◌, ◌<◌, ◌^◌, ◌≡◌, refl, ◌↔◌, [], ◌∷◌, length, take, length-take, arith, some,
  set,
}
use map.Common.Int.{pos}
use map.Memory.{Bytes, Endian, word, load8, load16, store16}
use map.Memory.Bound.{IsBytes, store16-IsBytes, take-IsBytes, word-lt}
use map.Memory.Words.{
  words_sum, words_sum-store16, length-store16, load16-store16, take-store16, load16-take,
  take-length,
}
use map.Checksum.Carry.{addcarry-IsFolded, complement16-IsFolded, complement16-lt}
use map.Checksum.Sum.{
  acc_words-words_sum, words_sum-le, words_sum-lt, IsIpHeader, pheader-lt, pheader_lem,
}
use map.Checksum.Update.{IsBalanced, covered, adjust-words_sum}
use map.Checksum.{
  addcarry, complement16, acc_words, acc_ip_pheader, pheader_payload_len, ip_header_len,
  calc_ip4_header, Iov, acc_payload, calc_ulp, proto_icmp, proto_icmp6, update_icmp_type_code,
}

-- The complement of a folded sum balances it.
complement-balances :
    (total : ℕ) → total < 2 ^ 31 → IsBalanced (total + complement16 (addcarry (pos total)))
complement-balances total h =
    let f = addcarry-IsFolded (pos total) (omega arith) in
    omega (arith, f.congr, complement16-IsFolded f)

-- A receiver that folds a packet's sum and complements it gets 0 exactly when the sum is a
-- positive multiple of 65535.
pub complement16-eq-zero_iff :
    (total : ℕ)
    → total < 2 ^ 31
    → (complement16 (addcarry (pos total)) ≡ 0) ↔ ((0 < total) × IsBalanced total)
complement16-eq-zero_iff total h =
    let f = addcarry-IsFolded (pos total) (omega arith) in
    (
      λ z. (
        grind (arith, f.of_zero, complement16-IsFolded f),
        omega (arith, f.congr, complement16-IsFolded f),
      ),
      λ p. omega (arith, f.congr, f.short, f.positive p.0, complement16-IsFolded f, p.1),
    )

-- Writing the computed checksum over a zero checksum field balances the IPv4 header's words.
pub calc_ip4_header-IsBalanced :
    (e : Endian) (hdr : Bytes)
    → IsBytes hdr
    → 20 ≤ ip_header_len hdr
    → ip_header_len hdr ≤ length hdr
    → load16 e hdr 10 ≡ 0
    → IsBalanced (words_sum e (take (ip_header_len hdr) (store16 e hdr 10 (calc_ip4_header e hdr))))
unfolding calc_ip4_header
calc_ip4_header-IsBalanced e hdr bytes lo hi clear =
    let n = ip_header_len hdr in
    let cut = take n hdr in
    let cut_len : length cut ≡ n = rw length-take (omega arith) in
    let small : words_sum e cut < 2 ^ 31 =
      words_sum-lt e cut (take-IsBytes n hdr bytes) (omega arith) in
    rw (take-store16, acc_words-words_sum e n hdr hi)
      (omega (
        arith,
        complement-balances (words_sum e cut) small,
        words_sum-store16 e 5 (complement16 (addcarry (pos (words_sum e cut)))) cut (omega arith)
            (complement16-lt _),
        load16-take e n 10 hdr (omega arith),
      ))

-- A checksum written over a cleared field adds itself to the words.
cleared-words_sum :
    (e : Endian) (ulp : Bytes) (c : ℕ)
    → 4 ≤ length ulp
    → c < 65536
    → words_sum e (store16 e (store16 e ulp 2 0) 2 c) ≡ words_sum e (store16 e ulp 2 0) + c
cleared-words_sum e ulp c room h = omega (
  arith,
  words_sum-store16 e 1 c (store16 e ulp 2 0) (rw length-store16 (omega arith)) h,
  load16-store16 e 2 0 ulp (omega arith) (omega arith),
)

-- What `cksum_calc_ulp` adds up, and its bound.
acc_message :
    (e : Endian) (iov : Iov) (data_ : Bytes)
    → iov.payload ≡ some data_
    → let cleared = store16 e iov.ulp 2 0 in
      acc_words e cleared (length cleared) + acc_payload e iov.payload
      ≡ words_sum e cleared + words_sum e data_
unfolding acc_payload
acc_message e iov data_ given =
    let cleared = store16 e iov.ulp 2 0 in
    rw given (
      rw
        (
          acc_words-words_sum e (length cleared) cleared (omega arith),
          acc_words-words_sum e (length data_) data_ (omega arith),
          take-length,
          take-length,
        )
        refl)

message-lt :
    (e : Endian) (ulp data_ : Bytes)
    → IsBytes ulp
    → IsBytes data_
    → length ulp + length data_ ≤ 65000
    → words_sum e (store16 e ulp 2 0) + words_sum e data_ < 2 ^ 31 - 2 ^ 22
message-lt e ulp data_ hu hd fits = omega (
  arith,
  words_sum-le e (store16 e ulp 2 0) (store16-IsBytes e ulp 2 0 hu),
  words_sum-le e data_ hd,
  length-store16 e ulp 2 0,
)

-- `cksum_calc_ulp` for ICMPv4 balances the message, whatever its checksum field held.
pub calc_ulp-icmp :
    (e : Endian) (iov : Iov) (data_ : Bytes)
    → IsBytes iov.ulp
    → IsBytes data_
    → 4 ≤ length iov.ulp
    → length iov.ulp + length data_ ≤ 65000
    → iov.payload ≡ some data_
    → (iov' : Iov) × (calc_ulp e proto_icmp iov ≡ some iov')
      × (iov' ≡ record iov { ulp = iov'.ulp })
      × IsBalanced (words_sum e iov'.ulp + words_sum e data_)
unfolding calc_ulp
calc_ulp-icmp e iov data_ hu hd room fits given =
    let total = words_sum e (store16 e iov.ulp 2 0) + words_sum e data_ in
    let c = complement16 (addcarry (pos total)) in
    (
      record iov { ulp = store16 e (store16 e iov.ulp 2 0) 2 c },
      rw (acc_message e iov data_ given),
      refl,
      omega (
        arith,
        cleared-words_sum e iov.ulp c room (complement16-lt _),
        complement-balances total (omega (arith, message-lt e iov.ulp data_ hu hd fits)),
      ),
    )

-- The sum that an ICMPv6 checksum must complement: pseudo header, message and data with a zero
-- checksum.
abbrev pub icmp6_total : Endian → Iov → Bytes → ℕ
icmp6_total e iov data_ =
    covered e iov.ip (pheader_payload_len e iov.ip) (store16 e iov.ulp 2 0) + words_sum e data_

-- `cksum_calc_ulp` for ICMPv6 keeps only 12 bits of the checksum: the message checks out under its
-- pseudo header exactly when the checksum that it needs is below 4096.
pub calc_ulp-icmp6_iff :
    (e : Endian) (iov : Iov) (data_ : Bytes)
    → IsIpHeader iov.ip
    → IsBytes iov.ulp
    → IsBytes data_
    → 4 ≤ length iov.ulp
    → length iov.ulp + length data_ ≤ 65000
    → iov.payload ≡ some data_
    → (iov' : Iov) × (calc_ulp e proto_icmp6 iov ≡ some iov')
      × (iov' ≡ record iov { ulp = iov'.ulp })
      × (IsBalanced (covered e iov.ip (pheader_payload_len e iov.ip) iov'.ulp + words_sum e data_)
          ↔ (complement16 (addcarry (pos (icmp6_total e iov data_))) < 4096))
unfolding calc_ulp
calc_ulp-icmp6_iff e iov data_ hi hu hd room fits given =
    let total = icmp6_total e iov data_ in
    let c = complement16 (addcarry (pos total)) in
    let small : total < 2 ^ 31 = omega (
      arith,
      message-lt e iov.ulp data_ hu hd fits,
      pheader-lt e iov.ip hi.0,
      pheader_lem e iov.ip hi,
    ) in
    let sums : acc_ip_pheader e iov.ip + (words_sum e (store16 e iov.ulp 2 0) + words_sum e data_)
        ≡ total =
      omega (arith, pheader_lem e iov.ip hi) in
    let written = cleared-words_sum e iov.ulp (c % 4096) room (omega arith) in
    (
      record iov { ulp = store16 e (store16 e iov.ulp 2 0) 2 (c % 4096) },
      rw (acc_message e iov data_ given, sums),
      refl,
      (
        λ b. omega (
          arith,
          b,
          written,
          complement-balances total small,
          complement16-lt (addcarry (pos total)),
        ),
        λ b. omega (arith, b, written, complement-balances total small),
      ),
    )

type_code-word : (e : Endian) (t c : ℕ) → acc_words e (t ∷ c ∷ []) 2 ≡ word e t c
type_code-word e t c = omega (arith, acc_words-words_sum e 2 (t ∷ c ∷ []) (omega arith), two e t c)
  where
    two : (e : Endian) (t c : ℕ) → words_sum e (t ∷ c ∷ []) ≡ word e t c
    two e t c = unfold words_sum in omega arith

-- Replacing an ICMP message's type and adjusting its checksum keeps the sum of its words modulo
-- 65535.
pub update_icmp_type_code-words_sum :
    (e : Endian) (hdr : Bytes) (new_type : ℕ)
    → IsBytes hdr
    → 4 ≤ length hdr
    → new_type < 256
    → let code = load8 hdr 1 in
      let hdr' = update_icmp_type_code e (set hdr 0 new_type) (load8 hdr 0) code new_type code in
      words_sum e hdr' % 65535 ≡ words_sum e hdr % 65535
unfolding update_icmp_type_code
update_icmp_type_code-words_sum e [] new_type bytes room new = absurd (omega arith)
update_icmp_type_code-words_sum e (t ∷ []) new_type bytes room new = absurd (omega arith)
update_icmp_type_code-words_sum e (t ∷ c ∷ r) new_type bytes room new =
    rw (type_code-word e (t % 256) (c % 256), type_code-word e (new_type % 256) (c % 256))
      (rw (mod_byte t bytes.0, mod_byte c bytes.1.0, mod_byte new_type new)
        (omega (
          arith,
          adjust-words_sum e 1 (word e t c) (word e new_type c) (new_type ∷ c ∷ r) (new, bytes.1)
              (omega arith) (omega (arith, word-lt e t c bytes.0 bytes.1.0))
              (omega (arith, word-lt e new_type c new bytes.1.0)),
          swap_head,
        )))
  where
    mod_byte : (b : ℕ) → b < 256 → b % 256 ≡ b
    mod_byte b h = omega arith

    swap_head :
        words_sum e (new_type ∷ c ∷ r) + word e t c ≡ words_sum e (t ∷ c ∷ r) + word e new_type c
    swap_head = unfold words_sum in omega arith
