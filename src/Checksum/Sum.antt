-- ===== src/Checksum/Sum.antt =====
-- The sums that checksum.c adds up, against the byte strings that the RFCs describe.
use map.Common.{
  ℕ, zero, suc, ◌+◌, ◌*◌, ◌≤◌, ◌<◌, ◌≡◌, refl, [], ◌∷◌, ◌++◌, length, take, drop, ◌==◌, ◌^◌, arith,
  ◌⊎◌, inl, inr, if◌then◌else◌, length-drop, ◌-◌,
}
use map.Memory.{Bytes, Endian, little, big, word, htons, load8, load16, slice}
use map.Memory.Bound.{IsBytes, word-lt, load8-lt, load16-lt, htons-lt, drop-IsBytes}
use map.Memory.Words.{words_sum, double}
use map.Checksum.{
  acc_words_loop, acc_words, acc_addrs, acc_ip_pheader_wo_payload_len, pheader_payload_len,
  acc_ip_pheader, ip_version, ip_header_len,
}

acc_words_loop-words_sum :
    (e : Endian) (sum n : ℕ) (buf : Bytes)
    → n ≤ length buf
    → acc_words_loop e sum buf n ≡ sum + words_sum e (take n buf)
unfolding acc_words_loop words_sum load16
acc_words_loop-words_sum e sum zero buf h = omega arith
acc_words_loop-words_sum e sum (suc zero) [] h = absurd (omega arith)
acc_words_loop-words_sum e sum (suc zero) (a ∷ r) h = refl
acc_words_loop-words_sum e sum (suc (suc n)) [] h = absurd (omega arith)
acc_words_loop-words_sum e sum (suc (suc n)) (a ∷ []) h = absurd (omega arith)
acc_words_loop-words_sum e sum (suc (suc n)) (a ∷ b ∷ r) h =
    omega (arith, acc_words_loop-words_sum e (sum + word e a b) n r (omega arith))

-- The loop over a buffer's first `n` bytes adds up their words, the odd byte padded with 0.
pub acc_words-words_sum :
    (e : Endian) (n : ℕ) (buf : Bytes)
    → n ≤ length buf
    → acc_words e buf n ≡ words_sum e (take n buf)
unfolding acc_words
acc_words-words_sum e n buf h = omega (arith, acc_words_loop-words_sum e 0 n buf h)

pub words_sum-le :
    (e : Endian) (buf : Bytes) → IsBytes buf → words_sum e buf * 2 ≤ 65535 * (length buf + 1)
unfolding words_sum
words_sum-le e [] h = omega arith
words_sum-le e (a ∷ []) h = omega (arith, word-lt e a 0 h.0 (omega arith))
words_sum-le e (a ∷ b ∷ r) h = omega (arith, word-lt e a b h.0 h.1.0, words_sum-le e r h.1.1)

-- An IP packet has at most 65535 bytes, so its sum is an `int32_t`.
pub words_sum-lt :
    (e : Endian) (buf : Bytes) → IsBytes buf → length buf ≤ 65535 → words_sum e buf < 2 ^ 31
words_sum-lt e buf h l = omega (arith, words_sum-le e buf h)

acc_addrs-words_sum :
    (e : Endian) (n sum : ℕ) (src dst : Bytes)
    → double n ≤ length src
    → double n ≤ length dst
    → acc_addrs e n src dst sum
      ≡ sum + words_sum e (take (double n) src) + words_sum e (take (double n) dst)
unfolding acc_addrs words_sum load16
acc_addrs-words_sum e zero sum src dst h k = omega arith
acc_addrs-words_sum e (suc n) sum [] dst h k = absurd (omega arith)
acc_addrs-words_sum e (suc n) sum (a ∷ []) dst h k = absurd (omega arith)
acc_addrs-words_sum e (suc n) sum (a ∷ b ∷ r) [] h k = absurd (omega arith)
acc_addrs-words_sum e (suc n) sum (a ∷ b ∷ r) (c ∷ []) h k = absurd (omega arith)
acc_addrs-words_sum e (suc n) sum (a ∷ b ∷ r) (c ∷ d ∷ s) h k =
    omega (
      arith,
      acc_addrs-words_sum e n (sum + word e a b + word e c d) r s (omega arith) (omega arith),
    )

words_sum-append_take :
    (e : Endian) (k : ℕ) (xs ys : Bytes)
    → double k ≤ length xs
    → words_sum e (take (double k) xs ++ ys) ≡ words_sum e (take (double k) xs) + words_sum e ys
unfolding words_sum
words_sum-append_take e zero xs ys h = omega arith
words_sum-append_take e (suc k) [] ys h = absurd (omega arith)
words_sum-append_take e (suc k) (a ∷ []) ys h = absurd (omega arith)
words_sum-append_take e (suc k) (a ∷ b ∷ r) ys h =
    omega (arith, words_sum-append_take e k r ys (omega arith))

-- A part of even length and what follows it.
pub words_sum-append :
    (e : Endian) (k : ℕ) (xs ys : Bytes)
    → length xs ≡ double k
    → words_sum e (xs ++ ys) ≡ words_sum e xs + words_sum e ys
unfolding words_sum
words_sum-append e zero [] ys h = omega arith
words_sum-append e zero (a ∷ r) ys h = absurd (omega arith)
words_sum-append e (suc k) [] ys h = absurd (omega arith)
words_sum-append e (suc k) (a ∷ []) ys h = absurd (omega arith)
words_sum-append e (suc k) (a ∷ b ∷ r) ys h = omega (arith, words_sum-append e k r ys (omega arith))

pub words_sum-take-drop :
    (e : Endian) (k : ℕ) (xs : Bytes)
    → double k ≤ length xs
    → words_sum e (take (double k) xs) + words_sum e (drop (double k) xs) ≡ words_sum e xs
unfolding words_sum
words_sum-take-drop e zero xs h = omega arith
words_sum-take-drop e (suc k) [] h = absurd (omega arith)
words_sum-take-drop e (suc k) (a ∷ []) h = absurd (omega arith)
words_sum-take-drop e (suc k) (a ∷ b ∷ r) h = omega (arith, words_sum-take-drop e k r (omega arith))

htons-word : (e : Endian) (b : ℕ) → b < 256 → htons e b ≡ word e 0 b
unfolding htons word
htons-word little b h = omega arith
htons-word big b h = omega arith

-- The pseudo header of RFC 768, 793 and 8200 without its length: the two addresses, a zero
-- byte and the protocol.
abbrev pub pseudo_header : Bytes → Bytes
pseudo_header hdr =
    if ip_version hdr == 4
    then slice hdr 12 4 ++ (slice hdr 16 4 ++ 0 ∷ load8 hdr 9 ∷ [])
    else slice hdr 8 16 ++ (slice hdr 24 16 ++ 0 ∷ load8 hdr 6 ∷ [])

-- A header of version 4 or 6 that is not cut short.
abbrev pub IsIpHeader : Bytes → Type 0
IsIpHeader hdr =
    IsBytes hdr
    × ((ip_version hdr ≡ 4) × (20 ≤ length hdr) ⊎ (ip_version hdr ≡ 6) × (40 ≤ length hdr))

addrs-words_sum :
    (e : Endian) (n s d p : ℕ) (hdr : Bytes)
    → IsBytes hdr
    → p < 256
    → s + double n ≤ length hdr
    → d + double n ≤ length hdr
    → acc_addrs e n (drop s hdr) (drop d hdr) 0 + htons e p
      ≡ words_sum e (slice hdr s (double n) ++ (slice hdr d (double n) ++ 0 ∷ p ∷ []))
unfolding words_sum
addrs-words_sum e n s d p hdr bytes hp hs hd =
    let rest = slice hdr d (double n) ++ 0 ∷ p ∷ [] in
    omega (
      arith,
      acc_addrs-words_sum e n 0 (drop s hdr) (drop d hdr) (rw length-drop (omega arith))
          (rw length-drop (omega arith)),
      words_sum-append_take e n (drop s hdr) rest (rw length-drop (omega arith)),
      words_sum-append_take e n (drop d hdr) (0 ∷ p ∷ []) (rw length-drop (omega arith)),
      htons-word e p hp,
    )

-- The sum over the pseudo header is the sum of the words of the RFCs' pseudo header.
pub pheader-pseudo_header :
    (e : Endian) (hdr : Bytes)
    → IsIpHeader hdr
    → acc_ip_pheader_wo_payload_len e hdr ≡ words_sum e (pseudo_header hdr)
unfolding acc_ip_pheader_wo_payload_len
pheader-pseudo_header e hdr (bytes, inl (v, l)) =
    rw v (addrs-words_sum e 2 12 16 _ hdr bytes (load8-lt hdr 9 bytes) (omega arith) (omega arith))
pheader-pseudo_header e hdr (bytes, inr (v, l)) =
    rw v (addrs-words_sum e 8 8 24 _ hdr bytes (load8-lt hdr 6 bytes) (omega arith) (omega arith))

acc_addrs-le :
    (e : Endian) (n sum : ℕ) (src dst : Bytes)
    → IsBytes src
    → IsBytes dst
    → acc_addrs e n src dst sum ≤ sum + n * 131072
unfolding acc_addrs
acc_addrs-le e zero sum src dst h k = omega arith
acc_addrs-le e (suc n) sum src dst h k = omega (
  arith,
  load16-lt e src 0 h,
  load16-lt e dst 0 k,
  acc_addrs-le e n (sum + load16 e src 0 + load16 e dst 0) (drop 2 src) (drop 2 dst)
      (drop-IsBytes 2 src h) (drop-IsBytes 2 dst k),
)

pub pheader_wo-lt :
    (e : Endian) (hdr : Bytes) → IsBytes hdr → acc_ip_pheader_wo_payload_len e hdr < 2 ^ 21
unfolding acc_ip_pheader_wo_payload_len
pheader_wo-lt e hdr h = ground (
  arith,
  acc_addrs-le e 2 0 (drop 12 hdr) (drop 16 hdr) (drop-IsBytes 12 hdr h) (drop-IsBytes 16 hdr h),
  acc_addrs-le e 8 0 (drop 8 hdr) (drop 24 hdr) (drop-IsBytes 8 hdr h) (drop-IsBytes 24 hdr h),
  htons-lt e (load8 hdr 9),
  htons-lt e (load8 hdr 6),
)

pub payload_len-lt : (e : Endian) (hdr : Bytes) → IsBytes hdr → pheader_payload_len e hdr < 65536
unfolding pheader_payload_len
payload_len-lt e hdr h =
    ground (
      arith,
      load16-lt e hdr 4 h,
      htons-lt e (htons e (load16 e hdr 2) + 65536 - ip_header_len hdr),
    )

pub pheader-lt : (e : Endian) (hdr : Bytes) → IsBytes hdr → acc_ip_pheader e hdr < 2 ^ 22
unfolding acc_ip_pheader
pheader-lt e hdr h = ground (arith, payload_len-lt e hdr h, pheader_wo-lt e hdr h)

-- With a whole header the two parts are added.
pub pheader_lem :
    (e : Endian) (hdr : Bytes)
    → IsIpHeader hdr
    → acc_ip_pheader e hdr ≡ pheader_payload_len e hdr + words_sum e (pseudo_header hdr)
unfolding acc_ip_pheader
pheader_lem e hdr (bytes, inl (v, l)) =
    rw v (rw (pheader-pseudo_header e hdr (bytes, inl (v, l)), v) refl)
pheader_lem e hdr (bytes, inr (v, l)) =
    rw v (rw (pheader-pseudo_header e hdr (bytes, inr (v, l)), v) refl)
