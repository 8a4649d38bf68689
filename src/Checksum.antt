-- ===== src/Checksum.antt =====
-- checksum.c: the Internet checksum of IPv4 headers and of the transport protocols, computed anew
-- or adjusted while a packet's IP header is replaced. An `iovec` is the list of its `iov_len`
-- bytes. An `int32_t` sum is an integer here: the theorems of Checksum/Sum and Checksum/Carry
-- bound it for data of at most 65535 bytes. A result of -1 is `none`.
pub mod Carry
pub mod Sum
pub mod Update
pub mod Calc
use map.Common.{
  ℕ, zero, suc, ◌+◌, ◌-◌, ◌*◌, ◌/◌, ◌%◌, Bool, Option, none, some, [], ◌∷◌, length, drop, ◌==◌,
  if◌then◌else◌,
}
use map.Common.Int.{ℤ, pos, negsuc, ◌+ℤ◌, ◌-ℤ◌}
use map.Memory.{Bytes, Endian, word, htons, load8, load16, store16}

-- `s >> 16` and `s & 0xffff` of an `int32_t` in two's complement, with the sign carried along.
unfoldable pub shift16 : ℤ → ℤ
shift16 (pos n) = pos (n / 65536)
shift16 (negsuc n) = negsuc (n / 65536)

unfoldable pub low16 : ℤ → ℕ
low16 (pos n) = n % 65536
low16 (negsuc n) = 65535 - n % 65536

-- `~s`.
unfoldable pub complement : ℤ → ℤ
complement (pos n) = negsuc n
complement (negsuc n) = pos n

unfoldable pub is_zero : ℤ → Bool
is_zero (pos n) = n == 0
is_zero (negsuc n) = Bool.false

-- `ADDCARRY`, whose loop runs at most `fuel` times.
unfoldable pub addcarry_loop : ℕ → ℤ → ℤ
addcarry_loop zero s = s
addcarry_loop (suc fuel) s =
    let rest = addcarry_loop fuel (shift16 s +ℤ pos (low16 s)) in
    if is_zero (shift16 s) then s else rest

abbrev pub carry_rounds : ℕ
carry_rounds = 3

unfoldable pub addcarry : ℤ → ℤ
addcarry s = addcarry_loop carry_rounds s

-- `~sum & 0xffff`.
unfoldable pub complement16 : ℤ → ℕ
complement16 s = low16 (complement s)

-- `cksum_acc_words`: the loop over `data_len`, then the odd byte in a union filled with 0.
unfoldable pub acc_words_loop : Endian → ℕ → Bytes → ℕ → ℕ
acc_words_loop e sum data_ zero = sum
acc_words_loop e sum data_ (suc zero) = sum + word e (load8 data_ 0) 0
acc_words_loop e sum data_ (suc (suc n)) =
    acc_words_loop e (sum + load16 e data_ 0) (drop 2 data_) n

unfoldable pub acc_words : Endian → Bytes → ℕ → ℕ
acc_words e data_ data_len = acc_words_loop e 0 data_ data_len

-- The loop of `cksum_acc_ip_pheader_wo_payload_len` over the two addresses of `addr_len` words.
unfoldable pub acc_addrs : Endian → ℕ → Bytes → Bytes → ℕ → ℕ
acc_addrs e zero src dst sum = sum
acc_addrs e (suc n) src dst sum =
    acc_addrs e n (drop 2 src) (drop 2 dst) (sum + load16 e src 0 + load16 e dst 0)

-- `ip_v`, `ip_hl << 2`.
abbrev pub ip_version : Bytes → ℕ
ip_version hdr = load8 hdr 0 / 16

abbrev pub ip_header_len : Bytes → ℕ
ip_header_len hdr = load8 hdr 0 % 16 * 4

unfoldable pub acc_ip_pheader_wo_payload_len : Endian → Bytes → ℕ
acc_ip_pheader_wo_payload_len e hdr =
    if ip_version hdr == 4
    then acc_addrs e 2 (drop 12 hdr) (drop 16 hdr) 0 + htons e (load8 hdr 9)
    else if ip_version hdr == 6
    then acc_addrs e 8 (drop 8 hdr) (drop 24 hdr) 0 + htons e (load8 hdr 6)
    else 0

-- The payload length that `cksum_acc_ip_pheader` adds. The `int` difference of the IPv4 lengths may
-- be negative, and `htons` takes it modulo 2 ^ 16.
unfoldable pub pheader_payload_len : Endian → Bytes → ℕ
pheader_payload_len e hdr =
    if ip_version hdr == 4
    then htons e (htons e (load16 e hdr 2) + 65536 - ip_header_len hdr)
    else load16 e hdr 4 / 65536 + load16 e hdr 4 % 65536

unfoldable pub acc_ip_pheader : Endian → Bytes → ℕ
acc_ip_pheader e hdr =
    let sum = pheader_payload_len e hdr + acc_ip_pheader_wo_payload_len e hdr in
    if ip_version hdr == 4 then sum else if ip_version hdr == 6 then sum else 0

-- `cksum_calc_ip4_header`.
unfoldable pub calc_ip4_header : Endian → Bytes → ℕ
calc_ip4_header e hdr = complement16 (addcarry (pos (acc_words e hdr (ip_header_len hdr))))

-- The five entries of the scatter list; iov[2] and iov[4] may be NULL.
pub record Iov : Type 0 where
  pub af : Bytes
  pub ip : Bytes
  pub frag : Option Bytes
  pub ulp : Bytes
  pub payload : Option Bytes

abbrev pub proto_icmp : ℕ
proto_icmp = 1

abbrev pub proto_tcp : ℕ
proto_tcp = 6

abbrev pub proto_udp : ℕ
proto_udp = 17

abbrev pub proto_icmp6 : ℕ
proto_icmp6 = 58

-- Where `th_sum`, `uh_sum` and `icmp_cksum` (`icmp6_cksum`) stand.
abbrev pub tcp_sum_at : ℕ
tcp_sum_at = 16

abbrev pub udp_sum_at : ℕ
udp_sum_at = 6

abbrev pub icmp_sum_at : ℕ
icmp_sum_at = 2

-- The common shape of the adjustments: complement the stored checksum, take `old` out, put `new`
-- in, fold the carries and store the complement.
unfoldable pub adjust : Endian → ℕ → ℕ → ℕ → Bytes → Bytes
adjust e at old new ulp =
    let sum = pos (complement16 (pos (load16 e ulp at))) -ℤ pos old +ℤ pos new in
    store16 e ulp at (complement16 (addcarry sum))

-- `cksum_update_ulp`: IPv4 to IPv6 and back.
unfoldable pub update_ulp : Endian → ℕ → Bytes → Iov → Option Iov
update_ulp e ulp orig iov =
    if ulp == proto_icmp
    then some (record iov { ulp = adjust e icmp_sum_at (acc_ip_pheader e orig) 0 iov.ulp })
    else if ulp == proto_icmp6
    then some (record iov { ulp = adjust e icmp_sum_at 0 (acc_ip_pheader e iov.ip) iov.ulp })
    else if ulp == proto_tcp
    then some (record iov {
      ulp =
          adjust e tcp_sum_at (acc_ip_pheader_wo_payload_len e orig)
            (acc_ip_pheader_wo_payload_len e iov.ip) iov.ulp;
    })
    else if ulp == proto_udp
    then some (record iov {
      ulp =
          adjust e udp_sum_at (acc_ip_pheader_wo_payload_len e orig)
            (acc_ip_pheader_wo_payload_len e iov.ip) iov.ulp;
    })
    else none

-- `cksum66_update_ulp`: IPv6 to IPv6.
unfoldable pub update66_ulp : Endian → ℕ → Bytes → Iov → Option Iov
update66_ulp e ulp orig iov =
    if ulp == proto_icmp
    then some (record iov { ulp = adjust e icmp_sum_at (acc_ip_pheader e orig) 0 iov.ulp })
    else if ulp == proto_icmp6
    then some (record iov {
      ulp = adjust e icmp_sum_at (acc_ip_pheader e orig) (acc_ip_pheader e iov.ip) iov.ulp;
    })
    else if ulp == proto_tcp
    then some (record iov {
      ulp =
          adjust e tcp_sum_at (acc_ip_pheader_wo_payload_len e orig)
            (acc_ip_pheader_wo_payload_len e iov.ip) iov.ulp;
    })
    else if ulp == proto_udp
    then some (record iov {
      ulp =
          adjust e udp_sum_at (acc_ip_pheader_wo_payload_len e orig)
            (acc_ip_pheader_wo_payload_len e iov.ip) iov.ulp;
    })
    else none

-- `cksum_acc_words` over iov[4], if it is not NULL.
unfoldable pub acc_payload : Endian → Option Bytes → ℕ
acc_payload e none = 0
acc_payload e (some bytes) = acc_words e bytes (length bytes)

-- `cksum_calc_ulp`. The ICMPv6 case masks with 0xfff, as the source does.
unfoldable pub calc_ulp : Endian → ℕ → Iov → Option Iov
calc_ulp e ulp iov =
    let cleared = store16 e iov.ulp icmp_sum_at 0 in
    let words = acc_words e cleared (length cleared) + acc_payload e iov.payload in
    if ulp == proto_icmp
    then some
        (record iov { ulp = store16 e cleared icmp_sum_at (complement16 (addcarry (pos words))) })
    else if ulp == proto_icmp6
    then some (record iov {
      ulp =
          store16 e cleared icmp_sum_at
            (complement16 (addcarry (pos (acc_ip_pheader e iov.ip + words))) % 4096);
    })
    else none

-- `cksum_update_icmp_type_code`. The types and codes are cut to `uint8_t`.
unfoldable pub update_icmp_type_code : Endian → Bytes → ℕ → ℕ → ℕ → ℕ → Bytes
update_icmp_type_code e hdr orig_type orig_code new_type new_code =
    adjust e icmp_sum_at (acc_words e (orig_type % 256 ∷ orig_code % 256 ∷ []) 2)
      (acc_words e (new_type % 256 ∷ new_code % 256 ∷ []) 2) hdr
