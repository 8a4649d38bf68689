-- ===== src/Tests/Sums.antt =====
-- The theorems on checksums at the sample packets, on a little-endian host.
use map.Checksum.Calc.{calc_ulp-icmp6_iff, icmp6_total}
use map.Checksum.Carry.{IsFolded, Rounds, addcarry-Rounds}
use map.Checksum.Sum.{IsIpHeader}
use map.Checksum.Update.{IsBalanced, IsAdjusted, covered, update_ulp-transport}
use map.Checksum.{
  addcarry, complement16, pheader_payload_len, Iov, update_ulp, calc_ulp, proto_icmp6, proto_tcp,
}
use map.Common.{ℕ, ◌+◌, ◌≡◌, ◌<◌, ◌≤◌, refl, arith, some, none, ◌↔◌, inl, inr, [], ◌∷◌}
use map.Common.Int.{pos, negsuc}
use map.Memory.Words.{words_sum}
use map.Memory.{little, load16, word}
use map.Tests.Packets.{blank_header4, header4, header6, icmp_header6, segment, echo4, echo6, iov_of}

addcarry-Rounds_example :
    ((n : ℕ) × (n ≤ 2) × Rounds (negsuc 0) n (addcarry (negsuc 0)))
    × IsFolded (negsuc 0) (addcarry (negsuc 0))
addcarry-Rounds_example = addcarry-Rounds (negsuc 0) (omega arith)

abbrev header4-IsIpHeader : IsIpHeader header4
header4-IsIpHeader = (omega arith, inl (refl, omega arith))

abbrev header6-IsIpHeader : IsIpHeader header6
header6-IsIpHeader = (omega arith, inr (refl, omega arith))

abbrev pub icmp_header6-IsIpHeader : IsIpHeader icmp_header6
icmp_header6-IsIpHeader = (omega arith, inr (refl, omega arith))

segment-covered : IsBalanced (covered little header4 5120 segment)
unfolding words_sum word
segment-covered = refl

update_ulp-transport_example :
    (iov' : Iov) × (update_ulp little proto_tcp header4 (iov_of header6 segment) ≡ some iov')
    × IsAdjusted little (iov_of header6 segment) iov'
    × IsBalanced (covered little header6 5120 iov'.ulp)
update_ulp-transport_example =
    update_ulp-transport little proto_tcp 5120 header4 (iov_of header6 segment) (inl refl)
      header4-IsIpHeader header6-IsIpHeader (omega arith) (omega arith) segment-covered

pub echo4-IsBalanced : IsBalanced (words_sum little echo4)
unfolding words_sum word
echo4-IsBalanced = refl

pub echo6-covered :
    IsBalanced (covered little icmp_header6 (pheader_payload_len little icmp_header6) echo6)
unfolding words_sum word pheader_payload_len load16
echo6-covered = refl

blank_header4-clear : load16 little blank_header4 10 ≡ 0
unfolding load16 word
blank_header4-clear = refl

abbrev error_iov : Iov
error_iov = record {
  af = [];
  ip = icmp_header6;
  frag = none;
  ulp = 2 ∷ 0 ∷ 7 ∷ 7 ∷ 0 ∷ 0 ∷ 5 ∷ 0 ∷ [];
  payload = some header6;
}

calc_ulp-icmp6_iff_example :
    (iov' : Iov) × (calc_ulp little proto_icmp6 error_iov ≡ some iov')
    × (iov' ≡ record error_iov { ulp = iov'.ulp })
    × (IsBalanced (
          covered little icmp_header6 (pheader_payload_len little icmp_header6) iov'.ulp
          + words_sum little header6)
        ↔ (complement16 (addcarry (pos (icmp6_total little error_iov header6))) < 4096))
calc_ulp-icmp6_iff_example =
    calc_ulp-icmp6_iff little error_iov header6 icmp_header6-IsIpHeader (omega arith) (omega arith)
      (omega arith) (omega arith) refl
