-- ===== src/Packet/Pieces.antt =====
-- The loop of `send_4to6` where it makes two fragments.
use map.Checksum.{Iov}
use map.Common.Bits.{bit_or, bit_or_step, one-bit_or, bit_or-zero}
use map.Common.{
  ℕ, suc, ◌+◌, ◌-◌, ◌*◌, ◌/◌, ◌%◌, ◌≤◌, ◌<◌, ◌≡◌, refl, ap, ◌∙◌, true, false, some, [], ◌∷◌, arith,
  ltb,
}
use map.Memory.{Bytes, Endian}
use map.Packet.FourToSix.{Fields4, Piece, piece6, fragment6, fragments6}

-- `x | 1` of an odd number.
odd-bit_or : (x : ℕ) → x % 2 ≡ 1 → bit_or x 1 ≡ x
odd-bit_or x h = omega (arith, bit_or_step x 1, bit_or-zero (x / 2))

pub piece6_first :
    (f : Fields4) (unit : ℕ)
    → unit < f.plen
    → f.offset < 8192
    → piece6 f unit f.plen 0 ≡ record { at = 0; len = unit; offlg = f.offset * 8 + 1 }
unfolding piece6
piece6_first f unit more o =
    let start : f.plen - f.plen ≡ 0 = omega arith in
    let large : ltb unit f.plen ≡ true = ground arith in
    let field : (f.offset * 8 + 0) % 65536 ≡ f.offset * 8 = omega arith in
    rw (start, large, field, one-bit_or (f.offset * 8) (omega arith)) refl

-- The last fragment of two. Its offset is combined with the one that the loop's variable holds from
-- the first.
pub piece6_last :
    (f : Fields4) (unit : ℕ)
    → f.plen ≤ unit + unit
    → unit ≤ f.plen
    → f.more_frag ≡ false
    → f.offset * 8 + unit < 65536
    → piece6 f unit (f.plen - unit) (f.offset * 8 + 1) ≡ record {
      at = unit;
      len = f.plen - unit;
      offlg = bit_or (f.offset * 8) (f.offset * 8 + unit);
    }
unfolding piece6
piece6_last f unit fits less final o =
    let at : f.plen - (f.plen - unit) ≡ unit = omega arith in
    let small : ltb unit (f.plen - unit) ≡ false = ground arith in
    let field : (f.offset * 8 + unit) % 65536 ≡ f.offset * 8 + unit = omega arith in
    let old = odd-bit_or (f.offset * 8 + 1) (omega arith) in
    let even : f.offset * 8 + 1 - (f.offset * 8 + 1) % 2 ≡ f.offset * 8 = omega arith in
    rw (at, small, final, field, old, even) refl

pub count_two : (plen unit : ℕ) → unit ≤ plen → plen < unit + unit → plen / unit + 1 ≡ 2
count_two plen unit h k = grind arith

-- One round.
fragments6_round :
    (e : Endian) (pkt : Bytes) (f : Fields4) (src dst : Bytes) (ident unit count left offlg : ℕ)
    (iov : Iov) (p : Piece)
    → piece6 f unit left offlg ≡ p
    → fragment6 e pkt f src dst ident p ≡ some iov
    → fragments6 e pkt f src dst ident unit (suc count) left offlg
      ≡ iov ∷ fragments6 e pkt f src dst ident unit count (left - p.len) p.offlg
unfolding fragments6
fragments6_round e pkt f src dst ident unit count left offlg iov p is made =
    let made' = ap (fragment6 e pkt f src dst ident) is ∙ made in
    rw (made', fragments6)
      (ap (λ q. iov ∷ fragments6 e pkt f src dst ident unit count (left - q.len) q.offlg) is)

-- Two rounds.
pub two_fragments6 :
    (e : Endian) (pkt : Bytes) (f : Fields4) (src dst : Bytes) (ident unit : ℕ) (first last : Iov)
    → unit < f.plen
    → f.plen < unit + unit
    → f.more_frag ≡ false
    → f.offset < 8192
    → f.offset * 8 + unit < 65536
    → fragment6 e pkt f src dst ident (record { at = 0; len = unit; offlg = f.offset * 8 + 1 })
      ≡ some first
    → fragment6 e pkt f src dst ident (record {
      at = unit;
      len = f.plen - unit;
      offlg = bit_or (f.offset * 8) (f.offset * 8 + unit);
    })
      ≡ some last
    → fragments6 e pkt f src dst ident unit (f.plen / unit + 1) f.plen 0 ≡ first ∷ last ∷ []
unfolding fragments6
two_fragments6 e pkt f src dst ident unit first last more fits final o o' a b =
    rw (count_two f.plen unit (omega arith) fits) (
      fragments6_round e pkt f src dst ident unit 1 f.plen 0 first _ (piece6_first f unit more o) a
      ∙ ap (λ r. first ∷ r)
          (fragments6_round e pkt f src dst ident unit 0 (f.plen - unit) (f.offset * 8 + 1) last _
            (piece6_last f unit (omega arith) (omega arith) final o') b))
