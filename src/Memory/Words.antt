-- ===== src/Memory/Words.antt =====
-- The sum of a buffer's 16-bit words, as RFC 1071 describes it, and what a write does to it.
use map.Common.{
  ℕ, zero, suc, ◌+◌, ◌<◌, ◌≡◌, refl, ap, [], ◌∷◌, length, length-set, set, take, arith, ◌∙◌,
}
use map.Memory.{Bytes, Endian, word, load8, load16, store16}
use map.Memory.Bound.{word_bytes}

-- The words of a buffer, added up; a last odd byte is followed by a 0.
unfoldable pub words_sum : Endian → Bytes → ℕ
words_sum e [] = 0
words_sum e (a ∷ []) = word e a 0
words_sum e (a ∷ b ∷ r) = word e a b + words_sum e r

-- Twice a number, in a form that computes on `suc`.
abbrev pub double : ℕ → ℕ
double zero = 0
double (suc k) = suc (suc (double k))

pub double_lem : (k : ℕ) → double k ≡ k + k
double_lem zero = refl
double_lem (suc k) = omega (arith, double_lem k)

-- Storing a word at an even offset adds it to the sum and takes the old word out.
pub words_sum-store16 :
    (e : Endian) (k v : ℕ) (buf : Bytes)
    → double k + 1 < length buf
    → v < 65536
    → words_sum e (store16 e buf (double k) v) + load16 e buf (double k) ≡ words_sum e buf + v
unfolding words_sum store16 load16
words_sum-store16 e zero v [] h p = absurd (omega arith)
words_sum-store16 e zero v (a ∷ []) h p = absurd (omega arith)
words_sum-store16 e zero v (a ∷ b ∷ r) h p = omega (arith, word_bytes e v p)
words_sum-store16 e (suc k) v [] h p = absurd (omega arith)
words_sum-store16 e (suc k) v (a ∷ []) h p = absurd (omega arith)
words_sum-store16 e (suc k) v (a ∷ b ∷ r) h p =
    omega (arith, words_sum-store16 e k v r (omega arith) p)

-- What is stored is read back.
pub load16-store16 :
    (e : Endian) (i v : ℕ) (buf : Bytes)
    → i + 1 < length buf
    → v < 65536
    → load16 e (store16 e buf i v) i ≡ v
unfolding store16 load16
load16-store16 e zero v [] h p = absurd (omega arith)
load16-store16 e zero v (a ∷ []) h p = absurd (omega arith)
load16-store16 e zero v (a ∷ b ∷ r) h p = word_bytes e v p
load16-store16 e (suc i) v [] h p = absurd (omega arith)
load16-store16 e (suc i) v (a ∷ r) h p = load16-store16 e i v r (omega arith) p

pub length-store16 : (e : Endian) (buf : Bytes) (i v : ℕ) → length (store16 e buf i v) ≡ length buf
unfolding store16
length-store16 e buf i v = length-set _ (suc i) _ ∙ length-set buf i _

-- A write commutes with cutting the buffer, and clears what was written before at its place.
pub take-set : (n i v : ℕ) (buf : Bytes) → take n (set buf i v) ≡ set (take n buf) i v
take-set zero i v buf = refl
take-set (suc n) i v [] = refl
take-set (suc n) zero v (a ∷ r) = refl
take-set (suc n) (suc i) v (a ∷ r) = ap (λ t. a ∷ t) (take-set n i v r)

pub take-store16 :
    (e : Endian) (n i v : ℕ) (buf : Bytes) → take n (store16 e buf i v) ≡ store16 e (take n buf) i v
unfolding store16
take-store16 e n i v buf = rw (take-set, take-set) refl

pub load8-take : (n i : ℕ) (buf : Bytes) → i < n → load8 (take n buf) i ≡ load8 buf i
load8-take zero i buf h = absurd (omega arith)
load8-take (suc n) i [] h = refl
load8-take (suc n) zero (a ∷ r) h = refl
load8-take (suc n) (suc i) (a ∷ r) h = load8-take n i r (omega arith)

pub load16-take :
    (e : Endian) (n i : ℕ) (buf : Bytes) → i + 1 < n → load16 e (take n buf) i ≡ load16 e buf i
unfolding load16
load16-take e n i buf h =
    rw (load8-take n i buf (omega arith), load8-take n (suc i) buf (omega arith)) refl

pub take-length : (buf : Bytes) → take (length buf) buf ≡ buf
take-length [] = refl
take-length (a ∷ r) = ap (λ t. a ∷ t) (take-length r)
