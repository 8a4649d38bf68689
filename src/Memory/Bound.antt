-- ===== src/Memory/Bound.antt =====
-- Bytes are below 256, and what that gives for the values read from memory.
use map.Common.{ℕ, zero, suc, ◌<◌, ◌≡◌, [], ◌∷◌, drop, set, take, arith}
use map.Memory.{
  Bytes, Endian, little, big, word, first_byte, second_byte, htons, load8, load16, store16,
}

-- Every element is a byte.
abbrev pub IsBytes : Bytes → Type 0
IsBytes [] = Unit
IsBytes (b ∷ bs) = (b < 256) × IsBytes bs

pub word-lt : (e : Endian) (a b : ℕ) → a < 256 → b < 256 → word e a b < 65536
unfolding word
word-lt little a b p q = omega arith
word-lt big a b p q = omega arith

pub word_bytes : (e : Endian) (v : ℕ) → v < 65536 → word e (first_byte e v) (second_byte e v) ≡ v
unfolding word first_byte second_byte
word_bytes little v h = omega arith
word_bytes big v h = omega arith

pub bytes-lt : (e : Endian) (v : ℕ) → (first_byte e v < 256) × (second_byte e v < 256)
unfolding first_byte second_byte
bytes-lt little v = omega arith
bytes-lt big v = omega arith

pub htons-lt : (e : Endian) (v : ℕ) → htons e v < 65536
unfolding htons
htons-lt little v = omega arith
htons-lt big v = omega arith

pub load8-lt : (buf : Bytes) (i : ℕ) → IsBytes buf → load8 buf i < 256
load8-lt [] i h = omega arith
load8-lt (b ∷ bs) zero h = h.0
load8-lt (b ∷ bs) (suc i) h = load8-lt bs i h.1

pub load16-lt : (e : Endian) (buf : Bytes) (i : ℕ) → IsBytes buf → load16 e buf i < 65536
unfolding load16
load16-lt e buf i h = word-lt e _ _ (load8-lt buf i h) (load8-lt buf (suc i) h)

pub set-IsBytes : (buf : Bytes) (i v : ℕ) → IsBytes buf → v < 256 → IsBytes (set buf i v)
set-IsBytes [] i v h p = tt
set-IsBytes (b ∷ bs) zero v h p = (p, h.1)
set-IsBytes (b ∷ bs) (suc i) v h p = (h.0, set-IsBytes bs i v h.1 p)

pub store16-IsBytes :
    (e : Endian) (buf : Bytes) (i v : ℕ) → IsBytes buf → IsBytes (store16 e buf i v)
unfolding store16
store16-IsBytes e buf i v h =
    set-IsBytes _ (suc i) _ (set-IsBytes buf i _ h (bytes-lt e v).0) (bytes-lt e v).1

pub drop-IsBytes : (n : ℕ) (buf : Bytes) → IsBytes buf → IsBytes (drop n buf)
drop-IsBytes zero buf h = h
drop-IsBytes (suc n) [] h = tt
drop-IsBytes (suc n) (b ∷ bs) h = drop-IsBytes n bs h.1

pub take-IsBytes : (n : ℕ) (buf : Bytes) → IsBytes buf → IsBytes (take n buf)
take-IsBytes zero buf h = tt
take-IsBytes (suc n) [] h = tt
take-IsBytes (suc n) (b ∷ bs) h = (h.0, take-IsBytes n bs h.1)
