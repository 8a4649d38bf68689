-- ===== src/Memory.antt =====
-- The memory that the C code reads through casts: a buffer is the list of its bytes, and a
-- `uint16_t` is read from two of them in the order of the host. A read past the end of the list is 0
-- and a write there changes nothing; C leaves both undefined, and the theorems ask for room.
pub mod Words
pub mod Bound
use map.Common.{ℕ, suc, ◌+◌, ◌*◌, ◌/◌, ◌%◌, List, get_or, set, take, drop, ◌++◌, length}

abbrev pub Bytes : Type 0
Bytes = List ℕ

-- The byte order of the host.
pub data Endian : Type 0 where
  little big : Endian

-- The `uint16_t` at an address that holds the byte `a` and, after it, `b`.
unfoldable pub word : Endian → ℕ → ℕ → ℕ
word little a b = a + 256 * b
word big a b = 256 * a + b

-- The two bytes of a `uint16_t` in memory.
unfoldable pub first_byte : Endian → ℕ → ℕ
first_byte little v = v % 256
first_byte big v = v / 256 % 256

unfoldable pub second_byte : Endian → ℕ → ℕ
second_byte little v = v / 256 % 256
second_byte big v = v % 256

-- `htons` and `ntohs`: the argument is cut to 16 bits, and its bytes are swapped on a little-endian
-- host.
unfoldable pub htons : Endian → ℕ → ℕ
htons little v = v % 256 * 256 + v / 256 % 256
htons big v = v % 65536

abbrev pub load8 : Bytes → ℕ → ℕ
load8 buf i = get_or buf i 0

unfoldable pub load16 : Endian → Bytes → ℕ → ℕ
load16 e buf i = word e (load8 buf i) (load8 buf (suc i))

unfoldable pub store16 : Endian → Bytes → ℕ → ℕ → Bytes
store16 e buf i v = set (set buf i (first_byte e v)) (suc i) (second_byte e v)

-- `memcpy(dst, buf + i, n)`.
abbrev pub slice : Bytes → ℕ → ℕ → Bytes
slice buf i n = take n (drop i buf)
