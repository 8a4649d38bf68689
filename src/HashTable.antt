-- ===== src/HashTable.antt =====
-- The chained hash tables of mapping.c and pmtudisc.c: the hash of an address and the search of
-- a chain. The four tables of mapping.c are this code written out four times.
pub mod Lookup
use map.Common.{
  ℕ, zero, suc, ◌+◌, ◌/◌, ◌%◌, ◌^◌, Bool, true, ◌&&◌, Option, none, some, List, [], ◌∷◌, drop, ◌==◌,
  if◌then◌else◌,
}
use map.Memory.{Bytes, Endian, load8, load16}

-- `memcmp(a, b, n) == 0`.
unfoldable pub memcmp_eq : ℕ → Bytes → Bytes → Bool
memcmp_eq zero a b = true
memcmp_eq (suc n) a b = (load8 a 0 == load8 b 0) && memcmp_eq n (drop 1 a) (drop 1 b)

-- The loop over 16-bit words of `mapping_get_hash_index` and `pmtudisc_get_hash_index`, whose
-- `uint32_t` sum wraps.
unfoldable pub hash_loop : Endian → ℕ → Bytes → ℕ → ℕ
hash_loop e zero data_ sum = sum
hash_loop e (suc n) data_ sum = hash_loop e n (drop 2 data_) ((sum + load16 e data_ 0) % 2 ^ 32)

abbrev pub hash_size : ℕ
hash_size = 1009

unfoldable pub get_hash_index : Endian → Bytes → ℕ → ℕ
get_hash_index e data_ data_len = hash_loop e (data_len / 2) data_ 0 % hash_size

-- The list heads of a table, by index.
abbrev pub Heads : Type 0 → Type 0
Heads A = ℕ → List A

abbrev pub update : {A : Type 0} → Heads A → ℕ → List A → Heads A
update heads i chain j = if i == j then chain else heads j

-- The first entry whose address equals `addr`.
unfoldable pub scan : {A : Type 0} → (A → Bytes) → ℕ → Bytes → List A → Option A
scan key len addr [] = none
scan key len addr (m ∷ ms) = if memcmp_eq len addr (key m) then some m else scan key len addr ms

-- The search of the chain that the address hashes to.
unfoldable pub find : {A : Type 0} → Endian → (A → Bytes) → ℕ → Heads A → Bytes → Option A
find e key len heads addr = scan key len addr (heads (get_hash_index e addr len))

-- `SLIST_INSERT_HEAD` on the chain that the entry's address hashes to.
unfoldable pub insert_head : {A : Type 0} → Endian → (A → Bytes) → ℕ → Heads A → A → Heads A
insert_head e key len heads m =
    let hash_index = get_hash_index e (key m) len in update heads hash_index (m ∷ heads hash_index)

-- `SLIST_INIT` of the heads below `count`.
unfoldable pub init_heads : {A : Type 0} → ℕ → Heads A → Heads A
init_heads zero heads = heads
init_heads (suc count) heads = init_heads count (update heads count [])
