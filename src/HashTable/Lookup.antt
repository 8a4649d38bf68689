-- ===== src/HashTable/Lookup.antt =====
-- Searching the hash table is searching the list of all entries.
use map.Common.{
  ℕ, zero, suc, ◌+◌, ◌<◌, ◌/◌, ◌%◌, ◌^◌, ◌≡◌, refl, ap, true, none, some, List, [], ◌∷◌, drop,
  if◌then◌else◌, arith, length, Bool-cases, inl, inr, ltb, lt→ltb,
}
use map.Memory.{Bytes, Endian, load8, load16}
use map.Memory.Words.{double}
use map.HashTable.{
  memcmp_eq, hash_loop, get_hash_index, Heads, update, scan, find, insert_head, init_heads,
  hash_size,
}

pub memcmp_eq_refl : (n : ℕ) (a : Bytes) → memcmp_eq n a a ≡ true
unfolding memcmp_eq
memcmp_eq_refl zero a = refl
memcmp_eq_refl (suc n) a = ground (arith, memcmp_eq_refl n (drop 1 a))

pub memcmp_eq_symm : (n : ℕ) (a b : Bytes) → memcmp_eq n a b ≡ memcmp_eq n b a
unfolding memcmp_eq
memcmp_eq_symm zero a b = refl
memcmp_eq_symm (suc n) a b = ground (arith, memcmp_eq_symm n (drop 1 a) (drop 1 b))

pub memcmp_eq_trans :
    (n : ℕ) (a b c : Bytes)
    → memcmp_eq n a b ≡ true
    → memcmp_eq n b c ≡ true
    → memcmp_eq n a c ≡ true
unfolding memcmp_eq
memcmp_eq_trans zero a b c p q = refl
memcmp_eq_trans (suc n) a b c p q =
    ground (arith, memcmp_eq_trans n (drop 1 a) (drop 1 b) (drop 1 c))

-- Two buffers of `n` bytes that compare equal are equal.
pub memcmp_eq-eq :
    (n : ℕ) (a b : Bytes) → length a ≡ n → length b ≡ n → memcmp_eq n a b ≡ true → a ≡ b
unfolding memcmp_eq
memcmp_eq-eq zero [] [] p q h = refl
memcmp_eq-eq zero [] (y ∷ b) p q h = absurd (omega arith)
memcmp_eq-eq zero (x ∷ a) b p q h = absurd (omega arith)
memcmp_eq-eq (suc n) [] b p q h = absurd (omega arith)
memcmp_eq-eq (suc n) (x ∷ a) [] p q h = absurd (omega arith)
memcmp_eq-eq (suc n) (x ∷ a) (y ∷ b) p q h =
    ground (arith, memcmp_eq-eq n a b (omega arith) (omega arith))

load8-drop : (a : Bytes) → load8 a 1 ≡ load8 (drop 1 a) 0
load8-drop [] = refl
load8-drop (x ∷ a) = refl

drop-drop : (a : Bytes) → drop 1 (drop 1 a) ≡ drop 2 a
drop-drop [] = refl
drop-drop (x ∷ []) = refl
drop-drop (x ∷ y ∷ a) = refl

-- Addresses that compare equal have the same hash.
hash_loop-memcmp_eq :
    (e : Endian) (k : ℕ) (a b : Bytes) (sum : ℕ)
    → memcmp_eq (double k) a b ≡ true
    → hash_loop e k a sum ≡ hash_loop e k b sum
unfolding hash_loop memcmp_eq load16
hash_loop-memcmp_eq e zero a b sum h = refl
hash_loop-memcmp_eq e (suc k) a b sum h = ground (
  arith,
  load8-drop a,
  load8-drop b,
  drop-drop a,
  drop-drop b,
  hash_loop-memcmp_eq e k (drop 2 a) (drop 2 b) ((sum + load16 e a 0) % 2 ^ 32),
)

double-half : (k : ℕ) → double k / 2 ≡ k
double-half zero = omega arith
double-half (suc k) = omega (arith, double-half k)

pub get_hash_index-memcmp_eq :
    (e : Endian) (k : ℕ) (a b : Bytes)
    → memcmp_eq (double k) a b ≡ true
    → get_hash_index e a (double k) ≡ get_hash_index e b (double k)
unfolding get_hash_index
get_hash_index-memcmp_eq e k a b h =
    rw double-half (ap (λ t. t % hash_size) (hash_loop-memcmp_eq e k a b 0 h))

pub get_hash_index-lt : (e : Endian) (a : Bytes) (n : ℕ) → get_hash_index e a n < hash_size
unfolding get_hash_index
get_hash_index-lt e a n = omega arith

module _ {A : Type 0} (e : Endian) (key : A → Bytes) (k : ℕ) where
  -- The table answers each search as a linear search of `entries` does.
  abbrev pub Indexes : List A → Heads A → Type 0
  Indexes entries heads =
      (addr : Bytes) → find e key (double k) heads addr ≡ scan key (double k) addr entries

  -- No two entries have the same address.
  abbrev pub IsUnique : List A → Type 0
  IsUnique [] = Unit
  IsUnique (m ∷ ms) = (scan key (double k) (key m) ms ≡ none) × IsUnique ms

  pub find-insert_head :
      (heads : Heads A) (m : A) (addr : Bytes)
      → find e key (double k) (insert_head e key (double k) heads m) addr
        ≡ (if memcmp_eq (double k) addr (key m) then some m else find e key (double k) heads addr)
  unfolding find insert_head scan
  find-insert_head heads m addr = ground (arith, get_hash_index-memcmp_eq e k addr (key m))

  pub insert_head-Indexes :
      (entries : List A) (heads : Heads A) (m : A)
      → Indexes entries heads
      → Indexes (m ∷ entries) (insert_head e key (double k) heads m)
  unfolding scan
  insert_head-Indexes entries heads m h addr = rw (find-insert_head heads m addr, h addr) refl

  pub scan-key :
      (addr : Bytes) (entries : List A) (m : A)
      → scan key (double k) addr entries ≡ some m
      → memcmp_eq (double k) addr (key m) ≡ true
  unfolding scan
  scan-key addr [] m h = cc
  scan-key addr (x ∷ xs) m h = ground (arith, scan-key addr xs m)

  pub scan_congr :
      (a b : Bytes) (entries : List A)
      → memcmp_eq (double k) a b ≡ true
      → scan key (double k) a entries ≡ scan key (double k) b entries
  unfolding scan
  scan_congr a b [] h = refl
  scan_congr a b (x ∷ xs) h = ground (
    arith,
    scan_congr a b xs h,
    memcmp_eq_trans (double k) a b (key x),
    memcmp_eq_trans (double k) b a (key x),
    memcmp_eq_symm (double k) a b,
  )

  -- A search by another key finds an entry of the list again by its own unique address.
  pub scan_unique :
      (key' : A → Bytes) (len : ℕ) (addr : Bytes) (entries : List A) (m : A)
      → scan key' len addr entries ≡ some m
      → IsUnique entries
      → scan key (double k) (key m) entries ≡ some m
  unfolding scan
  scan_unique key' len addr [] m h u = cc
  scan_unique key' len addr (x ∷ xs) m h u = elim (Bool-cases (memcmp_eq len addr (key' x))) [
    | inl here ↦ ground (arith, memcmp_eq_refl (double k) (key m))
    | inr there ↦ ground (
      arith,
      scan_unique key' len addr xs m (rw there at h) u.1,
      scan_congr (key m) (key x) xs,
      u.0,
    )
  ]

-- Initialising the heads empties every chain below `count` and leaves the others alone.
pub init_heads_lem :
    {A : Type 0} (count : ℕ) (heads : Heads A) (i : ℕ)
    → init_heads count heads i ≡ (if ltb i count then [] else heads i)
unfolding init_heads
init_heads_lem zero heads i = ground arith
init_heads_lem (suc count) heads i =
    rw (init_heads_lem count (update heads count []) i) (ground arith)

-- After initialisation, a search finds nothing.
pub find-init_heads :
    {A : Type 0} (e : Endian) (key : A → Bytes) (len : ℕ) (heads : Heads A) (addr : Bytes)
    → find e key len (init_heads hash_size heads) addr ≡ none
unfolding find scan
find-init_heads e key len heads addr =
    rw (init_heads_lem hash_size heads _, lt→ltb _ _ (get_hash_index-lt e addr len))
