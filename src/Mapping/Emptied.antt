-- ===== src/Mapping/Emptied.antt =====
-- The tables that `mapping_destroy_table` leaves.
use map.Common.{ℕ, zero, suc, ◌≡◌, refl, none, List, [], ◌∷◌, if◌then◌else◌, arith, ltb, lt→ltb}
use map.HashTable.Lookup.{get_hash_index-lt}
use map.HashTable.{Heads, update, find, scan, hash_size}
use map.Mapping.Invariant.{IsConsistent, addr4_of, addr6_of, global_of, intra_of}
use map.Mapping.{
  Tables, drain, drain_heads, destroy_table, find_with_ip4_addr, find_with_ip6_addr,
  find_with_g_addr, find_with_i_addr,
}
use map.Memory.{Bytes, Endian}

drain-eq-nil : {A : Type 0} (ms : List A) → drain ms ≡ []
unfolding drain
drain-eq-nil [] = refl
drain-eq-nil (m ∷ ms) = drain-eq-nil ms

drain_heads_lem :
    {A : Type 0} (count : ℕ) (heads : Heads A) (i : ℕ)
    → drain_heads count heads i ≡ (if ltb i count then [] else heads i)
unfolding drain_heads
drain_heads_lem zero heads i = ground arith
drain_heads_lem (suc count) heads i =
    rw (drain_heads_lem count (update heads count (drain (heads count))) i)
      (ground (arith, drain-eq-nil (heads count)))

find-drain_heads :
    {A : Type 0} (e : Endian) (key : A → Bytes) (len : ℕ) (heads : Heads A) (addr : Bytes)
    → find e key len (drain_heads hash_size heads) addr ≡ none
unfolding find scan
find-drain_heads e key len heads addr =
    rw (drain_heads_lem hash_size heads _, lt→ltb _ _ (get_hash_index-lt e addr len))

-- Whatever the tables were, `mapping_destroy_table` empties the lists and every hash chain, and leaves
-- consistent tables to read the files into again.
pub destroy_table-IsConsistent :
    (e : Endian) (t : Tables)
    → IsConsistent e (destroy_table t)
      × ((destroy_table t).mappings ≡ [])
      × ((destroy_table t).mappings66 ≡ [])
      × ((addr : Bytes) → find_with_ip4_addr e (destroy_table t) addr ≡ none)
      × ((addr : Bytes) → find_with_ip6_addr e (destroy_table t) addr ≡ none)
      × ((addr : Bytes) → find_with_g_addr e (destroy_table t) addr ≡ none)
      × ((addr : Bytes) → find_with_i_addr e (destroy_table t) addr ≡ none)
unfolding destroy_table find_with_ip4_addr find_with_ip6_addr find_with_g_addr find_with_i_addr scan
destroy_table-IsConsistent e t =
    let none4 = find-drain_heads e addr4_of 4 t.hash_4to6 in
    let none6 = find-drain_heads e addr6_of 16 t.hash_6to4 in
    let none_g = find-drain_heads e global_of 16 t.hash_gtoi in
    let none_i = find-drain_heads e intra_of 16 t.hash_itog in
    (
      rw (drain-eq-nil t.mappings, drain-eq-nil t.mappings66)
          (record {
            by_addr4 = none4;
            by_addr6 = none6;
            by_global = none_g;
            by_intra = none_i;
            unique_addr4 = tt;
            unique_addr6 = tt;
            unique_global = tt;
            unique_intra = tt;
            sizes = tt;
            sizes66 = tt;
            prefix_size = refl;
          }),
      drain-eq-nil t.mappings,
      drain-eq-nil t.mappings66,
      none4,
      none6,
      none_g,
      none_i,
    )
