-- ===== src/Mapping/Invariant.antt =====
-- The invariant of the mapping tables, and that insertion and reading a file keep it.
use map.Common.{
  ◌≡◌, refl, sym, ◌∙◌, Bool, true, false, ◌&&◌, none, some, List, [], ◌∷◌, if◌then◌else◌, arith,
  length,
}
use map.HashTable.Lookup.{Indexes, IsUnique, insert_head-Indexes, find-init_heads}
use map.HashTable.{scan, insert_head}
use map.Mapping.Config.{or_exit}
use map.Mapping.{
  Tables, Mapping, Mapping66, initialize, find_with_ip4_addr, find_with_ip6_addr, find_with_g_addr,
  find_with_i_addr, insert_mapping, insert_mapping66, insert_hash_4to6, insert_hash_6to4,
  insert_hash_gtoi, insert_hash_itog,
}
use map.Memory.{Bytes, Endian}

abbrev pub addr4_of : Mapping → Bytes
addr4_of m = m.addr4

abbrev pub addr6_of : Mapping → Bytes
addr6_of m = m.addr6

abbrev pub global_of : Mapping66 → Bytes
global_of m = m.global

abbrev pub intra_of : Mapping66 → Bytes
intra_of m = m.intra

-- Every entry satisfies `P`.
abbrev pub All : {A : Type 0} → (A → Type 0) → List A → Type 0
All P [] = Unit
All P (x ∷ xs) = P x × All P xs

-- Each hash table answers as a linear search of its list does; the mappings are one to one; the
-- addresses have their lengths.
pub record IsConsistent (e : Endian) (t : Tables) : Type 0 where
  pub by_addr4 : Indexes e addr4_of 2 t.mappings t.hash_4to6
  pub by_addr6 : Indexes e addr6_of 8 t.mappings t.hash_6to4
  pub by_global : Indexes e global_of 8 t.mappings66 t.hash_gtoi
  pub by_intra : Indexes e intra_of 8 t.mappings66 t.hash_itog
  pub unique_addr4 : IsUnique e addr4_of 2 t.mappings
  pub unique_addr6 : IsUnique e addr6_of 8 t.mappings
  pub unique_global : IsUnique e global_of 8 t.mappings66
  pub unique_intra : IsUnique e intra_of 8 t.mappings66
  pub sizes : All (λ m. (length m.addr4 ≡ 4) × (length m.addr6 ≡ 16)) t.mappings
  pub sizes66 : All (λ m. (length m.global ≡ 16) × (length m.intra ≡ 16)) t.mappings66
  pub prefix_size : length t.prefix ≡ 16

-- The four searches are linear searches of the lists.
module _ {e : Endian} {t : Tables} (c : IsConsistent e t) (addr : Bytes) where
  pub find_with_ip4_addr_lem : find_with_ip4_addr e t addr ≡ scan addr4_of 4 addr t.mappings
  unfolding find_with_ip4_addr
  find_with_ip4_addr_lem = c.by_addr4 addr

  pub find_with_ip6_addr_lem : find_with_ip6_addr e t addr ≡ scan addr6_of 16 addr t.mappings
  unfolding find_with_ip6_addr
  find_with_ip6_addr_lem = c.by_addr6 addr

  pub find_with_g_addr_lem : find_with_g_addr e t addr ≡ scan global_of 16 addr t.mappings66
  unfolding find_with_g_addr
  find_with_g_addr_lem = c.by_global addr

  pub find_with_i_addr_lem : find_with_i_addr e t addr ≡ scan intra_of 16 addr t.mappings66
  unfolding find_with_i_addr
  find_with_i_addr_lem = c.by_intra addr

pub initialize-IsConsistent : (e : Endian) (t : Tables) → IsConsistent e (initialize t)
unfolding initialize scan
initialize-IsConsistent e t = record {
  by_addr4 = find-init_heads e addr4_of 4 t.hash_4to6;
  by_addr6 = find-init_heads e addr6_of 16 t.hash_6to4;
  by_global = find-init_heads e global_of 16 t.hash_gtoi;
  by_intra = find-init_heads e intra_of 16 t.hash_itog;
  unique_addr4 = tt;
  unique_addr6 = tt;
  unique_global = tt;
  unique_intra = tt;
  sizes = tt;
  sizes66 = tt;
  prefix_size = refl;
}

-- The tables after a successful insertion.
abbrev pub inserted : Endian → Mapping → Tables → Tables
inserted e m t = record t {
  mappings = m ∷ t.mappings;
  hash_4to6 = insert_head e addr4_of 4 t.hash_4to6 m;
  hash_6to4 = insert_head e addr6_of 16 t.hash_6to4 m;
}

abbrev pub inserted66 : Endian → Mapping66 → Tables → Tables
inserted66 e m t = record t {
  mappings66 = m ∷ t.mappings66;
  hash_gtoi = insert_head e global_of 16 t.hash_gtoi m;
  hash_itog = insert_head e intra_of 16 t.hash_itog m;
}

insert_hash_4to6_lem :
    (e : Endian) (g : Bool) (m : Mapping) (t : Tables)
    → find_with_ip4_addr e t m.addr4 ≡ none
    → insert_hash_4to6 e g m t
      ≡ (if g then some (record t { hash_4to6 = insert_head e addr4_of 4 t.hash_4to6 m }) else none)
unfolding insert_hash_4to6
insert_hash_4to6_lem e g m t p = rw p refl

insert_hash_6to4_lem :
    (e : Endian) (g : Bool) (m : Mapping) (t : Tables)
    → find_with_ip6_addr e t m.addr6 ≡ none
    → insert_hash_6to4 e g m t ≡ (
        if g then some (record t { hash_6to4 = insert_head e addr6_of 16 t.hash_6to4 m }) else none)
unfolding insert_hash_6to4
insert_hash_6to4_lem e g m t p = rw p refl

insert_hash_gtoi_lem :
    (e : Endian) (g : Bool) (m : Mapping66) (t : Tables)
    → find_with_g_addr e t m.global ≡ none
    → insert_hash_gtoi e g m t ≡ (
        if g
        then some (record t { hash_gtoi = insert_head e global_of 16 t.hash_gtoi m })
        else none)
unfolding insert_hash_gtoi
insert_hash_gtoi_lem e g m t p = rw p refl

insert_hash_itog_lem :
    (e : Endian) (g : Bool) (m : Mapping66) (t : Tables)
    → find_with_i_addr e t m.intra ≡ none
    → insert_hash_itog e g m t ≡ (
        if g then some (record t { hash_itog = insert_head e intra_of 16 t.hash_itog m }) else none)
unfolding insert_hash_itog
insert_hash_itog_lem e g m t p = rw p refl

-- An insertion of new addresses adds the mapping or, where `malloc` fails, ends the process.
pub or_exit-insert_mapping :
    (e : Endian) (g1 g2 : Bool) (m : Mapping) (t : Tables)
    → find_with_ip4_addr e t m.addr4 ≡ none
    → find_with_ip6_addr e t m.addr6 ≡ none
    → or_exit (insert_mapping e g1 g2 m t) ≡ (if g1 && g2 then some (inserted e m t) else none)
unfolding insert_mapping
or_exit-insert_mapping e true g2 m t p q =
    let t' : Tables = record t { hash_4to6 = insert_head e addr4_of 4 t.hash_4to6 m } in
    rw (insert_hash_4to6_lem e true m t p, insert_mapping)
      (rw (insert_hash_6to4_lem e g2 m t' (unfold find_with_ip6_addr in q), insert_mapping)
        (ground arith))
or_exit-insert_mapping e false g2 m t p q =
    rw (insert_hash_4to6_lem e false m t p, insert_mapping) refl

pub or_exit-insert_mapping66 :
    (e : Endian) (g1 g2 : Bool) (m : Mapping66) (t : Tables)
    → find_with_g_addr e t m.global ≡ none
    → find_with_i_addr e t m.intra ≡ none
    → or_exit (insert_mapping66 e g1 g2 m t) ≡ (if g1 && g2 then some (inserted66 e m t) else none)
unfolding insert_mapping66
or_exit-insert_mapping66 e true g2 m t p q =
    let t' : Tables = record t { hash_gtoi = insert_head e global_of 16 t.hash_gtoi m } in
    rw (insert_hash_gtoi_lem e true m t p, insert_mapping66)
      (rw (insert_hash_itog_lem e g2 m t' (unfold find_with_i_addr in q), insert_mapping66)
        (ground arith))
or_exit-insert_mapping66 e false g2 m t p q =
    rw (insert_hash_gtoi_lem e false m t p, insert_mapping66) refl

-- New addresses keep the mappings one to one.
pub inserted-IsConsistent :
    (e : Endian) (m : Mapping) (t : Tables)
    → IsConsistent e t
    → find_with_ip4_addr e t m.addr4 ≡ none
    → find_with_ip6_addr e t m.addr6 ≡ none
    → length m.addr4 ≡ 4
    → length m.addr6 ≡ 16
    → IsConsistent e (inserted e m t)
inserted-IsConsistent e m t c p q l4 l6 = record {
  by_addr4 = insert_head-Indexes e addr4_of 2 t.mappings t.hash_4to6 m c.by_addr4;
  by_addr6 = insert_head-Indexes e addr6_of 8 t.mappings t.hash_6to4 m c.by_addr6;
  by_global = c.by_global;
  by_intra = c.by_intra;
  unique_addr4 = (sym (find_with_ip4_addr_lem c m.addr4) ∙ p, c.unique_addr4);
  unique_addr6 = (sym (find_with_ip6_addr_lem c m.addr6) ∙ q, c.unique_addr6);
  unique_global = c.unique_global;
  unique_intra = c.unique_intra;
  sizes = ((l4, l6), c.sizes);
  sizes66 = c.sizes66;
  prefix_size = c.prefix_size;
}

pub inserted66-IsConsistent :
    (e : Endian) (m : Mapping66) (t : Tables)
    → IsConsistent e t
    → find_with_g_addr e t m.global ≡ none
    → find_with_i_addr e t m.intra ≡ none
    → length m.global ≡ 16
    → length m.intra ≡ 16
    → IsConsistent e (inserted66 e m t)
inserted66-IsConsistent e m t c p q lg li = record {
  by_addr4 = c.by_addr4;
  by_addr6 = c.by_addr6;
  by_global = insert_head-Indexes e global_of 8 t.mappings66 t.hash_gtoi m c.by_global;
  by_intra = insert_head-Indexes e intra_of 8 t.mappings66 t.hash_itog m c.by_intra;
  unique_addr4 = c.unique_addr4;
  unique_addr6 = c.unique_addr6;
  unique_global = (sym (find_with_g_addr_lem c m.global) ∙ p, c.unique_global);
  unique_intra = (sym (find_with_i_addr_lem c m.intra) ∙ q, c.unique_intra);
  sizes = c.sizes;
  sizes66 = ((lg, li), c.sizes66);
  prefix_size = c.prefix_size;
}
