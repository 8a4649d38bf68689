-- ===== src/Mapping.antt =====
-- mapping.c: the one-to-one tables between IPv4 and IPv6 addresses, and between global and internal
-- IPv6 addresses, with the conversions of a packet's addresses. An entry of a hash chain holds the
-- mapping that its pointer leads to; no mapping is changed after its insertion.
pub mod Config
pub mod Invariant
pub mod Reload
pub mod Lines
pub mod Emptied
pub mod Routes
pub mod Requests
pub mod Convert
use map.Common.{
  ℕ, zero, suc, ◌-◌, Bool, true, false, ◌&&◌, Option, none, some, List, [], ◌∷◌, ◌++◌, take, drop,
  replicate, ◌==◌, if◌then◌else◌,
}
use map.HashTable.{Heads, update, memcmp_eq, find, insert_head, init_heads, hash_size}
use map.Memory.{Bytes, Endian, slice}
use map.Tunif.{tun_get_af, af_inet, af_inet6}

pub record Mapping : Type 0 where
  pub addr4 : Bytes
  pub addr6 : Bytes

pub record Mapping66 : Type 0 where
  pub global : Bytes
  pub intra : Bytes

-- The file's variables.
pub record Tables : Type 0 where
  pub prefix : Bytes
  pub mappings : List Mapping
  pub mappings66 : List Mapping66
  pub hash_4to6 : Heads Mapping
  pub hash_6to4 : Heads Mapping
  pub hash_itog : Heads Mapping66
  pub hash_gtoi : Heads Mapping66

abbrev pub zero_addr6 : Bytes
zero_addr6 = replicate 16 0

-- `mapping_initialize`.
unfoldable pub initialize : Tables → Tables
initialize t = record {
  prefix = zero_addr6;
  mappings = [];
  mappings66 = [];
  hash_4to6 = init_heads hash_size t.hash_4to6;
  hash_6to4 = init_heads hash_size t.hash_6to4;
  hash_itog = init_heads hash_size t.hash_itog;
  hash_gtoi = init_heads hash_size t.hash_gtoi;
}

-- The four searches.
unfoldable pub find_with_ip4_addr : Endian → Tables → Bytes → Option Mapping
find_with_ip4_addr e t addr = find e (λ m. m.addr4) 4 t.hash_4to6 addr

unfoldable pub find_with_ip6_addr : Endian → Tables → Bytes → Option Mapping
find_with_ip6_addr e t addr = find e (λ m. m.addr6) 16 t.hash_6to4 addr

unfoldable pub find_with_g_addr : Endian → Tables → Bytes → Option Mapping66
find_with_g_addr e t addr = find e (λ m. m.global) 16 t.hash_gtoi addr

unfoldable pub find_with_i_addr : Endian → Tables → Bytes → Option Mapping66
find_with_i_addr e t addr = find e (λ m. m.intra) 16 t.hash_itog addr

-- A test for NULL.
abbrev pub is_null : {A : Type 0} → Option A → Bool
is_null none = true
is_null (some a) = false

-- The two halves of `mapping_insert_mapping`. `granted` says whether `malloc` succeeds; `none` is
-- the return of -1.
unfoldable pub insert_hash_4to6 : Endian → Bool → Mapping → Tables → Option Tables
insert_hash_4to6 e granted m t =
    if is_null (find_with_ip4_addr e t m.addr4)
    then if granted
      then some (record t { hash_4to6 = insert_head e (λ x. x.addr4) 4 t.hash_4to6 m })
      else none
    else some t

unfoldable pub insert_hash_6to4 : Endian → Bool → Mapping → Tables → Option Tables
insert_hash_6to4 e granted m t =
    if is_null (find_with_ip6_addr e t m.addr6)
    then if granted
      then some (record t { hash_6to4 = insert_head e (λ x. x.addr6) 16 t.hash_6to4 m })
      else none
    else some t

-- `mapping_insert_mapping`: whether it returns 0, and the tables that it leaves.
unfoldable pub insert_mapping : Endian → Bool → Bool → Mapping → Tables → Bool × Tables
insert_mapping e granted4 granted6 m t = elim (insert_hash_4to6 e granted4 m t) [
  | none ↦ (false, t)
  | some t' ↦ elim (insert_hash_6to4 e granted6 m t') [
    | none ↦ (false, t')
    | some t'' ↦ (true, record t'' { mappings = m ∷ t''.mappings })
  ]
]

unfoldable pub insert_hash_gtoi : Endian → Bool → Mapping66 → Tables → Option Tables
insert_hash_gtoi e granted m t =
    if is_null (find_with_g_addr e t m.global)
    then if granted
      then some (record t { hash_gtoi = insert_head e (λ x. x.global) 16 t.hash_gtoi m })
      else none
    else some t

unfoldable pub insert_hash_itog : Endian → Bool → Mapping66 → Tables → Option Tables
insert_hash_itog e granted m t =
    if is_null (find_with_i_addr e t m.intra)
    then if granted
      then some (record t { hash_itog = insert_head e (λ x. x.intra) 16 t.hash_itog m })
      else none
    else some t

-- `mapping66_insert_mapping`.
unfoldable pub insert_mapping66 : Endian → Bool → Bool → Mapping66 → Tables → Bool × Tables
insert_mapping66 e granted_g granted_i m t = elim (insert_hash_gtoi e granted_g m t) [
  | none ↦ (false, t)
  | some t' ↦ elim (insert_hash_itog e granted_i m t') [
    | none ↦ (false, t')
    | some t'' ↦ (true, record t'' { mappings66 = m ∷ t''.mappings66 })
  ]
]

-- `while (!SLIST_EMPTY(head)) SLIST_REMOVE_HEAD(head)`.
unfoldable pub drain : {A : Type 0} → List A → List A
drain [] = []
drain (m ∷ ms) = drain ms

unfoldable pub drain_heads : {A : Type 0} → ℕ → Heads A → Heads A
drain_heads zero heads = heads
drain_heads (suc count) heads = drain_heads count (update heads count (drain (heads count)))

-- `mapping_destroy_table`.
unfoldable pub destroy_table : Tables → Tables
destroy_table t = record {
  prefix = zero_addr6;
  mappings = drain t.mappings;
  mappings66 = drain t.mappings66;
  hash_4to6 = drain_heads hash_size t.hash_4to6;
  hash_6to4 = drain_heads hash_size t.hash_6to4;
  hash_itog = drain_heads hash_size t.hash_itog;
  hash_gtoi = drain_heads hash_size t.hash_gtoi;
}

-- `mapping_convert_addrs_4to6`: the IPv6 source and destination, or `none` for -1.
unfoldable pub convert_addrs_4to6 : Endian → Tables → Bytes → Bytes → Option (Bytes × Bytes)
convert_addrs_4to6 e t ip4_src ip4_dst = elim (find_with_ip4_addr e t ip4_dst) [
  | none ↦ none
  | some m ↦ some (take 12 t.prefix ++ take 4 ip4_src, m.addr6)
]

-- `mapping_convert_addrs_6to4`: the IPv4 source, `none` for -1, and what is written to the IPv4
-- destination, which happens before the search.
unfoldable pub convert_addrs_6to4 :
    Endian → Tables → Bytes → Option Bytes → Option Bytes × Option Bytes
convert_addrs_6to4 e t ip6_src ip6_dst = (
  elim (find_with_ip6_addr e t ip6_src) [ none ↦ none | some m ↦ some m.addr4 ],
  elim ip6_dst [ none ↦ none | some dst ↦ some (slice dst 12 4) ],
)

-- `mapping66_convert_addrs_GtoI`: the source and destination after the conversion.
unfoldable pub convert_addrs_gtoi : Endian → Tables → Bytes → Bytes → Option (Bytes × Bytes)
convert_addrs_gtoi e t before_src before_dst = elim (find_with_g_addr e t before_dst) [
  | none ↦ none
  | some m ↦ some (before_src, m.intra)
]

-- `mapping66_convert_addrs_ItoG`, whose destination may be NULL.
unfoldable pub convert_addrs_itog :
    Endian → Tables → Bytes → Option Bytes → Option (Bytes × Option Bytes)
convert_addrs_itog e t before_src before_dst = elim (find_with_i_addr e t before_src) [
  | none ↦ none
  | some m ↦ some (m.global, before_dst)
]

-- The result of `dispatch`; `unknown` is its 0.
pub data Direction : Type 0 where
  unknown sixtosix_itog sixtosix_gtoi sixtofour fourtosix : Direction

unfoldable pub dispatch : Endian → Tables → Bytes → Direction
dispatch e t buf =
    let af = tun_get_af e buf in
    let packet = drop 4 buf in
    let ip6_src = slice packet 8 16 in
    let ip6_dst = slice packet 24 16 in
    if af == af_inet
    then fourtosix
    else if af == af_inet6
    then if is_null (find_with_i_addr e t ip6_src) && is_null (find_with_ip6_addr e t ip6_src)
      then sixtosix_gtoi
      else if memcmp_eq 8 ip6_dst t.prefix
      then sixtofour
      else sixtosix_itog
    else unknown
