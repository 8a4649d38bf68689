-- ===== src/Clients/Merge.antt =====
-- stat.cpp (`get_json`, `get_proto`, `get_proto_ID`) and contrib/stat/json_util.cpp (`json_merge`):
-- the counters as a JSON value, and the values of several files read back and added up. The library
-- json-c is the parameter `JsonC`.
pub mod Sums
pub mod Written
pub mod Reading
pub mod Readable
use Prim.Native.String.{String}
use map.Clients.Date.{show_int, read_int}
use map.Common.Int.{ℤ, pos}
use map.Common.Maps.{modify}
use map.Common.Text.{Text, codes, text_eq}
use map.Common.{
  ℕ, suc, ◌+◌, ◌<◌, ◌≡◌, Bool, true, false, Option, none, some, List, [], ◌∷◌, ◌==◌, ◌>>=◌,
  if◌then◌else◌, set, get_or,
}
use map.Memory.{Bytes, Endian}
use map.Stat.{Element, Chunk, Counts, ltb_ℤ, lt_in_addr, lt_in6_addr, new_element, new_chunk}

-- json_object_new_object, json_object_new_int, json_object_object_add, what
-- json_object_object_foreach goes through, json_object_get_int and json_object_object_get; `none` is
-- NULL.
pub record JsonC (J : Type 0) : Type 0 where
  pub new_object : J
  pub new_int : ℕ → J
  pub object_add : J → Text → Option J → J
  pub members : J → List (Text × Option J)
  pub get_int : Option J → ℕ
  pub object_get : J → Text → Option J

-- A member is put at the end, or in the place of one of the same name.
unfoldable pub put : {A : Type 0} → Text → A → List (Text × A) → List (Text × A)
put k v [] = (k, v) ∷ []
put k v ((j, w) ∷ m) = if text_eq k j then (j, v) ∷ m else (j, w) ∷ put k v m

-- The value of the member of a name, NULL where there is none.
unfoldable pub get_member : {J : Type 0} → Text → List (Text × Option J) → Option J
get_member k [] = none
get_member k ((j, v) ∷ m) = if text_eq k j then v else get_member k m

-- What json-c documents: an int is read back, if it is not negative and one of 32 bits.
pub record IsJsonC {J : Type 0} (c : JsonC J) : Type 0 where
  pub members_new : c.members c.new_object ≡ []
  pub members_add :
      (o : J) (k : Text) (v : Option J) → c.members (c.object_add o k v) ≡ put k v (c.members o)
  pub get_object : (o : J) (k : Text) → c.object_get o k ≡ get_member k (c.members o)
  pub get_int_new : (n : ℕ) → n < 2147483648 → c.get_int (some (c.new_int n)) ≡ n

-- `get_proto` and `get_proto_ID`, whose -1 is `none`.
unfoldable pub get_proto : ℕ → Text
get_proto i =
    if i == 0
    then codes "icmp_in"
    else if i == 1
    then codes "icmp_out"
    else if i == 2
    then codes "tcp_in"
    else if i == 3
    then codes "tcp_out"
    else if i == 4
    then codes "udp_in"
    else if i == 5
    then codes "udp_out"
    else codes "unknown proto"

unfoldable pub get_proto_id : Text → Option ℕ
get_proto_id s =
    if text_eq s (codes "icmp_in")
    then some 0
    else if text_eq s (codes "icmp_out")
    then some 1
    else if text_eq s (codes "tcp_in")
    then some 2
    else if text_eq s (codes "tcp_out")
    then some 3
    else if text_eq s (codes "udp_in")
    then some 4
    else if text_eq s (codes "udp_out")
    then some 5
    else none

-- The two maps.
abbrev pub Tables46 : Type 0
Tables46 = List (Bytes × Chunk) × List (Bytes × Chunk)

module _ {J : Type 0} (c : JsonC J) where
  -- A map of bins or of ports.
  unfoldable pub counts_onto : Counts → J → J
  counts_onto [] o = o
  counts_onto ((k, n) ∷ counts) o =
      counts_onto counts (c.object_add o (show_int k) (some (c.new_int n)))

  unfoldable pub counts_json : Counts → Option J
  counts_json [] = none
  counts_json (x ∷ xs) = some (counts_onto (x ∷ xs) c.new_object)

  unfoldable pub element_json : Element → J
  element_json x =
      c.object_add
        (c.object_add (c.object_add c.new_object (codes "num") (some (c.new_int x.num)))
          (codes "len") (counts_json x.len))
        (codes "port") (counts_json x.port_stat)

  -- The loop over the six elements; `write` says what stands for one.
  unfoldable pub elements_onto : (Element → Option J) → ℕ → Chunk → J → J
  elements_onto write i [] o = o
  elements_onto write i (x ∷ xs) o =
      elements_onto write (suc i) xs (c.object_add o (get_proto i) (write x))

  -- In `get_json` an element that counted nothing is NULL; in `json_merge` the pointer to the number
  -- is compared with 0 instead, so every element is written.
  unfoldable pub counted_json : Element → Option J
  counted_json x = if x.num == 0 then none else some (element_json x)

  unfoldable pub merged_json : Element → Option J
  merged_json x = some (element_json x)

  unfoldable pub table_onto : (Element → Option J) → (Bytes → Text) → List (Bytes × Chunk) → J → J
  table_onto write ntop [] o = o
  table_onto write ntop ((addr, chunk) ∷ m) o =
      table_onto write ntop m
        (c.object_add o (ntop addr) (some (elements_onto write 0 chunk c.new_object)))

  unfoldable pub table_json :
      (Element → Option J) → (Bytes → Text) → List (Bytes × Chunk) → Option J
  table_json write ntop [] = none
  table_json write ntop (x ∷ m) = some (table_onto write ntop (x ∷ m) c.new_object)

  unfoldable pub document : (Element → Option J) → (Bytes → Text) → (Bytes → Text) → Tables46 → J
  document write ntop4 ntop6 (m4, m6) =
      c.object_add (c.object_add c.new_object (codes "v4") (table_json write ntop4 m4)) (codes "v6")
        (table_json write ntop6 m6)

  -- `stat::get_json`, before it is made a text.
  unfoldable pub get_json : (Bytes → Text) → (Bytes → Text) → Tables46 → J
  get_json = document counted_json

  -- A key that is no number is read as 0.
  abbrev pub key_of : Text → ℤ
  key_of s = elim (read_int s) [ none ↦ pos 0 | some n ↦ n ]

  unfoldable pub read_counts : List (Text × Option J) → Counts → Counts
  read_counts [] counts = counts
  read_counts ((k, v) ∷ m) counts =
      read_counts m (modify ltb_ℤ (key_of k) 0 (λ n. n + c.get_int v) counts)

  unfoldable pub read_onto : Option J → Counts → Counts
  read_onto none counts = counts
  read_onto (some o) counts = read_counts (c.members o) counts

  unfoldable pub read_element : J → Element → Element
  read_element j x = record x {
    num = x.num + c.get_int (c.object_get j (codes "num"));
    len = read_onto (c.object_get j (codes "len")) x.len;
    port_stat = read_onto (c.object_get j (codes "port")) x.port_stat;
  }

  abbrev pub add_at : ℕ → J → Chunk → Chunk
  add_at i j chunk = set chunk i (read_element j (get_or chunk i new_element))

  -- The members of the entry of an address; `none` is undefined behaviour, an element before the
  -- first.
  unfoldable pub read_chunk :
      (Bytes → Bytes → Bool)
      → Bytes
      → List (Text × Option J)
      → List (Bytes × Chunk)
      → Option (List (Bytes × Chunk))
  read_chunk lt addr [] m = some m
  read_chunk lt addr ((k, none) ∷ js) m = read_chunk lt addr js m
  read_chunk lt addr ((k, some j) ∷ js) m = elim (get_proto_id k) [
    | none ↦ none
    | some i ↦ read_chunk lt addr js (modify lt addr new_chunk (add_at i j) m)
  ]

  -- The entries; a loop over the members of NULL is undefined.
  unfoldable pub read_table :
      (Bytes → Bytes → Bool)
      → (Text → Bytes)
      → List (Text × Option J)
      → List (Bytes × Chunk)
      → Option (List (Bytes × Chunk))
  read_table lt pton [] m = some m
  read_table lt pton ((k, none) ∷ js) m = none
  read_table lt pton ((k, some j) ∷ js) m = do
    m' ← read_chunk lt (pton k) (c.members j) m
    read_table lt pton js m'

-- inet_pton and inet_ntop, for both kinds of addresses.
pub record Addrs : Type 0 where
  pub pton4 : Text → Bytes
  pub pton6 : Text → Bytes
  pub ntop4 : Bytes → Text
  pub ntop6 : Bytes → Text

module _ {J : Type 0} (c : JsonC J) where
  unfoldable pub read_family :
      (Bytes → Bytes → Bool)
      → (Text → Bytes)
      → Option J
      → List (Bytes × Chunk)
      → Option (List (Bytes × Chunk))
  read_family lt pton none m = some m
  read_family lt pton (some o) m = read_table c lt pton (c.members o) m

  -- The loop of `json_merge` over the values of the files.
  unfoldable pub read_documents : Endian → Addrs → List (Text × J) → Tables46 → Option Tables46
  read_documents e a [] m = some m
  read_documents e a ((name, j) ∷ js) (m4, m6) = do
    m4' ← read_family (lt_in_addr e) a.pton4 (c.object_get j (codes "v4")) m4
    m6' ← read_family (lt_in6_addr e) a.pton6 (c.object_get j (codes "v6")) m6
    read_documents e a js (m4', m6')

  -- `json_merge`: the value, from which the members for the files are deleted before it is filled.
  unfoldable pub json_merge : Endian → Addrs → List (Text × J) → Option J
  json_merge e a js = do
    m ← read_documents e a js ([], [])
    some (document c (merged_json c) a.ntop4 a.ntop6 m)
