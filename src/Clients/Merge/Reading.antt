-- ===== src/Clients/Merge/Reading.antt =====
-- Values that json_merge can read.
use map.Clients.Merge.{
  JsonC, put, get_proto_id, add_at, read_documents, read_chunk, read_table, read_family, Tables46,
  Addrs,
}
use map.Common.Maps.{modify}
use map.Common.Text.{Text, codes, text_eq}
use map.Common.{ℕ, ◌≡◌, refl, Bool, Option, none, some, List, [], ◌∷◌, Bool-cases, inl, inr}
use map.Memory.{Bytes, Endian}
use map.Stat.{Chunk, new_chunk, lt_in_addr, lt_in6_addr}

-- Every element has a name that the code knows.
abbrev pub GoodElements : {J : Type 0} → List (Text × Option J) → Type 0
GoodElements [] = Unit
GoodElements ((k, none) ∷ js) = GoodElements js
GoodElements ((k, some j) ∷ js) = ((i : ℕ) × (get_proto_id k ≡ some i)) × GoodElements js

module _ {J : Type 0} (c : JsonC J) where
  -- Every entry is an object of such elements.
  abbrev pub GoodEntries : List (Text × Option J) → Type 0
  GoodEntries [] = Unit
  GoodEntries ((k, none) ∷ js) = ⊥
  GoodEntries ((k, some j) ∷ js) = GoodElements (c.members j) × GoodEntries js

  abbrev pub GoodFamily : Option J → Type 0
  GoodFamily none = Unit
  GoodFamily (some o) = GoodEntries (c.members o)

  abbrev pub IsReadable : J → Type 0
  IsReadable j = GoodFamily (c.object_get j (codes "v4")) × GoodFamily (c.object_get j (codes "v6"))

  abbrev pub AllReadable : List (Text × J) → Type 0
  AllReadable [] = Unit
  AllReadable ((name, j) ∷ js) = IsReadable j × AllReadable js

  read_chunk-returns :
      (lt : Bytes → Bytes → Bool) (addr : Bytes) (js : List (Text × Option J))
      (m : List (Bytes × Chunk))
      → GoodElements js
      → (m' : List (Bytes × Chunk)) × (read_chunk c lt addr js m ≡ some m')
  unfolding read_chunk
  read_chunk-returns lt addr [] m h = (m, refl)
  read_chunk-returns lt addr ((k, none) ∷ js) m h = read_chunk-returns lt addr js m h
  read_chunk-returns lt addr ((k, some j) ∷ js) m ((i, e), h) =
      rw (e, read_chunk)
        (read_chunk-returns lt addr js (modify lt addr new_chunk (add_at c i j) m) h)

  read_table-returns :
      (lt : Bytes → Bytes → Bool) (pton : Text → Bytes) (js : List (Text × Option J))
      (m : List (Bytes × Chunk))
      → GoodEntries js
      → (m' : List (Bytes × Chunk)) × (read_table c lt pton js m ≡ some m')
  unfolding read_table
  read_table-returns lt pton [] m h = (m, refl)
  read_table-returns lt pton ((k, none) ∷ js) m h = absurd h
  read_table-returns lt pton ((k, some j) ∷ js) m (g, h) =
      let (next, e) = read_chunk-returns lt (pton k) (c.members j) m g in
      rw (e, read_table) (read_table-returns lt pton js next h)

  read_family-returns :
      (lt : Bytes → Bytes → Bool) (pton : Text → Bytes) (o : Option J) (m : List (Bytes × Chunk))
      → GoodFamily o
      → (m' : List (Bytes × Chunk)) × (read_family c lt pton o m ≡ some m')
  unfolding read_family
  read_family-returns lt pton none m h = (m, refl)
  read_family-returns lt pton (some o) m h = read_table-returns lt pton (c.members o) m h

  pub read_documents-returns :
      (e : Endian) (a : Addrs) (js : List (Text × J)) (m : Tables46)
      → AllReadable js
      → (m' : Tables46) × (read_documents c e a js m ≡ some m')
  unfolding read_documents
  read_documents-returns e a [] m h = (m, refl)
  read_documents-returns e a ((n, j) ∷ js) (m4, m6) ((g4, g6), h) =
      let (next4, p) = read_family-returns (lt_in_addr e) a.pton4 _ m4 g4 in
      let (next6, q) = read_family-returns (lt_in6_addr e) a.pton6 _ m6 g6 in
      rw (p, read_documents)
        (rw (q, read_documents) (read_documents-returns e a js (next4, next6) h))

  pub put-GoodEntries :
      (k : Text) (j : J) (ms : List (Text × Option J))
      → GoodElements (c.members j)
      → GoodEntries ms
      → GoodEntries (put k (some j) ms)
  unfolding put
  put-GoodEntries k j [] g h = (g, tt)
  put-GoodEntries k j ((n, none) ∷ ms) g h = absurd h
  put-GoodEntries k j ((n, some o) ∷ ms) g h = elim (Bool-cases (text_eq k n)) [
    | inl e ↦ rw e (g, h.1)
    | inr e ↦ rw e (h.0, put-GoodEntries k j ms g h.1)
  ]
