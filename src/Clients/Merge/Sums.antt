-- ===== src/Clients/Merge/Sums.antt =====
-- The number of packets in a JSON value, and in the maps that are read from one.
use map.Clients.Merge.{
  JsonC, get_proto_id, read_element, add_at, read_chunk, read_table, read_family, read_documents,
  Tables46, Addrs,
}
use mathlib.Core.Option.{some-injective}
use mathlib.Core.Path.{subst}
use map.Common.Maps.{
  IsOrder, IsAscending, modify-IsAscending, Each, modify, modify-Each, sum_by, sum_by-modify-Each,
}
use map.Common.Text.{Text, codes}
use map.Common.{
  ℕ, zero, suc, ◌+◌, ◌<◌, ◌≡◌, refl, ap, ◌∙◌, Bool, Option, none, some, List, [], ◌∷◌, arith,
  length, set, get_or, length-set, Option-cases, inl, inr,
}
use map.Memory.{Bytes, Endian}
use map.Stat.Order.{lt_in_addr-IsOrder, lt_in6_addr-IsOrder}
use map.Stat.{
  Chunk, Element, total_num, total_from, new_chunk, new_element, lt_in_addr, lt_in6_addr,
}

abbrev pub IsSix : Chunk → Type 0
IsSix chunk = length chunk ≡ 6

total_num-set :
    (i : ℕ) (chunk : Chunk) (v : Element)
    → i < 6
    → IsSix chunk
    → total_num (set chunk i v) + (get_or chunk i new_element).num ≡ total_num chunk + v.num
unfolding total_num total_from
total_num-set zero (a ∷ b ∷ c ∷ d ∷ e ∷ f ∷ []) v h k = omega arith
total_num-set (suc zero) (a ∷ b ∷ c ∷ d ∷ e ∷ f ∷ []) v h k = omega arith
total_num-set (suc (suc zero)) (a ∷ b ∷ c ∷ d ∷ e ∷ f ∷ []) v h k = omega arith
total_num-set (suc (suc (suc zero))) (a ∷ b ∷ c ∷ d ∷ e ∷ f ∷ []) v h k = omega arith
total_num-set (suc (suc (suc (suc zero)))) (a ∷ b ∷ c ∷ d ∷ e ∷ f ∷ []) v h k = omega arith
total_num-set (suc (suc (suc (suc (suc zero))))) (a ∷ b ∷ c ∷ d ∷ e ∷ f ∷ []) v h k = omega arith
total_num-set (suc (suc (suc (suc (suc (suc i)))))) (a ∷ b ∷ c ∷ d ∷ e ∷ f ∷ []) v h k =
    absurd (omega arith)
total_num-set i _ v h k = absurd (omega arith)

get_proto_id-lt : (k : Text) (i : ℕ) → get_proto_id k ≡ some i → i < 6
unfolding get_proto_id
get_proto_id-lt k i h = ground arith

-- What the maps hold.
abbrev pub AllSix : List (Bytes × Chunk) → Type 0
AllSix m = Each (λ addr chunk. IsSix chunk) m

-- The entries are in the order of their addresses, and each has six elements.
abbrev pub IsSixes : (Bytes → Bytes → Bool) → List (Bytes × Chunk) → Type 0
IsSixes lt m = AllSix m × IsAscending lt m

total_num-new : total_num new_chunk ≡ 0
unfolding total_num total_from
total_num-new = refl

module _ {J : Type 0} (c : JsonC J) where
  -- The number of packets that a value tells.
  unfoldable pub num_of : J → ℕ
  num_of j = c.get_int (c.object_get j (codes "num"))

  unfoldable pub sum_elements : List (Text × Option J) → ℕ
  sum_elements [] = 0
  sum_elements ((k, none) ∷ js) = sum_elements js
  sum_elements ((k, some j) ∷ js) = num_of j + sum_elements js

  unfoldable pub sum_entries : List (Text × Option J) → ℕ
  sum_entries [] = 0
  sum_entries ((k, none) ∷ js) = sum_entries js
  sum_entries ((k, some j) ∷ js) = sum_elements (c.members j) + sum_entries js

  unfoldable pub sum_family : Option J → ℕ
  sum_family none = 0
  sum_family (some o) = sum_entries (c.members o)

  unfoldable pub sum_document : J → ℕ
  sum_document j =
      sum_family (c.object_get j (codes "v4")) + sum_family (c.object_get j (codes "v6"))

  unfoldable pub sum_documents : List (Text × J) → ℕ
  sum_documents [] = 0
  sum_documents ((name, j) ∷ js) = sum_document j + sum_documents js

  total_num-add_at :
      (i : ℕ) (j : J) (chunk : Chunk)
      → i < 6
      → IsSix chunk
      → total_num (add_at c i j chunk) ≡ total_num chunk + num_of j
  unfolding read_element num_of
  total_num-add_at i j chunk h k =
      omega (arith, total_num-set i chunk (read_element c j (get_or chunk i new_element)) h k)

  -- What reading leaves: entries of six elements, and so many packets more.
  abbrev pub Adds :
      (Bytes → Bytes → Bool) → ℕ → List (Bytes × Chunk) → List (Bytes × Chunk) → Type 0
  Adds lt n m m' = IsSixes lt m' × (sum_by total_num m' ≡ sum_by total_num m + n)

  Adds-none :
      (lt : Bytes → Bytes → Bool) (m m' : List (Bytes × Chunk))
      → IsSixes lt m
      → some m ≡ some m'
      → Adds lt 0 m m'
  Adds-none lt m m' h k =
      let same : m ≡ m' = some-injective m m' k in
      (subst (IsSixes lt) same h, omega (arith, ap (sum_by total_num) same))

  read_chunk-Adds :
      (lt : Bytes → Bytes → Bool) (addr : Bytes) (js : List (Text × Option J))
      (m m' : List (Bytes × Chunk))
      → IsOrder lt
      → IsSixes lt m
      → read_chunk c lt addr js m ≡ some m'
      → Adds lt (sum_elements js) m m'
  unfolding read_chunk sum_elements
  read_chunk-Adds lt addr [] m m' o h k = Adds-none lt m m' h k
  read_chunk-Adds lt addr ((n, none) ∷ js) m m' o h k = read_chunk-Adds lt addr js m m' o h k
  read_chunk-Adds lt addr ((n, some j) ∷ js) m m' o h k = elim (Option-cases (get_proto_id n)) [
    | inl e ↦ absurd (cc (rw (e, read_chunk) at k))
    | inr (i, e) ↦
        let rest = rw (e, read_chunk) at k in
        let bound = get_proto_id-lt n i e in
        let next = modify lt addr new_chunk (add_at c i j) m in
        let six : AllSix next =
          modify-Each lt (λ addr chunk. IsSix chunk) (add_at c i j) addr new_chunk m
            (length-set new_chunk i _) (λ a ch s. length-set ch i _ ∙ s) h.0 in
        let order = modify-IsAscending lt (add_at c i j) addr new_chunk m o h.1 in
        let more =
          sum_by-modify-Each lt IsSix total_num (add_at c i j) addr new_chunk (num_of j) m
            total_num-new refl (λ ch s. total_num-add_at i j ch bound s) h.0 in
        let (left, sums) = read_chunk-Adds lt addr js next m' o (six, order) rest in
        (left, omega (arith, sums, more))
  ]

  read_table-Adds :
      (lt : Bytes → Bytes → Bool) (pton : Text → Bytes) (js : List (Text × Option J))
      (m m' : List (Bytes × Chunk))
      → IsOrder lt
      → IsSixes lt m
      → read_table c lt pton js m ≡ some m'
      → Adds lt (sum_entries js) m m'
  unfolding read_table sum_entries
  read_table-Adds lt pton [] m m' o h k = Adds-none lt m m' h k
  read_table-Adds lt pton ((n, none) ∷ js) m m' o h k = absurd (cc k)
  read_table-Adds lt pton ((n, some j) ∷ js) m m' o h k =
      elim (Option-cases (read_chunk c lt (pton n) (c.members j) m)) [
        | inl e ↦ absurd (cc (rw (e, read_table) at k))
        | inr (next, e) ↦
            let rest = rw (e, read_table) at k in
            let (six, one) = read_chunk-Adds lt (pton n) (c.members j) m next o h e in
            let (left, sums) = read_table-Adds lt pton js next m' o six rest in
            (left, omega (arith, sums, one))
      ]

  read_family-Adds :
      (lt : Bytes → Bytes → Bool) (pton : Text → Bytes) (o : Option J) (m m' : List (Bytes × Chunk))
      → IsOrder lt
      → IsSixes lt m
      → read_family c lt pton o m ≡ some m'
      → Adds lt (sum_family o) m m'
  unfolding read_family sum_family
  read_family-Adds lt pton none m m' o h k = Adds-none lt m m' h k
  read_family-Adds lt pton (some j) m m' o h k = read_table-Adds lt pton (c.members j) m m' o h k

  -- The packets in the two maps.
  abbrev pub sum46 : Tables46 → ℕ
  sum46 m = sum_by total_num m.0 + sum_by total_num m.1

  pub read_documents-sum :
      (e : Endian) (a : Addrs) (js : List (Text × J)) (m m' : Tables46)
      → IsSixes (lt_in_addr e) m.0
      → IsSixes (lt_in6_addr e) m.1
      → read_documents c e a js m ≡ some m'
      → IsSixes (lt_in_addr e) m'.0
        × IsSixes (lt_in6_addr e) m'.1
        × (sum46 m' ≡ sum46 m + sum_documents js)
  unfolding read_documents sum_documents sum_document
  read_documents-sum e a [] m m' h4 h6 k =
      let same : m ≡ m' = some-injective m m' k in
      (
        subst (λ t. IsSixes (lt_in_addr e) t.0) same h4,
        subst (λ t. IsSixes (lt_in6_addr e) t.1) same h6,
        omega (arith, ap sum46 same),
      )
  read_documents-sum e a ((n, j) ∷ js) (m4, m6) m' h4 h6 k =
      elim (Option-cases (read_family c (lt_in_addr e) a.pton4 (c.object_get j (codes "v4")) m4)) [
        | inl p ↦ absurd (cc (rw (p, read_documents) at k))
        | inr (next4, p) ↦
            let k4 = rw (p, read_documents) at k in
            let (six4, one4) =
              read_family-Adds (lt_in_addr e) a.pton4 (c.object_get j (codes "v4")) m4 next4
                (lt_in_addr-IsOrder e) h4 p in
            elim (Option-cases
              (read_family c (lt_in6_addr e) a.pton6 (c.object_get j (codes "v6")) m6)) [
                | inl q ↦ absurd (cc (rw (q, read_documents) at k4))
                | inr (next6, q) ↦
                    let k6 = rw (q, read_documents) at k4 in
                    let (six6, one6) =
                      read_family-Adds (lt_in6_addr e) a.pton6 (c.object_get j (codes "v6")) m6
                        next6 (lt_in6_addr-IsOrder e) h6 q in
                    let (left4, left6, sums) =
                      read_documents-sum e a js (next4, next6) m' six4 six6 k6 in
                    (left4, left6, omega (arith, sums, one4, one6))
              ]
      ]
