-- ===== src/Clients/Merge/Readable.antt =====
-- What get_json and json_merge write can be read, and the sum over a merge.
use map.Clients.Merge.Reading.{
  GoodElements, GoodEntries, GoodFamily, IsReadable, AllReadable, read_documents-returns,
  put-GoodEntries,
}
use map.Clients.Merge.Sums.{IsSix, IsSixes, sum_document, sum_documents, sum46, read_documents-sum}
use map.Clients.Merge.Written.{
  IsInjective, merged_json-Tells, counted_json-Tells, sum_family-json, members-elements_onto, added,
  Tells,
}
use map.Clients.Merge.{
  JsonC, IsJsonC, put, get_proto, get_proto_id, get_member, elements_onto, merged_json,
  counted_json, table_onto, table_json, document, json_merge, get_json, Tables46, Addrs,
}
use map.Common.Maps.{Each, sum_by}
use map.Common.Text.{Text, codes, text_eq}
use map.Common.{
  ℕ, zero, suc, ◌+◌, ◌<◌, ◌≡◌, refl, ap, ◌∙◌, Bool, Option, some, List, [], ◌∷◌, arith, Bool-cases,
  inl, inr, ◌==◌,
}
use map.Memory.{Bytes, Endian}
use map.Stat.Counted.{IsCounted, IsAccounted, IsTable}
use map.Stat.Totals.{packets}
use map.Stat.{Stat, Chunk, Element, lt_in_addr, lt_in6_addr}

IsCounted-IsSix : (chunk : Chunk) → IsCounted chunk → IsSix chunk
IsCounted-IsSix (a ∷ b ∷ d ∷ e ∷ f ∷ g ∷ []) h = refl
IsCounted-IsSix _ h = absurd h

IsSix-Each : (m : List (Bytes × Chunk)) → Each (λ k ch. IsCounted ch) m → Each (λ k ch. IsSix ch) m
IsSix-Each [] h = tt
IsSix-Each ((a, chunk) ∷ m) h = (IsCounted-IsSix chunk h.0, IsSix-Each m h.1)

six_of : (lt : Bytes → Bytes → Bool) (m : List (Bytes × Chunk)) → IsTable lt m → IsSixes lt m
six_of lt m h = (IsSix-Each m h.1, h.0)

-- The texts of the addresses, both kinds.
pub record IsNtop (e : Endian) (a : Addrs) : Type 0 where
  pub injective4 : IsInjective (lt_in_addr e) a.ntop4
  pub injective6 : IsInjective (lt_in6_addr e) a.ntop6

-- get_proto_ID knows the names of get_proto.
proto_known : (i : ℕ) → i < 6 → get_proto_id (get_proto i) ≡ some i
unfolding get_proto get_proto_id text_eq
proto_known zero h = refl
proto_known (suc zero) h = refl
proto_known (suc (suc zero)) h = refl
proto_known (suc (suc (suc zero))) h = refl
proto_known (suc (suc (suc (suc zero)))) h = refl
proto_known (suc (suc (suc (suc (suc zero))))) h = refl
proto_known (suc (suc (suc (suc (suc (suc i)))))) h = absurd (omega arith)

module _ {J : Type 0} {c : JsonC J} (law : IsJsonC c) where
  -- What is written for an element has a known name, or is NULL.
  abbrev Known : (Element → Option J) → Type 0
  Known write =
      (x : Element) (k : Text) (js : List (Text × Option J))
      → ((i : ℕ) × (get_proto_id k ≡ some i))
      → GoodElements js
      → GoodElements ((k, write x) ∷ js)

  merged_json-Known : Known (merged_json c)
  unfolding merged_json
  merged_json-Known x k js known h = (known, h)

  counted_json-Known : Known (counted_json c)
  unfolding counted_json
  counted_json-Known x k js known h = elim (Bool-cases (x.num == 0)) [
    | inl e ↦ rw e h
    | inr e ↦ rw e (known, h)
  ]

  elements-Good :
      (write : Element → Option J) (chunk : Chunk)
      → Known write
      → IsSix chunk
      → GoodElements (c.members (elements_onto c write 0 chunk c.new_object))
  elements-Good write (a ∷ b ∷ d ∷ e ∷ f ∷ g ∷ []) known h =
      rw (members-elements_onto law write a b d e f g) (
        known a _ _ (0, proto_known 0 (omega arith))
          (known b _ _ (1, proto_known 1 (omega arith))
            (known d _ _ (2, proto_known 2 (omega arith))
              (known e _ _ (3, proto_known 3 (omega arith))
                (known f _ _ (4, proto_known 4 (omega arith))
                  (known g _ _ (5, proto_known 5 (omega arith)) tt))))))
  elements-Good write _ known h = absurd (omega arith)

  table_onto-Good :
      (write : Element → Option J) (ntop : Bytes → Text) (m : List (Bytes × Chunk)) (o : J)
      (ms : List (Text × Option J))
      → Known write
      → Each (λ b chunk. IsSix chunk) m
      → GoodEntries c ms
      → c.members o ≡ ms
      → GoodEntries c (c.members (table_onto c write ntop m o))
  unfolding table_onto
  table_onto-Good write ntop [] o ms known six h e = rw e h
  table_onto-Good write ntop ((a, chunk) ∷ m) o ms known six h e =
      let j = elements_onto c write 0 chunk c.new_object in
      table_onto-Good write ntop m (c.object_add o (ntop a) (some j)) (put (ntop a) (some j) ms)
        known six.1 (put-GoodEntries c (ntop a) j ms (elements-Good write chunk known six.0) h)
        (added law (ntop a) (some j) e)

  table_json-Good :
      (write : Element → Option J) (ntop : Bytes → Text) (m : List (Bytes × Chunk))
      → Known write
      → Each (λ b chunk. IsSix chunk) m
      → GoodFamily c (table_json c write ntop m)
  unfolding table_json
  table_json-Good write ntop [] known six = tt
  table_json-Good write ntop (x ∷ m) known six =
      table_onto-Good write ntop (x ∷ m) c.new_object [] known six tt law.members_new

  -- The two members of a value.
  members-document :
      (write : Element → Option J) (ntop4 ntop6 : Bytes → Text) (m : Tables46)
      → c.members (document c write ntop4 ntop6 m)
        ≡ (codes "v4", table_json c write ntop4 m.0)
          ∷ (codes "v6", table_json c write ntop6 m.1)
          ∷ []
  unfolding document put text_eq
  members-document write ntop4 ntop6 (m4, m6) =
      added law (codes "v6") _ (added law (codes "v4") _ law.members_new)

  -- A value that is written for two maps can be read, and tells their packets.
  document-sum :
      (e : Endian) (a : Addrs) (write : Element → Option J) (m : Tables46)
      → IsNtop e a
      → Tells law write
      → Known write
      → IsSixes (lt_in_addr e) m.0
      → IsSixes (lt_in6_addr e) m.1
      → sum46 c m < 2147483648
      → IsReadable c (document c write a.ntop4 a.ntop6 m)
        × (sum_document c (document c write a.ntop4 a.ntop6 m) ≡ sum46 c m)
  unfolding sum_document get_member text_eq
  document-sum e a write m n tells known h4 h6 small =
      let j = document c write a.ntop4 a.ntop6 m in
      let ms = members-document write a.ntop4 a.ntop6 m in
      let of4 : c.object_get j (codes "v4") ≡ table_json c write a.ntop4 m.0 =
        law.get_object j (codes "v4") ∙ ap (get_member (codes "v4")) ms in
      let of6 : c.object_get j (codes "v6") ≡ table_json c write a.ntop6 m.1 =
        law.get_object j (codes "v6") ∙ ap (get_member (codes "v6")) ms in
      let sum4 =
        sum_family-json (lt_in_addr e) a.ntop4 n.injective4 law write m.0 tells h4 (omega arith) in
      let sum6 =
        sum_family-json (lt_in6_addr e) a.ntop6 n.injective6 law write m.1 tells h6 (omega arith) in
      (
        (
          rw of4 (table_json-Good write a.ntop4 m.0 known h4.0),
          rw of6 (table_json-Good write a.ntop6 m.1 known h6.0),
        ),
        rw (of4, of6) (omega (arith, sum4, sum6)),
      )

  bound :
      (js : List (Text × J)) (m : Tables46)
      → sum46 c m ≡ sum46 c ([], []) + sum_documents c js
      → sum_documents c js < 2147483648
      → sum46 c m < 2147483648
  unfolding sum_by
  bound js m h small = omega arith

  -- json_merge makes one value of those of several files, if each can be read, as all can that
  -- get_json and json_merge itself write, and they tell less than 2^31 packets together: it can be
  -- read again, and the packets that it tells are those of the files together, under the documented
  -- behaviour of json-c and inet_ntop.
  pub json_merge-sum :
      (e : Endian) (a : Addrs) (js : List (Text × J))
      → IsNtop e a
      → AllReadable c js
      → sum_documents c js < 2147483648
      → (j : J) × (json_merge c e a js ≡ some j)
        × IsReadable c j
        × (sum_document c j ≡ sum_documents c js)
  unfolding json_merge sum_by
  json_merge-sum e a js n good small =
      let (m, read) = read_documents-returns c e a js ([], []) good in
      let (h4, h6, sums) = read_documents-sum c e a js ([], []) m (tt, tt) (tt, tt) read in
      let (readable, told) =
        document-sum e a (merged_json c) m n (merged_json-Tells law) merged_json-Known h4 h6
          (bound js m sums small) in
      (
        document c (merged_json c) a.ntop4 a.ntop6 m,
        rw (read, json_merge) refl,
        readable,
        told ∙ sums ∙ omega arith,
      )

  -- The value of get_json for counters in order, of less than 2^31 packets, can be read by
  -- json_merge, and tells every packet that they count, under the documented behaviour of json-c and
  -- inet_ntop.
  pub get_json-sum :
      (e : Endian) (a : Addrs) (s : Stat)
      → IsNtop e a
      → IsAccounted e s
      → packets s < 2147483648
      → IsReadable c (get_json c a.ntop4 a.ntop6 (s.stat46, s.stat66))
        × (sum_document c (get_json c a.ntop4 a.ntop6 (s.stat46, s.stat66)) ≡ packets s)
  unfolding get_json
  get_json-sum e a s n h small =
      document-sum e a (counted_json c) (s.stat46, s.stat66) n (counted_json-Tells law)
        counted_json-Known (six_of (lt_in_addr e) s.stat46 h.table46)
        (six_of (lt_in6_addr e) s.stat66 h.table66) small
