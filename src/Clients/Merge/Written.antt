-- ===== src/Clients/Merge/Written.antt =====
-- The counters as a JSON value tell the packets that the maps hold.
use map.Clients.Merge.Sums.{IsSix, IsSixes, num_of, sum_elements, sum_entries, sum_family}
use map.Clients.Merge.{
  JsonC, IsJsonC, put, get_proto, get_member, element_json, counts_json, elements_onto, merged_json,
  counted_json, table_onto, table_json,
}
use map.Common.Maps.{Each, sum_by}
use map.Common.Text.{Text, codes, text_eq}
use map.Common.{
  ◌+◌, ◌<◌, ◌≡◌, refl, ap, ◌∙◌, Bool, true, false, Option, none, some, List, [], ◌∷◌, arith, ◌==◌,
  Bool-cases, inl, inr,
}
use map.Memory.{Bytes}
use map.Stat.{Chunk, Element, total_num, total_from}

-- A name that no member has.
abbrev pub IsNew : {A : Type 0} → Text → List (Text × A) → Type 0
IsNew k [] = Unit
IsNew k ((j, v) ∷ m) = (text_eq k j ≡ false) × IsNew k m

module _ {J : Type 0} {c : JsonC J} (law : IsJsonC c) where
  pub added :
      {o : J} {ms : List (Text × Option J)} (k : Text) (v : Option J)
      → c.members o ≡ ms
      → c.members (c.object_add o k v) ≡ put k v ms
  added {o} k v h = law.members_add o k v ∙ ap (put k v) h

  members-element_json :
      (x : Element)
      → c.members (element_json c x)
        ≡ (codes "num", some (c.new_int x.num))
          ∷ (codes "len", counts_json c x.len)
          ∷ (codes "port", counts_json c x.port_stat)
          ∷ []
  unfolding element_json put text_eq
  members-element_json x = added (codes "port") (counts_json c x.port_stat) (
      added (codes "len") (counts_json c x.len)
        (added (codes "num") (some (c.new_int x.num)) law.members_new))

  num_of-element_json : (x : Element) → x.num < 2147483648 → num_of c (element_json c x) ≡ x.num
  unfolding num_of get_member text_eq
  num_of-element_json x small =
      ap c.get_int (law.get_object _ (codes "num"))
      ∙ ap (λ ms. c.get_int (get_member (codes "num") ms)) (members-element_json x)
      ∙ law.get_int_new x.num small

  -- The six members of an entry, by what is written for an element.
  pub members-elements_onto :
      (write : Element → Option J) (a b d e f g : Element)
      → c.members (elements_onto c write 0 (a ∷ b ∷ d ∷ e ∷ f ∷ g ∷ []) c.new_object)
        ≡ (get_proto 0, write a)
          ∷ (get_proto 1, write b)
          ∷ (get_proto 2, write d)
          ∷ (get_proto 3, write e)
          ∷ (get_proto 4, write f)
          ∷ (get_proto 5, write g)
          ∷ []
  unfolding elements_onto put text_eq get_proto
  members-elements_onto write a b d e f g = added (get_proto 5) (write g) (
      added (get_proto 4) (write f) (
        added (get_proto 3) (write e) (
          added (get_proto 2) (write d)
            (added (get_proto 1) (write b) (added (get_proto 0) (write a) law.members_new)))))

  -- What is written for an element tells its number.
  abbrev pub Tells : (Element → Option J) → Type 0
  Tells write =
      (x : Element)
      → x.num < 2147483648
      → (k : Text) (js : List (Text × Option J))
      → sum_elements c ((k, write x) ∷ js) ≡ x.num + sum_elements c js

  pub merged_json-Tells : Tells (merged_json c)
  unfolding merged_json sum_elements
  merged_json-Tells x small k js = omega (arith, num_of-element_json x small)

  pub counted_json-Tells : Tells (counted_json c)
  unfolding counted_json sum_elements
  counted_json-Tells x small k js = elim (Bool-cases (x.num == 0)) [
    | inl e ↦ rw e (ground arith)
    | inr e ↦ rw e (omega (arith, num_of-element_json x small))
  ]

  sum_elements-onto :
      (write : Element → Option J) (chunk : Chunk)
      → Tells write
      → IsSix chunk
      → total_num chunk < 2147483648
      → sum_elements c (c.members (elements_onto c write 0 chunk c.new_object)) ≡ total_num chunk
  unfolding total_num total_from
  sum_elements-onto write (a ∷ b ∷ d ∷ e ∷ f ∷ g ∷ []) tells h small =
      let no_more : sum_elements c [] ≡ 0 = unfold sum_elements in refl in
      rw (members-elements_onto write a b d e f g) (
        rw
          (
            tells a (omega arith),
            tells b (omega arith),
            tells d (omega arith),
            tells e (omega arith),
            tells f (omega arith),
            tells g (omega arith),
            no_more,
          )
          (omega arith))
  sum_elements-onto write _ tells h small = absurd (omega arith)

module _ {J : Type 0} (c : JsonC J) where
  sum_entries-put :
      (k : Text) (j : J) (ms : List (Text × Option J))
      → IsNew k ms
      → sum_entries c (put k (some j) ms) ≡ sum_entries c ms + sum_elements c (c.members j)
  unfolding sum_entries put
  sum_entries-put k j [] h = omega arith
  sum_entries-put k j ((n, none) ∷ ms) h = rw h.0 (sum_entries-put k j ms h.1)
  sum_entries-put k j ((n, some o) ∷ ms) h = rw h.0 (omega (arith, sum_entries-put k j ms h.1))

module _ {J : Type 0} where
  put-IsNew :
      (k n : Text) (v : Option J) (ms : List (Text × Option J))
      → text_eq n k ≡ false
      → IsNew n ms
      → IsNew n (put k v ms)
  unfolding put
  put-IsNew k n v [] d h = (d, tt)
  put-IsNew k n v ((x, w) ∷ ms) d h = elim (Bool-cases (text_eq k x)) [
    | inl e ↦ rw e h
    | inr e ↦ rw e (h.0, put-IsNew k n v ms d h.1)
  ]

-- inet_ntop writes different addresses differently.
abbrev pub IsInjective : (Bytes → Bytes → Bool) → (Bytes → Text) → Type 0
IsInjective lt ntop = (a b : Bytes) → lt a b ≡ true → text_eq (ntop b) (ntop a) ≡ false

module _ {J : Type 0} (lt : Bytes → Bytes → Bool) (ntop : Bytes → Text)
    (injective : IsInjective lt ntop) where
  still-IsNew :
      (a : Bytes) (v : Option J) (ms : List (Text × Option J)) (m : List (Bytes × Chunk))
      → Each (λ b chunk. lt a b ≡ true) m
      → Each (λ b chunk. IsNew (ntop b) ms) m
      → Each (λ b chunk. IsNew (ntop b) (put (ntop a) v ms)) m
  still-IsNew a v ms [] h k = tt
  still-IsNew a v ms ((b, chunk) ∷ m) h k =
      (put-IsNew (ntop a) (ntop b) v ms (injective a b h.0) k.0, still-IsNew a v ms m h.1 k.1)

module _ (J : Type 0) (ntop : Bytes → Text) where
  none_there : (m : List (Bytes × Chunk)) → Each (λ b chunk. IsNew {A = Option J} (ntop b) []) m
  none_there [] = tt
  none_there (x ∷ m) = (tt, none_there m)

module _ {J : Type 0} {c : JsonC J} (lt : Bytes → Bytes → Bool) (ntop : Bytes → Text)
    (injective : IsInjective lt ntop) where
  sum_entries-onto :
      (law : IsJsonC c) (write : Element → Option J) (m : List (Bytes × Chunk)) (o : J)
      (ms : List (Text × Option J))
      → Tells law write
      → IsSixes lt m
      → Each (λ b chunk. IsNew (ntop b) ms) m
      → c.members o ≡ ms
      → sum_by total_num m < 2147483648
      → sum_entries c (c.members (table_onto c write ntop m o))
        ≡ sum_entries c ms + sum_by total_num m
  unfolding table_onto sum_by
  sum_entries-onto law write [] o ms tells h fresh e small = rw e (omega arith)
  sum_entries-onto law write ((a, chunk) ∷ m) o ms tells (six, order) fresh e small =
      let j = elements_onto c write 0 chunk c.new_object in
      let rest =
        sum_entries-onto law write m (c.object_add o (ntop a) (some j)) (put (ntop a) (some j) ms)
          tells (six.1, order.1) (still-IsNew lt ntop injective a (some j) ms m order.0 fresh.1)
          (added law (ntop a) (some j) e) (omega arith) in
      let here = sum_entries-put c (ntop a) j ms fresh.0 in
      let one = sum_elements-onto law write chunk tells six.0 (omega arith) in
      omega (arith, rest, here, one)

  pub sum_family-json :
      (law : IsJsonC c) (write : Element → Option J) (m : List (Bytes × Chunk))
      → Tells law write
      → IsSixes lt m
      → sum_by total_num m < 2147483648
      → sum_family c (table_json c write ntop m) ≡ sum_by total_num m
  unfolding sum_family table_json
  sum_family-json law write [] tells h small = unfold sum_by in refl
  sum_family-json law write (x ∷ m) tells h small =
      let nothing : sum_entries c [] ≡ 0 = unfold sum_entries in refl in
      let all =
        sum_entries-onto law write (x ∷ m) c.new_object [] tells h (none_there J ntop (x ∷ m))
          law.members_new small in
      all ∙ omega (arith, nothing)
