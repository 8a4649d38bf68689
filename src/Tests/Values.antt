-- ===== src/Tests/Values.antt =====
-- json-c as a data type, and the values of counters that are merged.
use map.Clients.Merge.Readable.{IsNtop, get_json-sum, json_merge-sum}
use map.Clients.Merge.Reading.{IsReadable}
use map.Clients.Merge.Sums.{sum_document, sum_documents}
use map.Clients.Merge.{JsonC, IsJsonC, put, get_member, get_json, json_merge, Addrs}
use map.Common.Text.{Text, codes, text_eq}
use map.Common.{ℕ, ◌<◌, ◌≡◌, refl, ap, Option, none, some, List, [], ◌∷◌, arith}
use map.Main.Events.{Serves-IsAccounted}
use map.Memory.{little}
use map.Stat.Totals.{packets}
use map.Stat.{load32, lt_in_addr, lt_in6_addr, lt_words}
use map.Tests.Statistics.{counted, after_packet}

-- A value that is not NULL, and the members of an object.
mutual
  data Value : Type 0 where
    int : ℕ → Value
    object : Members → Value

  data Members : Type 0 where
    end : Members
    no_value : Text → Members → Members
    member : Text → Value → Members → Members

unfoldable read_members : Members → List (Text × Option Value)
read_members end = []
read_members (no_value k m) = (k, none) ∷ read_members m
read_members (member k v m) = (k, some v) ∷ read_members m

unfoldable members_of : List (Text × Option Value) → Members
members_of [] = end
members_of ((k, none) ∷ m) = no_value k (members_of m)
members_of ((k, some v) ∷ m) = member k v (members_of m)

read_members-members_of : (m : List (Text × Option Value)) → read_members (members_of m) ≡ m
unfolding read_members members_of
read_members-members_of [] = refl
read_members-members_of ((k, none) ∷ m) = ap (λ r. (k, none) ∷ r) (read_members-members_of m)
read_members-members_of ((k, some v) ∷ m) = ap (λ r. (k, some v) ∷ r) (read_members-members_of m)

unfoldable members_in : Value → List (Text × Option Value)
members_in (int n) = []
members_in (object m) = read_members m

unfoldable int_in : Option Value → ℕ
int_in (some (int n)) = n
int_in _ = 0

abbrev values : JsonC Value
values = record {
  new_object = object end;
  new_int = int;
  object_add = λ o k v. object (members_of (put k v (members_in o)));
  members = members_in;
  get_int = int_in;
  object_get = λ o k. get_member k (members_in o);
}

values-IsJsonC : IsJsonC values
unfolding members_in read_members int_in
values-IsJsonC = record {
  members_new = refl;
  members_add = λ o k v. read_members-members_of (put k v (members_in o));
  get_int_new = λ n small. refl;
  get_object = λ o k. refl;
}

-- Texts that show the words of an address.
abbrev texts : Addrs
texts = record {
  pton4 = λ s. 192 ∷ 0 ∷ 2 ∷ 1 ∷ [];
  pton6 = λ s. [];
  ntop4 = λ a. load32 little a 0 ∷ [];
  ntop6 = λ a. load32 little a 0 ∷ load32 little a 4 ∷ load32 little a 8 ∷ load32 little a 12 ∷ [];
}

texts-IsNtop : IsNtop little texts
unfolding lt_in_addr lt_in6_addr lt_words text_eq
texts-IsNtop = record { injective4 = λ a b h. ground arith; injective6 = λ a b h. ground arith }

-- The value of the counters after the packet of `Statistics`.
abbrev saved : Value
saved = get_json values texts.ntop4 texts.ntop6 (counted.stat.stat46, counted.stat.stat66)

few : packets counted.stat < 2147483648
few = omega (arith, (Serves-IsAccounted after_packet).2)

get_json-sum_example : IsReadable values saved × (sum_document values saved ≡ packets counted.stat)
get_json-sum_example =
    get_json-sum values-IsJsonC little texts counted.stat texts-IsNtop
      (Serves-IsAccounted after_packet).1 few

saved-sum : IsReadable values saved × (sum_document values saved ≡ packets counted.stat)
saved-sum =
    get_json-sum values-IsJsonC little texts counted.stat texts-IsNtop
      (Serves-IsAccounted after_packet).1 few

-- The files of two minutes.
abbrev two_files : List (Text × Value)
two_files = (codes "first", saved) ∷ (codes "second", saved) ∷ []

two_files-few : sum_documents values two_files < 2147483648
unfolding sum_documents
two_files-few = omega (arith, saved-sum.1, (Serves-IsAccounted after_packet).2)

json_merge-sum_example :
    (j : Value) × (json_merge values little texts two_files ≡ some j)
    × IsReadable values j
    × (sum_document values j ≡ sum_documents values two_files)
json_merge-sum_example =
    json_merge-sum values-IsJsonC little texts two_files texts-IsNtop
      (saved-sum.0, (saved-sum.0, tt)) two_files-few
