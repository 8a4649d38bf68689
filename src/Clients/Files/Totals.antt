-- ===== src/Clients/Files/Totals.antt =====
-- What is counted in the files of a directory, over merges and runs.
use map.Clients.Date.{Date, is_child}
use map.Clients.Files.Directory.{
  Disk, find, erase, store, sum_disk, sum_disk-erase, sum_disk-store, find-erase-none, IsUnique,
  find-erase_self, erase-IsUnique, find-store-none, store-IsUnique, text_eq_sym,
}
use map.Clients.Files.{
  Json, StatFile, Manager, Clock, join_lines, get_jobj, gather, name_of, write, write_merged, merge,
  merges,
}
use map.Common.Text.{Text, text_eq, text_eq-eq}
use map.Common.{
  ℕ, ◌+◌, ◌≡◌, refl, ◌∙◌, false, Option, none, some, List, [], ◌∷◌, arith, Bool-cases, Option-cases,
  inl, inr,
}

-- The number of a text that holds a value, 0 of another.
abbrev pub number_of : {J : Type 0} → (J → ℕ) → Option J → ℕ
number_of g none = 0
number_of g (some j) = g j

unfoldable pub sum_values : {J : Type 0} → (J → ℕ) → List (Text × J) → ℕ
sum_values g [] = 0
sum_values g ((n, j) ∷ js) = g j + sum_values g js

-- A name that is not among those of the values.
abbrev pub IsAbsent : {J : Type 0} → Text → List (Text × J) → Type 0
IsAbsent name [] = Unit
IsAbsent name ((n, j) ∷ js) = (text_eq name n ≡ false) × IsAbsent name js

abbrev pub IsDistinct : {J : Type 0} → List (Text × J) → Type 0
IsDistinct [] = Unit
IsDistinct ((n, j) ∷ js) = IsAbsent n js × IsDistinct js

-- What the runs rely on: a value is read back from its text, an empty text is no value, and the
-- number of a merged value, such as that of all packets, is the sum over the values under their
-- different names.
pub record IsAdditive {J : Type 0} (json : Json J) (g : J → ℕ) : Type 0 where
  pub printed : (j : J) → json.parse (join_lines (json.print j)) ≡ some j
  pub nothing : json.parse [] ≡ none
  pub merged : (js : List (Text × J)) → IsDistinct js → g (json.json_merge js) ≡ sum_values g js

module _ {J : Type 0} (json : Json J) (g : J → ℕ) where
  -- The sum over the directory.
  abbrev pub total : Disk → ℕ
  total disk = sum_disk (λ text. number_of g (json.parse (join_lines text))) disk

differs :
    (a b : Text) (disk : Disk) (text : Text)
    → find a disk ≡ none
    → find b disk ≡ some text
    → text_eq a b ≡ false
differs a b disk text h k = elim (Bool-cases (text_eq a b)) [
  | inl e ↦ let same = rw (text_eq-eq a b e) at h in absurd (cc (same, k))
  | inr e ↦ e
]

module _ {J : Type 0} {json : Json J} {g : J → ℕ} (law : IsAdditive json g) where
  get_jobj-find :
      (name : Text) (disk : Disk) (j : J)
      → get_jobj json name disk ≡ some j
      → (text : Text) × (find name disk ≡ some text) × (json.parse (join_lines text) ≡ some j)
  unfolding get_jobj
  get_jobj-find name disk j h = elim (Option-cases (find name disk)) [
    | inl e ↦ absurd (cc (law.nothing, rw (e, get_jobj) at h))
    | inr (text, e) ↦ (text, e, rw (e, get_jobj) at h)
  ]

  -- A removal takes the file's number from the sum.
  total-erase :
      (name : Text) (disk : Disk) (j : J)
      → get_jobj json name disk ≡ some j
      → total json g (erase name disk) + g j ≡ total json g disk
  total-erase name disk j h =
      let (text, found, parsed) = get_jobj-find name disk j h in
      let sums =
        sum_disk-erase (λ text. number_of g (json.parse (join_lines text))) name text disk found in
      rw parsed at sums

  pub total-store :
      (name : Text) (disk : Disk) (j : J)
      → find name disk ≡ none
      → total json g (store name (json.print j) disk) ≡ total json g disk + g j
  total-store name disk j h =
      let sums =
        sum_disk-store (λ text. number_of g (json.parse (join_lines text))) name (json.print j) disk
          h in
      rw (law.printed j) at sums

  -- What the loop of `merge` leaves and gathers.
  pub record IsGathered (disk : Disk) (got : Disk × List (Text × J)) : Type 0 where
    pub sums : total json g got.0 + sum_values g got.1 ≡ total json g disk
    pub unique : IsUnique got.0
    pub distinct : IsDistinct got.1
    pub absent :
        (name : Text) → find name disk ≡ none → (find name got.0 ≡ none) × IsAbsent name got.1

  IsGathered-cons :
      (name : Text) (disk : Disk) (j : J) (got : Disk × List (Text × J))
      → IsUnique disk
      → get_jobj json name disk ≡ some j
      → IsGathered (erase name disk) got
      → IsGathered disk (got.0, (name, j) ∷ got.1)
  unfolding sum_values
  IsGathered-cons name disk j got u h rest = record {
    sums = omega (arith, rest.sums, total-erase name disk j h);
    unique = rest.unique;
    distinct = ((rest.absent name (find-erase_self name disk u)).1, rest.distinct);
    absent = λ other gone.
        let (on_disk, in_rest) = rest.absent other (find-erase-none other name disk gone) in
        let (text, found, _) = get_jobj-find name disk j h in
        (on_disk, (differs other name disk text gone found, in_rest));
  }

  gather-IsGathered :
      (time : Date) (fs : List StatFile) (disk : Disk)
      → IsUnique disk
      → IsGathered disk (gather json time fs disk)
  unfolding gather sum_values
  gather-IsGathered time [] disk u = record {
    sums = omega arith;
    unique = u;
    distinct = tt;
    absent = λ name h. (h, tt);
  }
  gather-IsGathered time (f ∷ fs) disk u = elim (Bool-cases (is_child time f.filedate)) [
    | inr e ↦ rw (e, gather) (gather-IsGathered time fs disk u)
    | inl e ↦
        rw (e, gather)
          (elim (Option-cases (get_jobj json f.filename disk)) [
            | inl p ↦ rw p (gather-IsGathered time fs disk u)
            | inr (j, p) ↦ rw p (
                IsGathered-cons f.filename disk j _ u p (
                  gather-IsGathered time fs (erase f.filename disk)
                    (erase-IsUnique f.filename disk u)))
          ])
  ]

-- The names are free: no file has one of them, and no two are the same.
abbrev pub Differ : Text → List Text → Type 0
Differ name [] = Unit
Differ name (n ∷ ns) = (text_eq n name ≡ false) × Differ name ns

abbrev pub AreFree : List Text → Disk → Type 0
AreFree [] disk = Unit
AreFree (n ∷ ns) disk = (find n disk ≡ none) × Differ n ns × AreFree ns disk

-- The names that a sequence of merges writes.
abbrev pub names_of : List (Date → Date) → Date → List Text
names_of [] last = []
names_of (mask ∷ masks) last = name_of (mask last) ∷ names_of masks (mask last)

module _ {J : Type 0} {json : Json J} {g : J → ℕ} (law : IsAdditive json g) where
  -- What merges leave that write files of the given names.
  pub record IsMerged (names : List Text) (disk disk' : Disk) : Type 0 where
    pub kept : total json g disk' ≡ total json g disk
    pub unique : IsUnique disk'
    pub absent : (name : Text) → Differ name names → find name disk ≡ none → find name disk' ≡ none

  AreFree-IsMerged :
      (name : Text) (names : List Text) (disk disk' : Disk)
      → IsMerged (name ∷ []) disk disk'
      → Differ name names
      → AreFree names disk
      → AreFree names disk'
  AreFree-IsMerged name [] disk disk' h d free = tt
  AreFree-IsMerged name (n ∷ ns) disk disk' h d free = (
    h.absent n (text_eq_sym name n d.0, tt) free.0,
    free.1,
    AreFree-IsMerged name ns disk disk' h d.1 free.2,
  )

  write_merged-IsMerged :
      (k : Clock) (time : Date) (fs : List StatFile) (disk : Disk) (got : Disk × List (Text × J))
      → find (name_of time) disk ≡ none
      → IsGathered law disk got
      → IsMerged (name_of time ∷ []) disk (write_merged json k time fs got).1.disk
  unfolding write_merged write sum_values
  write_merged-IsMerged k time fs disk (disk', []) free h = record {
    kept = omega (arith, h.sums);
    unique = h.unique;
    absent = λ name differ gone. (h.absent name gone).0;
  }
  write_merged-IsMerged k time fs disk (disk', x ∷ xs) free h =
      let j = json.json_merge (x ∷ xs) in
      let gone = (h.absent (name_of time) free).0 in
      record {
        kept = omega (
          arith,
          h.sums,
          total-store law (name_of time) disk' j gone,
          law.merged (x ∷ xs) h.distinct,
        );
        unique = store-IsUnique (name_of time) (json.print j) disk' h.unique;
        absent = λ name differ missing.
            find-store-none name (name_of time) (json.print j) disk'
              (text_eq_sym name (name_of time) differ.0) (h.absent name missing).0;
      }

  merge-IsMerged :
      (k : Clock) (time : Date) (m : Manager)
      → IsUnique m.disk
      → find (name_of time) m.disk ≡ none
      → IsMerged (name_of time ∷ []) m.disk (merge json k time m).1.disk
  unfolding merge
  merge-IsMerged k time m u free =
      write_merged-IsMerged k time m.stat_files m.disk _ free
        (gather-IsGathered law time m.stat_files m.disk u)

  -- The merges of a call of `update`, also when one of them fails.
  pub merges-IsMerged :
      (k : Clock) (masks : List (Date → Date)) (last : Date) (m : Manager)
      → IsUnique m.disk
      → AreFree (names_of masks last) m.disk
      → IsMerged (names_of masks last) m.disk (merges json k masks last m).1.disk
  unfolding merges
  merges-IsMerged k [] last m u free = record {
    kept = refl;
    unique = u;
    absent = λ name differ gone. gone;
  }
  merges-IsMerged k (mask ∷ masks) last m u (free, differ, later) =
      let step = merge json k (mask last) m in
      let one = merge-IsMerged k (mask last) m u free in
      let still =
        AreFree-IsMerged (name_of (mask last)) (names_of masks (mask last)) m.disk step.1.disk one
          differ later in
      let more = merges-IsMerged k masks (mask last) step.1 one.unique still in
      elim (Bool-cases step.0) [
        | inl e ↦ rw e (record {
          kept = more.kept ∙ one.kept;
          unique = more.unique;
          absent = λ name d gone. more.absent name d.1 (one.absent name (d.0, tt) gone);
        })
        | inr e ↦ rw e (record {
          kept = one.kept;
          unique = one.unique;
          absent = λ name d gone. one.absent name (d.0, tt) gone;
        })
      ]
