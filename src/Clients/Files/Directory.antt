-- ===== src/Clients/Files/Directory.antt =====
-- The files of a directory, by name.
use mathlib.Core.Option.{some-injective}
use mathlib.Core.Path.{subst}
use map.Common.Text.{Text, text_eq, text_eq-eq, text_eq_refl}
use map.Common.{
  ℕ, ◌+◌, ◌≡◌, refl, ◌∙◌, Bool-cases, inl, inr, true, false, Option, none, some, List, [], ◌∷◌,
  arith, if◌then◌else◌,
}

abbrev pub Disk : Type 0
Disk = List (Text × Text)

unfoldable pub find : Text → Disk → Option Text
find name [] = none
find name ((n, text) ∷ disk) = if text_eq name n then some text else find name disk

-- `remove`.
unfoldable pub erase : Text → Disk → Disk
erase name [] = []
erase name ((n, text) ∷ disk) = if text_eq name n then disk else (n, text) ∷ erase name disk

-- A file is written from its start, and made where it is not there.
unfoldable pub store : Text → Text → Disk → Disk
store name text [] = (name, text) ∷ []
store name text ((n, t) ∷ disk) =
    if text_eq name n then (n, text) ∷ disk else (n, t) ∷ store name text disk

-- The sum of a number over the files.
unfoldable pub sum_disk : (Text → ℕ) → Disk → ℕ
sum_disk g [] = 0
sum_disk g ((n, text) ∷ disk) = g text + sum_disk g disk

pub sum_disk-erase :
    (g : Text → ℕ) (name text : Text) (disk : Disk)
    → find name disk ≡ some text
    → sum_disk g (erase name disk) + g text ≡ sum_disk g disk
unfolding sum_disk erase find
sum_disk-erase g name text [] h = cc
sum_disk-erase g name text ((n, t) ∷ disk) h = ground (arith, sum_disk-erase g name text disk)

pub sum_disk-store :
    (g : Text → ℕ) (name text : Text) (disk : Disk)
    → find name disk ≡ none
    → sum_disk g (store name text disk) ≡ sum_disk g disk + g text
unfolding sum_disk store find
sum_disk-store g name text [] h = ground arith
sum_disk-store g name text ((n, t) ∷ disk) h = ground (arith, sum_disk-store g name text disk)

-- No removal makes a file appear.
pub find-erase-none :
    (name other : Text) (disk : Disk) → find name disk ≡ none → find name (erase other disk) ≡ none
unfolding erase find
find-erase-none name other [] h = refl
find-erase-none name other ((n, t) ∷ disk) h = ground (arith, find-erase-none name other disk)

-- No name stands twice.
abbrev pub IsUnique : Disk → Type 0
IsUnique [] = Unit
IsUnique ((n, text) ∷ disk) = (find n disk ≡ none) × IsUnique disk

find-text_eq : (a b : Text) (disk : Disk) → text_eq a b ≡ true → find a disk ≡ find b disk
find-text_eq a b disk h = rw (text_eq-eq a b h) refl

pub find-erase_self :
    (name : Text) (disk : Disk) → IsUnique disk → find name (erase name disk) ≡ none
unfolding erase find
find-erase_self name [] h = refl
find-erase_self name ((n, t) ∷ disk) h = elim (Bool-cases (text_eq name n)) [
  | inl e ↦ rw e (find-text_eq name n disk e ∙ h.0)
  | inr e ↦ rw e (rw e (find-erase_self name disk h.1))
]

pub erase-IsUnique : (name : Text) (disk : Disk) → IsUnique disk → IsUnique (erase name disk)
unfolding erase
erase-IsUnique name [] h = tt
erase-IsUnique name ((n, t) ∷ disk) h = elim (Bool-cases (text_eq name n)) [
  | inl e ↦ rw e h.1
  | inr e ↦ rw e (find-erase-none n name disk h.0, erase-IsUnique name disk h.1)
]

pub find-store-none :
    (name other text : Text) (disk : Disk)
    → text_eq name other ≡ false
    → find name disk ≡ none
    → find name (store other text disk) ≡ none
unfolding store find
find-store-none name other text [] h k = ground arith
find-store-none name other text ((n, t) ∷ disk) h k =
    ground (arith, find-store-none name other text disk h)

pub text_eq_sym : (a b : Text) → text_eq b a ≡ false → text_eq a b ≡ false
text_eq_sym a b h = elim (Bool-cases (text_eq a b)) [
  | inl e ↦
      let same : text_eq b a ≡ true = rw (text_eq-eq a b e) (text_eq_refl b) in
      absurd (cc (h, same))
  | inr e ↦ e
]

pub store-IsUnique :
    (name text : Text) (disk : Disk) → IsUnique disk → IsUnique (store name text disk)
unfolding store
store-IsUnique name text [] h = (unfold find in refl, tt)
store-IsUnique name text ((n, t) ∷ disk) h = elim (Bool-cases (text_eq name n)) [
  | inl e ↦ rw e h
  | inr e ↦ rw e (
    find-store-none n name text disk (text_eq_sym n name e) h.0,
    store-IsUnique name text disk h.1,
  )
]

-- A file that is there is replaced.
pub sum_disk-store_found :
    (g : Text → ℕ) (name text old : Text) (disk : Disk)
    → find name disk ≡ some old
    → sum_disk g (store name text disk) + g old ≡ sum_disk g disk + g text
unfolding sum_disk store find
sum_disk-store_found g name text old [] h = cc
sum_disk-store_found g name text old ((n, t) ∷ disk) h =
    ground (arith, sum_disk-store_found g name text old disk)

-- What holds of the text of every file.
abbrev pub AllTexts : (Text → Type 0) → Disk → Type 0
AllTexts P [] = Unit
AllTexts P ((n, text) ∷ disk) = P text × AllTexts P disk

pub find-AllTexts :
    (P : Text → Type 0) (name text : Text) (disk : Disk)
    → AllTexts P disk
    → find name disk ≡ some text
    → P text
unfolding find
find-AllTexts P name text [] h k = absurd (cc k)
find-AllTexts P name text ((n, t) ∷ disk) h k = elim (Bool-cases (text_eq name n)) [
  | inl e ↦ let same : t ≡ text = some-injective t text (rw e at k) in subst P same h.0
  | inr e ↦ find-AllTexts P name text disk h.1 (rw e at k)
]

pub erase-AllTexts :
    (P : Text → Type 0) (name : Text) (disk : Disk) → AllTexts P disk → AllTexts P (erase name disk)
unfolding erase
erase-AllTexts P name [] h = tt
erase-AllTexts P name ((n, t) ∷ disk) h = elim (Bool-cases (text_eq name n)) [
  | inl e ↦ rw e h.1
  | inr e ↦ rw e (h.0, erase-AllTexts P name disk h.1)
]

pub store-AllTexts :
    (P : Text → Type 0) (name text : Text) (disk : Disk)
    → P text
    → AllTexts P disk
    → AllTexts P (store name text disk)
unfolding store
store-AllTexts P name text [] p h = (p, tt)
store-AllTexts P name text ((n, t) ∷ disk) p h = elim (Bool-cases (text_eq name n)) [
  | inl e ↦ rw e (p, h.1)
  | inr e ↦ rw e (h.0, store-AllTexts P name text disk p h.1)
]
