-- ===== src/Clients/Files/Last.antt =====
-- The last file of a directory, and a run within its minute.
use map.Clients.Date.Moment.{IsTime, moment_of, lt_date-moment_of}
use mathlib.Core.Path.{subst}
use map.Clients.Date.{Date, lt_date, s_year, s_month, s_day, s_hour, s_min}
use map.Clients.Files.Directory.{Disk, find, sum_disk-store_found}
use map.Clients.Files.Totals.{IsAdditive, total, number_of}
use map.Clients.Files.{
  Json, StatFile, Manager, Clock, name_of, same_text, join_lines, max_element, update_from,
  add_stat, write,
}
use map.Common.Int.{ℤ, pos}
use map.Common.Text.{Text, text_eq_refl}
use map.Common.{
  ℕ, ◌+◌, ◌≤◌, ◌⊎◌, inl, inr, Bool-cases, ◌≡◌, refl, sym, Bool, true, false, some, List, [], ◌∷◌,
  arith, if◌then◌else◌,
}

-- The files are for times.
abbrev pub AllTimes : List StatFile → Type 0
AllTimes [] = Unit
AllTimes (f ∷ fs) = IsTime f.filedate × AllTimes fs

abbrev pub NoneLater : ℕ → List StatFile → Type 0
NoneLater moment [] = Unit
NoneLater moment (f ∷ fs) = (moment_of f.filedate ≤ moment) × NoneLater moment fs

abbrev pub IsOneOf : StatFile → List StatFile → Type 0
IsOneOf last [] = ⊥
IsOneOf last (f ∷ fs) = (last ≡ f) ⊎ IsOneOf last fs

-- One of the files, and none for a later time.
abbrev pub IsLatest : StatFile → List StatFile → Type 0
IsLatest last fs = IsOneOf last fs × NoneLater (moment_of last.filedate) fs

max_element-nil : (f : StatFile) → max_element f [] ≡ f
unfolding max_element
max_element-nil f = refl

max_element-cons :
    (f x : StatFile) (fs : List StatFile) (b : Bool)
    → lt_date f.filedate x.filedate ≡ b
    → max_element f (x ∷ fs) ≡ max_element (if b then x else f) fs
unfolding max_element
max_element-cons f x fs b e = rw e refl

-- The file whose date get_lastupdate_date returns by std::max_element is one of the files of the
-- directory, and none of them, if their dates are times, is for a later time in minutes; files for an
-- hour, a day, a month or a year count as ones before the parts of it.
pub max_element-IsLatest :
    (f : StatFile) (fs : List StatFile) → AllTimes (f ∷ fs) → IsLatest (max_element f fs) (f ∷ fs)
max_element-IsLatest f [] h =
    subst (λ last. IsLatest last (f ∷ [])) (sym (max_element-nil f)) (inl refl, (omega arith, tt))
max_element-IsLatest f (x ∷ fs) (hf, (hx, h)) =
    let compared = lt_date-moment_of f.filedate x.filedate hf hx in
    elim (Bool-cases (lt_date f.filedate x.filedate)) [
      | inl e ↦
          let (there, (of_x, rest)) = max_element-IsLatest x fs (hx, h) in
          subst (λ last. IsLatest last (f ∷ x ∷ fs)) (sym (max_element-cons f x fs true e))
            (inr there, (ground (arith, compared, e), (of_x, rest)))
      | inr e ↦
          let (there, (of_f, rest)) = max_element-IsLatest f fs (hf, h) in
          let there' : IsOneOf (max_element f fs) (f ∷ x ∷ fs) = elim there [
            | inl s ↦ inl s
            | inr s ↦ inr (inr s)
          ] in
          subst (λ last. IsLatest last (f ∷ x ∷ fs)) (sym (max_element-cons f x fs false e))
            (there', (of_f, (ground (arith, compared, e), rest)))
    ]

module _ {J : Type 0} {json : Json J} {g : J → ℕ} (law : IsAdditive json g) where
  same : (s : Date → ℤ → Text) (d : Date) → same_text s d d ≡ true
  same s d = text_eq_refl (s d (pos 0))

  -- The run at the minute of the last file fails to update and writes over that file: its counters,
  -- which map646 no longer has, are lost.
  pub add_stat-same_minute :
      (k : Clock) (f : StatFile) (fs : List StatFile) (disk : Disk) (j : J) (text : Text)
      → find (name_of (max_element f fs).filedate) disk ≡ some text
      → let ctime = (max_element f fs).filedate in
        let m : Manager = record { stat_files = f ∷ fs; disk = disk } in
        ((update_from json k ctime ctime m).0 ≡ false)
        × (total json g (add_stat json k ctime j m).disk
              + number_of g (json.parse (join_lines text))
            ≡ total json g disk + g j)
  unfolding add_stat write update_from
  add_stat-same_minute k f fs disk j text h =
      let d = (max_element f fs).filedate in
      let replaced =
        sum_disk-store_found (λ text. number_of g (json.parse (join_lines text))) (name_of d)
          (json.print j) text disk h in
      rw (same s_year d, same s_month d, same s_day d, same s_hour d, same s_min d)
        (refl, rw (law.printed j) at replaced)
