-- ===== src/Clients/Files/Runs.antt =====
-- A run of the cron client: it flushes the counters of map646, merges the files of the time before,
-- and adds one for the counters.
use map.Clients.Date.RoundTrip.{minute-stime, hour-stime, day-stime, month-stime, year_mask-stime}
use map.Clients.Date.{Date, date_of, get_stime, s_year, s_month, s_day, s_hour}
use map.Clients.Files.Directory.{Disk, find, IsUnique}
use map.Clients.Files.Totals.{IsAdditive, total, merges-IsMerged, total-store}
use map.Clients.Files.{
  Json, StatFile, Manager, Clock, name_of, same_text, max_element, merges, update_from, add_stat,
  write, no_min, no_hour, no_mday, no_mon,
}
use map.Common.Int.{pos}
use map.Common.Text.{Text, codes, text_eq, text_eq-length}
use map.Common.{
  ℕ, ◌+◌, ◌≤◌, ◌≡◌, ◌≢◌, refl, ap, ◌∙◌, Bool, false, none, List, [], ◌∷◌, arith, length,
  length-append, Bool-cases, inl, inr,
}

-- The length of a file's name.
name-length : (t : Date) (s : Text) → get_stime t ≡ s → length (name_of t) ≡ length s + 12
name-length t s h = omega (arith, ap length h, length-append {0} (get_stime t) (codes ".stat"))

names_differ : (a b : Text) (i j : ℕ) → length a ≡ i → length b ≡ j → i ≢ j → text_eq a b ≡ false
names_differ a b i j p q h = text_eq-length a b λ e. h (omega (arith, e))

-- The time of a minute.
pub record IsMinute (y mo d h mi : ℕ) : Type 0 where
  pub year_bound : (1900 ≤ y) × (y ≤ 3000)
  pub month_bound : (1 ≤ mo) × (mo ≤ 12)
  pub day_bound : (1 ≤ d) × (d ≤ 31)
  pub hour_bound : h ≤ 24
  pub min_bound : mi ≤ 60

abbrev pub minute_of : ℕ → ℕ → ℕ → ℕ → ℕ → Date
minute_of y mo d h mi = date_of (pos y) (pos mo) (pos d) (pos h) (pos mi)

abbrev pub masks : List (Date → Date)
masks = no_min ∷ no_hour ∷ no_mday ∷ no_mon ∷ []

-- The files for the longer times around a minute.
module _ (y mo d h mi : ℕ) where
  abbrev pub the_hour : Date
  the_hour = no_min (minute_of y mo d h mi)

  abbrev pub the_day : Date
  the_day = no_hour the_hour

  abbrev pub the_month : Date
  the_month = no_mday the_day

  abbrev pub the_year : Date
  the_year = no_mon the_month

  module _ (at : IsMinute y mo d h mi) where
    size_minute : length (name_of (minute_of y mo d h mi)) ≡ 24
    size_minute = name-length (minute_of y mo d h mi) _ (
        minute-stime y mo d h mi at.year_bound at.month_bound at.day_bound at.hour_bound
          at.min_bound)

    size_hour : length (name_of the_hour) ≡ 22
    size_hour =
        name-length the_hour _
          (hour-stime y mo d h at.year_bound at.month_bound at.day_bound at.hour_bound)

    size_day : length (name_of the_day) ≡ 20
    size_day = name-length the_day _ (day-stime y mo d at.year_bound at.month_bound at.day_bound)

    size_month : length (name_of the_month) ≡ 18
    size_month = name-length the_month _ (month-stime y mo at.year_bound at.month_bound)

    size_year : length (name_of the_year) ≡ 16
    size_year = name-length the_year _ (year_mask-stime y at.year_bound)

-- None of these files is there.
pub record IsOpen (y mo d h mi : ℕ) (disk : Disk) : Type 0 where
  pub no_hour_file : find (name_of (the_hour y mo d h mi)) disk ≡ none
  pub no_day_file : find (name_of (the_day y mo d h mi)) disk ≡ none
  pub no_month_file : find (name_of (the_month y mo d h mi)) disk ≡ none
  pub no_year_file : find (name_of (the_year y mo d h mi)) disk ≡ none

module _ {J : Type 0} {json : Json J} {g : J → ℕ} (law : IsAdditive json g) where
  -- The sum stays, and a name that is free stays free.
  abbrev Keeps : Text → Disk → Bool × Manager → Type 0
  Keeps name disk r = (total json g r.1.disk ≡ total json g disk) × (find name r.1.disk ≡ none)

  module _ (y mo d h mi : ℕ) (at : IsMinute y mo d h mi) where
    merges-Keeps :
        (k : Clock) (name : Text) (m : Manager)
        → length name ≡ 24
        → find name m.disk ≡ none
        → IsUnique m.disk
        → IsOpen y mo d h mi m.disk
        → let last = minute_of y mo d h mi in
          Keeps name m.disk (merges json k (no_min ∷ []) last m)
          × Keeps name m.disk (merges json k (no_min ∷ no_hour ∷ []) last m)
          × Keeps name m.disk (merges json k (no_min ∷ no_hour ∷ no_mday ∷ []) last m)
          × Keeps name m.disk (merges json k (no_min ∷ no_hour ∷ no_mday ∷ no_mon ∷ []) last m)
    merges-Keeps k name m size free u o =
        let last = minute_of y mo d h mi in
        let n1 : Text = name_of (the_hour y mo d h mi) in
        let n2 : Text = name_of (the_day y mo d h mi) in
        let n3 : Text = name_of (the_month y mo d h mi) in
        let n4 : Text = name_of (the_year y mo d h mi) in
        let s1 = size_hour y mo d h mi at in
        let s2 = size_day y mo d h mi at in
        let s3 = size_month y mo d h mi at in
        let s4 = size_year y mo d h mi at in
        let d21 = names_differ n2 n1 20 22 s2 s1 (omega arith) in
        let d31 = names_differ n3 n1 18 22 s3 s1 (omega arith) in
        let d41 = names_differ n4 n1 16 22 s4 s1 (omega arith) in
        let d32 = names_differ n3 n2 18 20 s3 s2 (omega arith) in
        let d42 = names_differ n4 n2 16 20 s4 s2 (omega arith) in
        let d43 = names_differ n4 n3 16 18 s4 s3 (omega arith) in
        let e1 = names_differ n1 name 22 24 s1 size (omega arith) in
        let e2 = names_differ n2 name 20 24 s2 size (omega arith) in
        let e3 = names_differ n3 name 18 24 s3 size (omega arith) in
        let e4 = names_differ n4 name 16 24 s4 size (omega arith) in
        let f1 = o.no_hour_file in
        let f2 = o.no_day_file in
        let f3 = o.no_month_file in
        let f4 = o.no_year_file in
        let r1 = merges-IsMerged law k (no_min ∷ []) last m u (f1, tt, tt) in
        let r2 =
          merges-IsMerged law k (no_min ∷ no_hour ∷ []) last m u (f1, (d21, tt), (f2, tt, tt)) in
        let r3 =
          merges-IsMerged law k (no_min ∷ no_hour ∷ no_mday ∷ []) last m u
            (f1, (d21, (d31, tt)), (f2, (d32, tt), (f3, tt, tt))) in
        let r4 =
          merges-IsMerged law k (no_min ∷ no_hour ∷ no_mday ∷ no_mon ∷ []) last m u
            (f1, (d21, (d31, (d41, tt))), (f2, (d32, (d42, tt)), (f3, (d43, tt), (f4, tt, tt)))) in
        (
          (r1.kept, r1.absent name (e1, tt) free),
          (r2.kept, r2.absent name (e1, (e2, tt)) free),
          (r3.kept, r3.absent name (e1, (e2, (e3, tt))) free),
          (r4.kept, r4.absent name (e1, (e2, (e3, (e4, tt)))) free),
        )

    update_from-Keeps :
        (k : Clock) (ctime : Date) (name : Text) (m : Manager)
        → length name ≡ 24
        → find name m.disk ≡ none
        → IsUnique m.disk
        → IsOpen y mo d h mi m.disk
        → Keeps name m.disk (update_from json k ctime (minute_of y mo d h mi) m)
    unfolding update_from
    update_from-Keeps k ctime name m size free u o =
        let last = minute_of y mo d h mi in
        let (r1, r2, r3, r4) = merges-Keeps k name m size free u o in
        elim (Bool-cases (same_text s_year ctime last)) [
          | inr e ↦ rw e r4
          | inl e ↦ rw e (elim (Bool-cases (same_text s_month ctime last)) [
            | inr e ↦ rw e r3
            | inl e ↦ rw e (elim (Bool-cases (same_text s_day ctime last)) [
              | inr e ↦ rw e r2
              | inl e ↦ rw e (elim (Bool-cases (same_text s_hour ctime last)) [
                | inr e ↦ rw e r1
                | inl e ↦ rw e (refl, free)
              ])
            ])
          ])
        ]

  -- A run of the cron client loses no count and counts none twice: if the last file is for a minute,
  -- the files for its hour, day, month and year are not there, nor one for the minute of the run, and
  -- merging values adds up their numbers, then the files hold what they held and the new counters
  -- after it, whichever files it merges and whether each merge succeeds or not.
  pub add_stat-total :
      (k : Clock) (f : StatFile) (fs : List StatFile) (disk : Disk) (j : J) (y mo d h mi : ℕ)
      (y' mo' d' h' mi' : ℕ)
      → IsMinute y mo d h mi
      → IsMinute y' mo' d' h' mi'
      → (max_element f fs).filedate ≡ minute_of y mo d h mi
      → IsUnique disk
      → IsOpen y mo d h mi disk
      → find (name_of (minute_of y' mo' d' h' mi')) disk ≡ none
      → total json g
          (add_stat json k
            (minute_of y' mo' d' h' mi')
            j
            (record { stat_files = f ∷ fs; disk = disk })).disk
        ≡ total json g disk + g j
  unfolding add_stat write
  add_stat-total k f fs disk j y mo d h mi y' mo' d' h' mi' at at' newest u o free =
      let ctime = minute_of y' mo' d' h' mi' in
      let m : Manager = record { stat_files = f ∷ fs; disk = disk } in
      let (kept, still) =
        update_from-Keeps y mo d h mi at k ctime (name_of ctime) m
          (size_minute y' mo' d' h' mi' at') free u o in
      rw newest (total-store law (name_of ctime) _ j still ∙ ap (λ n. n + g j) kept)
