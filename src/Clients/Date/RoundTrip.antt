-- ===== src/Clients/Date/RoundTrip.antt =====
-- The name of a date is read back.
use map.Common.Int.{ℤ, pos, negsuc, ◌+ℤ◌, ◌-ℤ◌}
use map.Common.{ℕ, ◌≤◌, ◌≡◌, refl, true, false, some, [], ◌++◌, arith}
use map.Clients.Date.Digits.{two, four, pad-show_int, show_int-four, read_int-two, read_int-four}
use map.Clients.Date.{
  Date, date_of, year, month, get_range, stime_of, get_stime, s_year, s_month, s_day, s_hour, s_min,
  extract, set_min, set_hour, set_day, set_month, set_time, is_outside,
}

-- -1, the number of what is left out.
abbrev pub out : ℤ
out = negsuc 0

-- The dates of files: for a minute, an hour, a day, a month and a year.
pub data IsDate : Date → Type 0 where
  minute :
      (y mo d h mi : ℕ)
      → (1900 ≤ y) × (y ≤ 3000)
      → (1 ≤ mo) × (mo ≤ 12)
      → (1 ≤ d) × (d ≤ 31)
      → h ≤ 24
      → mi ≤ 60
      → IsDate (date_of (pos y) (pos mo) (pos d) (pos h) (pos mi))
  hour :
      (y mo d h : ℕ)
      → (1900 ≤ y) × (y ≤ 3000)
      → (1 ≤ mo) × (mo ≤ 12)
      → (1 ≤ d) × (d ≤ 31)
      → h ≤ 24
      → IsDate (date_of (pos y) (pos mo) (pos d) (pos h) out)
  day :
      (y mo d : ℕ)
      → (1900 ≤ y) × (y ≤ 3000)
      → (1 ≤ mo) × (mo ≤ 12)
      → (1 ≤ d) × (d ≤ 31)
      → IsDate (date_of (pos y) (pos mo) (pos d) out out)
  month_ :
      (y mo : ℕ)
      → (1900 ≤ y) × (y ≤ 3000)
      → (1 ≤ mo) × (mo ≤ 12)
      → IsDate (date_of (pos y) (pos mo) out out out)
  year_ : (y : ℕ) → (1900 ≤ y) × (y ≤ 3000) → IsDate (date_of (pos y) out out out out)

year_lem : (y : ℕ) (mo d h mi : ℤ) → year (date_of (pos y) mo d h mi) ≡ pos y
unfolding year ◌+ℤ◌ ◌-ℤ◌
year_lem y mo d h mi = ground arith

month_lem : (y : ℤ) (mo : ℕ) (d h mi : ℤ) → month (date_of y (pos mo) d h mi) ≡ pos mo
unfolding month ◌+ℤ◌ ◌-ℤ◌
month_lem y mo d h mi = ground arith

month_unset : (y d h mi : ℤ) → month (date_of y out d h mi) ≡ out
unfolding month ◌+ℤ◌ ◌-ℤ◌
month_unset y d h mi = refl

plus_zero : (n : ℕ) → pos n +ℤ pos 0 ≡ pos n
unfolding ◌+ℤ◌
plus_zero n = ground arith

-- The parts of the text.
module _ (d : Date) where
  s_year_lem : (y : ℕ) → (1900 ≤ y) × (y ≤ 3000) → year d ≡ pos y → s_year d (pos 0) ≡ four y
  unfolding s_year
  s_year_lem y b h = rw (h, plus_zero y) (show_int-four y (omega arith) (omega arith))

  s_month_lem : (mo : ℕ) → mo ≤ 12 → month d ≡ pos mo → s_month d (pos 0) ≡ two mo
  unfolding s_month
  s_month_lem mo b h = rw (h, plus_zero mo) (pad-show_int mo (omega arith))

  s_day_lem : (n : ℕ) → n ≤ 31 → d.tm_mday ≡ pos n → s_day d (pos 0) ≡ two n
  unfolding s_day
  s_day_lem n b h = rw (h, plus_zero n) (pad-show_int n (omega arith))

  s_hour_lem : (n : ℕ) → n ≤ 24 → d.tm_hour ≡ pos n → s_hour d (pos 0) ≡ two n
  unfolding s_hour
  s_hour_lem n b h = rw (h, plus_zero n) (pad-show_int n (omega arith))

  s_min_lem : (n : ℕ) → n ≤ 60 → d.tm_min ≡ pos n → s_min d (pos 0) ≡ two n
  unfolding s_min
  s_min_lem n b h = rw (h, plus_zero n) (pad-show_int n (omega arith))

extract-two : (f : ℤ → ℤ) (n : ℕ) (v : ℤ) → n ≤ 99 → extract f true (two n) v ≡ (true, pos n)
unfolding extract
extract-two f n v h = rw (read_int-two n (omega arith), extract) refl

extract-four : (f : ℤ → ℤ) (n : ℕ) (v : ℤ) → n ≤ 3000 → extract f true (four n) v ≡ (true, pos n)
unfolding extract
extract-four f n v h = rw (read_int-four n (omega arith), extract) refl

inside : (lo hi n : ℕ) → lo ≤ n → n ≤ hi → is_outside (pos lo) (pos hi) (pos n) ≡ false
inside lo hi n h k = ground arith

pub minute-stime :
    (y mo d h mi : ℕ)
    → (1900 ≤ y) × (y ≤ 3000)
    → (1 ≤ mo) × (mo ≤ 12)
    → (1 ≤ d) × (d ≤ 31)
    → h ≤ 24
    → mi ≤ 60
    → get_stime (date_of (pos y) (pos mo) (pos d) (pos h) (pos mi))
      ≡ four y ++ (two mo ++ (two d ++ (two h ++ (two mi ++ []))))
unfolding get_stime stime_of
minute-stime y mo d h mi b c k l m =
    let t = date_of (pos y) (pos mo) (pos d) (pos h) (pos mi) in
    let range : get_range t ≡ some 12 =
      unfold get_range in
      ground (
        arith,
        year_lem y (pos mo) (pos d) (pos h) (pos mi),
        month_lem (pos y) mo (pos d) (pos h) (pos mi),
      ) in
    rw (range, get_stime)
      (rw
        (
          s_year_lem t y b (year_lem y (pos mo) (pos d) (pos h) (pos mi)),
          s_month_lem t mo c.1 (month_lem (pos y) mo (pos d) (pos h) (pos mi)),
          s_day_lem t d k.1 refl,
          s_hour_lem t h l refl,
          s_min_lem t mi m refl,
          stime_of,
        )
        refl)

minute-set_time :
    (f : ℤ → ℤ) (y mo d h mi : ℕ)
    → (1900 ≤ y) × (y ≤ 3000)
    → (1 ≤ mo) × (mo ≤ 12)
    → (1 ≤ d) × (d ≤ 31)
    → h ≤ 24
    → mi ≤ 60
    → set_time f (four y ++ (two mo ++ (two d ++ (two h ++ (two mi ++ [])))))
      ≡ some (date_of (pos y) (pos mo) (pos d) (pos h) (pos mi))
unfolding set_time set_month set_day set_hour set_min
minute-set_time f y mo d h mi b c k l m =
    rw (extract-four f y out b.1, inside 1900 3000 y b.0 b.1)
      (rw (extract-two f mo out (omega arith), inside 1 12 mo c.0 c.1)
        (rw (extract-two f d out (omega arith), inside 1 31 d k.0 k.1)
          (rw (extract-two f h out (omega arith), inside 0 24 h (omega arith) l)
            (rw (extract-two f mi out (omega arith), inside 0 60 mi (omega arith) m) refl))))

pub hour-stime :
    (y mo d h : ℕ)
    → (1900 ≤ y) × (y ≤ 3000)
    → (1 ≤ mo) × (mo ≤ 12)
    → (1 ≤ d) × (d ≤ 31)
    → h ≤ 24
    → get_stime (date_of (pos y) (pos mo) (pos d) (pos h) out)
      ≡ four y ++ (two mo ++ (two d ++ (two h ++ [])))
unfolding get_stime stime_of
hour-stime y mo d h b c k l =
    let t = date_of (pos y) (pos mo) (pos d) (pos h) out in
    let range : get_range t ≡ some 10 =
      unfold get_range in
      ground (
        arith,
        year_lem y (pos mo) (pos d) (pos h) out,
        month_lem (pos y) mo (pos d) (pos h) out,
      ) in
    rw (range, get_stime)
      (rw
        (
          s_year_lem t y b (year_lem y (pos mo) (pos d) (pos h) out),
          s_month_lem t mo c.1 (month_lem (pos y) mo (pos d) (pos h) out),
          s_day_lem t d k.1 refl,
          s_hour_lem t h l refl,
          stime_of,
        )
        refl)

hour-set_time :
    (f : ℤ → ℤ) (y mo d h : ℕ)
    → (1900 ≤ y) × (y ≤ 3000)
    → (1 ≤ mo) × (mo ≤ 12)
    → (1 ≤ d) × (d ≤ 31)
    → h ≤ 24
    → set_time f (four y ++ (two mo ++ (two d ++ (two h ++ []))))
      ≡ some (date_of (pos y) (pos mo) (pos d) (pos h) out)
unfolding set_time set_month set_day set_hour set_min
hour-set_time f y mo d h b c k l =
    rw (extract-four f y out b.1, inside 1900 3000 y b.0 b.1)
      (rw (extract-two f mo out (omega arith), inside 1 12 mo c.0 c.1)
        (rw (extract-two f d out (omega arith), inside 1 31 d k.0 k.1)
          (rw (extract-two f h out (omega arith), inside 0 24 h (omega arith) l) refl)))

pub day-stime :
    (y mo d : ℕ)
    → (1900 ≤ y) × (y ≤ 3000)
    → (1 ≤ mo) × (mo ≤ 12)
    → (1 ≤ d) × (d ≤ 31)
    → get_stime (date_of (pos y) (pos mo) (pos d) out out) ≡ four y ++ (two mo ++ (two d ++ []))
unfolding get_stime stime_of
day-stime y mo d b c k =
    let t = date_of (pos y) (pos mo) (pos d) out out in
    let range : get_range t ≡ some 8 =
      unfold get_range in
      ground (arith, year_lem y (pos mo) (pos d) out out, month_lem (pos y) mo (pos d) out out) in
    rw (range, get_stime)
      (rw
        (
          s_year_lem t y b (year_lem y (pos mo) (pos d) out out),
          s_month_lem t mo c.1 (month_lem (pos y) mo (pos d) out out),
          s_day_lem t d k.1 refl,
          stime_of,
        )
        refl)

day-set_time :
    (f : ℤ → ℤ) (y mo d : ℕ)
    → (1900 ≤ y) × (y ≤ 3000)
    → (1 ≤ mo) × (mo ≤ 12)
    → (1 ≤ d) × (d ≤ 31)
    → set_time f (four y ++ (two mo ++ (two d ++ [])))
      ≡ some (date_of (pos y) (pos mo) (pos d) out out)
unfolding set_time set_month set_day set_hour set_min
day-set_time f y mo d b c k =
    rw (extract-four f y out b.1, inside 1900 3000 y b.0 b.1)
      (rw (extract-two f mo out (omega arith), inside 1 12 mo c.0 c.1)
        (rw (extract-two f d out (omega arith), inside 1 31 d k.0 k.1) refl))

pub month-stime :
    (y mo : ℕ)
    → (1900 ≤ y) × (y ≤ 3000)
    → (1 ≤ mo) × (mo ≤ 12)
    → get_stime (date_of (pos y) (pos mo) out out out) ≡ four y ++ (two mo ++ [])
unfolding get_stime stime_of
month-stime y mo b c =
    let t = date_of (pos y) (pos mo) out out out in
    let range : get_range t ≡ some 6 =
      unfold get_range in
      ground (arith, year_lem y (pos mo) out out out, month_lem (pos y) mo out out out) in
    rw (range, get_stime)
      (rw
        (
          s_year_lem t y b (year_lem y (pos mo) out out out),
          s_month_lem t mo c.1 (month_lem (pos y) mo out out out),
          stime_of,
        )
        refl)

month-set_time :
    (f : ℤ → ℤ) (y mo : ℕ)
    → (1900 ≤ y) × (y ≤ 3000)
    → (1 ≤ mo) × (mo ≤ 12)
    → set_time f (four y ++ (two mo ++ [])) ≡ some (date_of (pos y) (pos mo) out out out)
unfolding set_time set_month set_day set_hour set_min
month-set_time f y mo b c =
    rw (extract-four f y out b.1, inside 1900 3000 y b.0 b.1)
      (rw (extract-two f mo out (omega arith), inside 1 12 mo c.0 c.1) refl)

pub year-stime :
    (y : ℕ) → (1900 ≤ y) × (y ≤ 3000) → get_stime (date_of (pos y) out out out out) ≡ four y ++ []
unfolding get_stime stime_of
year-stime y b =
    let t = date_of (pos y) out out out out in
    let range : get_range t ≡ some 4 =
      unfold get_range in
      ground (arith, year_lem y out out out out, month_unset (pos y) out out out) in
    rw (range, get_stime) (rw (s_year_lem t y b (year_lem y out out out out), stime_of) refl)

year-set_time :
    (f : ℤ → ℤ) (y : ℕ)
    → (1900 ≤ y) × (y ≤ 3000)
    → set_time f (four y ++ []) ≡ some (date_of (pos y) out out out out)
unfolding set_time set_month set_day set_hour set_min
year-set_time f y b = rw (extract-four f y out b.1, inside 1900 3000 y b.0 b.1) refl

month_mask :
    (y : ℤ)
    → month (record { tm_year = y; tm_mon = negsuc 0; tm_mday = out; tm_hour = out; tm_min = out })
      ≡ pos 0
unfolding month ◌+ℤ◌
month_mask y = refl

-- The date that `update` makes for a year: tm_mon is -1 there, and -2 in a date that was read.
pub year_mask-stime :
    (y : ℕ)
    → (1900 ≤ y) × (y ≤ 3000)
    → get_stime (record (date_of (pos y) out out out out) { tm_mon = negsuc 0 }) ≡ four y ++ []
unfolding get_stime stime_of
year_mask-stime y b =
    let t = record (date_of (pos y) out out out out) { tm_mon = negsuc 0 } in
    let name : year t ≡ pos y = unfold year in year_lem y out out out out in
    let range : get_range t ≡ some 4 =
      unfold get_range in ground (arith, name, month_mask (pos y -ℤ pos 1900)) in
    rw (range, get_stime) (rw (s_year_lem t y b name, stime_of) refl)

-- The text of the date of a file is read back as that date, whichever of the five kinds of time it
-- is for, and whatever a failed extraction would leave.
pub set_time-get_stime : (f : ℤ → ℤ) {t : Date} → IsDate t → set_time f (get_stime t) ≡ some t
set_time-get_stime f (minute y mo d h mi b c k l m) =
    rw (minute-stime y mo d h mi b c k l m) (minute-set_time f y mo d h mi b c k l m)
set_time-get_stime f (hour y mo d h b c k l) =
    rw (hour-stime y mo d h b c k l) (hour-set_time f y mo d h b c k l)
set_time-get_stime f (day y mo d b c k) = rw (day-stime y mo d b c k) (day-set_time f y mo d b c k)
set_time-get_stime f (month_ y mo b c) = rw (month-stime y mo b c) (month-set_time f y mo b c)
set_time-get_stime f (year_ y b) = rw (year-stime y b) (year-set_time f y b)
