-- ===== src/Tests/Rollup.antt =====
-- The dates of files, and the files of a directory.
use map.Clients.Date.RoundTrip.{hour, set_time-get_stime}
use map.Clients.Date.{Date, year, month, date_of, set_time, get_stime}
use map.Clients.Files.Last.{AllTimes, IsLatest, max_element-IsLatest}
use map.Clients.Files.{StatFile, max_element}
use map.Common.Int.{pos, negsuc, ◌+ℤ◌, ◌-ℤ◌}
use map.Common.Text.{codes}
use map.Common.{◌≡◌, arith, some, [], ◌∷◌}

-- Noon of the first of May 2012.
abbrev noon : Date
noon = date_of (pos 2012) (pos 5) (pos 1) (pos 12) (negsuc 0)

set_time-get_stime_example : set_time (λ v. v) (get_stime noon) ≡ some noon
set_time-get_stime_example =
    set_time-get_stime (λ v. v)
      (hour 2012 5 1 12 (omega arith) (omega arith) (omega arith) (omega arith))

abbrev noon_file : StatFile
noon_file = record { filename = codes "map646_2012050112.stat"; filedate = noon }

abbrev later_file : StatFile
later_file = record {
  filename = codes "map646_201205011307.stat";
  filedate = date_of (pos 2012) (pos 5) (pos 1) (pos 13) (pos 7);
}

both_times : AllTimes (noon_file ∷ later_file ∷ [])
unfolding year month ◌+ℤ◌ ◌-ℤ◌
both_times = (
  record {
    year_bound = omega arith;
    month_bound = omega arith;
    day_bound = omega arith;
    hour_bound = omega arith;
    min_bound = omega arith;
  },
  (
    record {
      year_bound = omega arith;
      month_bound = omega arith;
      day_bound = omega arith;
      hour_bound = omega arith;
      min_bound = omega arith;
    },
    tt,
  ),
)

max_element-IsLatest_example :
    IsLatest (max_element noon_file (later_file ∷ [])) (noon_file ∷ later_file ∷ [])
max_element-IsLatest_example = max_element-IsLatest noon_file (later_file ∷ []) both_times
