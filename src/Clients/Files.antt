-- ===== src/Clients/Files.antt =====
-- contrib/stat/stat_file.cpp, stat_file_manager.cpp and the end of cron/stat_client_cron.cpp: the
-- files of a directory, their merging to files for longer times, and the run that adds a new one.
pub mod Directory
pub mod Totals
pub mod Runs
pub mod Last
use Prim.Native.String.{String}
use map.Clients.Date.{
  Date, get_stime, set_time, is_child, lt_date, s_year, s_month, s_day, s_hour, s_min,
}
use map.Clients.Files.Directory.{Disk, find, erase, store}
use map.Common.Int.{ℤ, pos, negsuc}
use map.Common.Text.{Text, codes, text_eq}
use map.Common.{
  ℕ, suc, ◌+◌, ◌-◌, Bool, true, false, not, ◌&&◌, ◌||◌, Option, none, some, List, [], ◌∷◌, ◌++◌,
  length, drop, take, ◌==◌, if◌then◌else◌,
}

-- What json-c and `json_merge` answer, over the type of JSON values: the value of a text, the text of
-- a value, and the value that a list of values under the names of their files is merged to.
pub record Json (J : Type 0) : Type 0 where
  pub parse : Text → Option J
  pub print : J → Text
  pub json_merge : List (Text × J) → J

-- `stat_file`, in the one directory.
pub record StatFile : Type 0 where
  pub filename : Text
  pub filedate : Date

-- `stat_file_manager`, with the directory.
pub record Manager : Type 0 where
  pub stat_files : List StatFile
  pub disk : Disk

-- Whether a text begins with another.
unfoldable pub starts : Text → Text → Bool
starts [] s = true
starts (c ∷ p) [] = false
starts (c ∷ p) (d ∷ s) = c == d && starts p s

-- `find`: the text in front of the first occurrence; `none` is npos.
unfoldable pub before : Text → Text → Option Text
before p [] = if starts p [] then some [] else none
before p (c ∷ s) =
    let later = before p s in
    if starts p (c ∷ s) then some [] else elim later [ none ↦ none | some front ↦ some (c ∷ front) ]

-- What the constructors take from outside: what a failed extraction leaves, and the current time.
pub record Clock : Type 0 where
  pub on_failure : ℤ → ℤ
  pub current : Date

-- The constructor of `stat_file`: where no time is found, the date is the current time.
unfoldable pub stat_file : Clock → Text → StatFile
stat_file k name = record {
  filename = name;
  filedate = elim (before (codes ".stat") (drop 7 name)) [
    | none ↦ k.current
    | some sdate ↦ elim (set_time k.on_failure sdate) [ none ↦ k.current | some d ↦ d ]
  ];
}

abbrev pub is_some : {A : Type 0} → Option A → Bool
is_some none = false
is_some (some a) = true

-- The names that the constructor of the manager takes.
unfoldable pub is_stat_name : Text → Bool
is_stat_name name =
    let n = length name in
    (n == 24 || (n == 22 || (n == 20 || n == 18)))
    && (is_some (before (codes "map646_") name) && is_some (before (codes ".stat") name))

-- The constructor of `stat_file_manager`, over the directory in the order of `readdir`.
unfoldable pub load_files : Clock → Disk → List StatFile
load_files k [] = []
load_files k ((name, _) ∷ disk) =
    let rest = load_files k disk in if is_stat_name name then stat_file k name ∷ rest else rest

unfoldable pub new_manager : Clock → Disk → Manager
new_manager k disk = record { stat_files = load_files k disk; disk = disk }

-- `std::max_element`: the first of the largest.
unfoldable pub max_element : StatFile → List StatFile → StatFile
max_element largest [] = largest
max_element largest (f ∷ fs) =
    max_element (if lt_date largest.filedate f.filedate then f else largest) fs

-- The lines of a file, joined.
unfoldable pub join_lines : Text → Text
join_lines [] = []
join_lines (c ∷ s) = let rest = join_lines s in if c == 10 then rest else c ∷ rest

-- The name of the file for a time.
abbrev pub name_of : Date → Text
name_of d = codes "map646_" ++ (get_stime d ++ codes ".stat")

abbrev pub no_min : Date → Date
no_min d = record d { tm_min = negsuc 0 }

abbrev pub no_hour : Date → Date
no_hour d = record d { tm_hour = negsuc 0 }

abbrev pub no_mday : Date → Date
no_mday d = record d { tm_mday = negsuc 0 }

abbrev pub no_mon : Date → Date
no_mon d = record d { tm_mon = negsuc 0 }

-- The comparison of two texts of the dates.
abbrev pub same_text : (Date → ℤ → Text) → Date → Date → Bool
same_text s a b = text_eq (s a (pos 0)) (s b (pos 0))

module _ {J : Type 0} (json : Json J) where
  -- `stat_file::get_jobj`; `none` is NULL. A file that is not there has an empty text.
  unfoldable pub get_jobj : Text → Disk → Option J
  get_jobj name disk = elim (find name disk) [
    | none ↦ json.parse []
    | some text ↦ json.parse (join_lines text)
  ]

  -- The loop of `merge`: the directory, and the values that are gathered.
  unfoldable pub gather : Date → List StatFile → Disk → Disk × List (Text × J)
  gather time [] disk = (disk, [])
  gather time (f ∷ fs) disk =
      if is_child time f.filedate
      then elim (get_jobj f.filename disk) [
        | none ↦ gather time fs disk
        | some j ↦
            let rest = gather time fs (erase f.filename disk) in (rest.0, (f.filename, j) ∷ rest.1)
      ]
      else gather time fs disk

  -- `stat_file_manager::write`.
  unfoldable pub write : Clock → Date → J → Manager → Manager
  write k d j m = record {
    stat_files = m.stat_files ++ (stat_file k (name_of d) ∷ []);
    disk = store (name_of d) (json.print j) m.disk;
  }

  -- `merge` behind its loop: nothing gathered is a failure.
  unfoldable pub write_merged :
      Clock → Date → List StatFile → Disk × List (Text × J) → Bool × Manager
  write_merged k time fs (disk, []) = (false, record { stat_files = fs; disk = disk })
  write_merged k time fs (disk, x ∷ xs) =
      (true, write k time (json.json_merge (x ∷ xs)) (record { stat_files = fs; disk = disk }))

  -- `stat_file_manager::merge`: whether it returns 0.
  unfoldable pub merge : Clock → Date → Manager → Bool × Manager
  merge k time m = write_merged k time m.stat_files (gather time m.stat_files m.disk)

  -- The merges of one call of `update`: each assigns -1 to a member of `lastupdate` first.
  unfoldable pub merges : Clock → List (Date → Date) → Date → Manager → Bool × Manager
  merges k [] last m = (true, m)
  merges k (mask ∷ masks) last m =
      let step = merge k (mask last) m in
      let rest = merges k masks (mask last) step.1 in if step.0 then rest else step

  -- `stat_file_manager::update` behind the search for the last file.
  unfoldable pub update_from : Clock → Date → Date → Manager → Bool × Manager
  update_from k ctime last m =
      if same_text s_year ctime last
      then if same_text s_month ctime last
        then if same_text s_day ctime last
          then if same_text s_hour ctime last
            then (not (same_text s_min ctime last), m)
            else merges k (no_min ∷ []) last m
          else merges k (no_min ∷ no_hour ∷ []) last m
        else merges k (no_min ∷ no_hour ∷ no_mday ∷ []) last m
      else merges k (no_min ∷ no_hour ∷ no_mday ∷ no_mon ∷ []) last m

  -- The end of a run of the cron client: the result of `update` is not looked at.
  unfoldable pub add_stat : Clock → Date → J → Manager → Manager
  add_stat k ctime j m = elim m.stat_files [
    | [] ↦ write k ctime j m
    | f ∷ fs ↦ write k ctime j (update_from k ctime (max_element f fs).filedate m).1
  ]
