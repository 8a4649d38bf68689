-- ===== src/Clients/Date.antt =====
-- contrib/stat/date.cpp: the class `date`, which names the time that a file is for.
pub mod Digits
pub mod Order
pub mod Moment
pub mod RoundTrip
use map.Common.Int.{ℤ, pos, negsuc, ◌+ℤ◌, ◌-ℤ◌, pos_part, neg_part}
use map.Common.Text.{Text, decimal, is_digit, read_digits}
use map.Common.{
  ℕ, suc, ◌+◌, ◌-◌, Bool, true, false, not, ◌&&◌, ◌||◌, Option, none, some, [], ◌∷◌, ◌++◌, ◌==◌,
  ltb, leb, if◌then◌else◌, length,
}
use map.Memory.{slice}
use map.Stat.{ltb_ℤ}

-- `ts`, by the members that the class reads.
pub record Date : Type 0 where
  pub tm_year : ℤ
  pub tm_mon : ℤ
  pub tm_mday : ℤ
  pub tm_hour : ℤ
  pub tm_min : ℤ

-- `==` on int.
abbrev pub eq_ℤ : ℤ → ℤ → Bool
eq_ℤ a b = pos_part a + neg_part b == pos_part b + neg_part a

unfoldable pub year : Date → ℤ
year d = d.tm_year +ℤ pos 1900

unfoldable pub month : Date → ℤ
month d = d.tm_mon +ℤ pos 1

-- The day, the hour and the minute are the members.
abbrev pub day : Date → ℤ
day d = d.tm_mday

abbrev pub hour : Date → ℤ
hour d = d.tm_hour

abbrev pub min : Date → ℤ
min d = d.tm_min

-- `<<` of an int.
unfoldable pub show_int : ℤ → Text
show_int (pos n) = decimal n
show_int (negsuc n) = 45 ∷ decimal (suc n)

-- A text of one character gets a 0 in front.
abbrev pub pad : Text → Text
pad s = if length s == 1 then 48 ∷ s else s

unfoldable pub s_year : Date → ℤ → Text
s_year d offset = show_int (year d +ℤ offset)

unfoldable pub s_month : Date → ℤ → Text
s_month d offset = pad (show_int (month d +ℤ offset))

unfoldable pub s_day : Date → ℤ → Text
s_day d offset = pad (show_int (day d +ℤ offset))

unfoldable pub s_hour : Date → ℤ → Text
s_hour d offset = pad (show_int (hour d +ℤ offset))

unfoldable pub s_min : Date → ℤ → Text
s_min d offset = pad (show_int (min d +ℤ offset))

-- `get_range`, the number of digits; `none` is -1.
unfoldable pub get_range : Date → Option ℕ
get_range d =
    if ltb_ℤ (pos 0) (year d)
    then if ltb_ℤ (pos 0) (month d)
      then if ltb_ℤ (pos 0) (day d)
        then if not (ltb_ℤ (hour d) (pos 0))
          then if not (ltb_ℤ (min d) (pos 0)) then some 12 else some 10
          else some 8
        else some 6
      else some 4
    else none

-- The digits of a range; -1 is no more than 4.
unfoldable pub stime_of : ℕ → Date → Text
stime_of range d =
    s_year d (pos 0)
    ++ (if ltb 4 range
        then s_month d (pos 0)
          ++ (if ltb 6 range
              then s_day d (pos 0)
                ++ (if ltb 8 range
                    then s_hour d (pos 0) ++ (if ltb 10 range then s_min d (pos 0) else [])
                    else [])
              else [])
        else [])

unfoldable pub get_stime : Date → Text
get_stime d = elim (get_range d) [ none ↦ stime_of 0 d | some range ↦ stime_of range d ]

-- `is_child`: whether `d` is for a part of the time that the date is for.
unfoldable pub child_of : ℕ → ℕ → Date → Date → Bool
child_of range d_range p d =
    if d_range == range + 2 && eq_ℤ (year p) (year d)
    then if range == 4
      then true
      else if range == 6
      then eq_ℤ (month p) (month d)
      else if range == 8
      then eq_ℤ (month p) (month d) && eq_ℤ (day p) (day d)
      else if range == 10
      then eq_ℤ (month p) (month d) && (eq_ℤ (day p) (day d) && eq_ℤ (hour p) (hour d))
      else false
    else false

unfoldable pub is_child : Date → Date → Bool
is_child p d = elim (get_range p) [
  | none ↦ false
  | some range ↦ elim (get_range d) [ none ↦ false | some d_range ↦ child_of range d_range p d ]
]

-- One round of the comparison: where two numbers differ, they decide.
abbrev pub decide : ℤ → ℤ → Bool → Bool → Bool
decide a b answer rest = if not (eq_ℤ a b) then answer else rest

-- `operator<`, `operator>` and `operator==`.
unfoldable pub lt_date : Date → Date → Bool
lt_date a b = decide (year a) (year b) (ltb_ℤ (year a) (year b)) (
    decide (month a) (month b) (ltb_ℤ (month a) (month b)) (
      decide (day a) (day b) (ltb_ℤ (day a) (day b)) (
        decide (hour a) (hour b) (ltb_ℤ (hour a) (hour b))
          (decide (min a) (min b) (ltb_ℤ (min a) (min b)) false))))

unfoldable pub gt_date : Date → Date → Bool
gt_date a b = decide (year a) (year b) (ltb_ℤ (year b) (year a)) (
    decide (month a) (month b) (ltb_ℤ (month b) (month a)) (
      decide (day a) (day b) (ltb_ℤ (day b) (day a)) (
        decide (hour a) (hour b) (ltb_ℤ (hour b) (hour a))
          (decide (min a) (min b) (ltb_ℤ (min b) (min a)) false))))

unfoldable pub eq_date : Date → Date → Bool
eq_date a b =
    eq_ℤ (year a) (year b)
    && (eq_ℤ (month a) (month b)
        && (eq_ℤ (day a) (day b) && (eq_ℤ (hour a) (hour b) && eq_ℤ (min a) (min b))))

-- `>>` into an int: spaces are skipped, a sign may stand in front of the digits.
abbrev pub is_space : ℕ → Bool
is_space c = c == 32 || (leb 9 c && leb c 13)

unfoldable pub read_unsigned : (ℕ → ℤ) → Text → Option ℤ
read_unsigned sign [] = none
read_unsigned sign (c ∷ s) = if is_digit c then some (sign (read_digits 0 (c ∷ s))) else none

unfoldable pub read_int : Text → Option ℤ
read_int [] = none
read_int (c ∷ s) =
    let skipped = read_int s in
    if is_space c
    then skipped
    else if c == 45
    then read_unsigned (λ n. pos 0 -ℤ pos n) s
    else if c == 43
    then read_unsigned pos s
    else read_unsigned pos (c ∷ s)

-- `ss << s << endl; ss >> v`, where the stream may have failed before: whether it is still good, and
-- `v`. A library of C++11 leaves 0 where no number is found, an older one what was there.
unfoldable pub extract : (ℤ → ℤ) → Bool → Text → ℤ → Bool × ℤ
extract on_failure false s v = (false, v)
extract on_failure true s v = elim (read_int s) [
  | none ↦ (false, on_failure v)
  | some n ↦ (true, n)
]

-- The numbers that are written to `ts`.
abbrev pub date_of : ℤ → ℤ → ℤ → ℤ → ℤ → Date
date_of y mo d h mi = record {
  tm_year = y -ℤ pos 1900;
  tm_mon = mo -ℤ pos 1;
  tm_mday = d;
  tm_hour = h;
  tm_min = mi;
}

-- A number out of its range ends the function with -1.
abbrev pub is_outside : ℤ → ℤ → ℤ → Bool
is_outside lo hi v = ltb_ℤ v lo || ltb_ℤ hi v

-- `set_time` of a text, from the inside out; `none` is -1, which leaves `ts` alone.
unfoldable pub set_min : (ℤ → ℤ) → Text → Bool → ℤ → ℤ → ℤ → ℤ → Option Date
set_min on_failure s good y mo d h =
    if ltb 10 (length s)
    then (let got = extract on_failure good (slice s 10 2) (negsuc 0) in
        if is_outside (pos 0) (pos 60) got.1 then none else some (date_of y mo d h got.1))
    else some (date_of y mo d h (negsuc 0))

unfoldable pub set_hour : (ℤ → ℤ) → Text → Bool → ℤ → ℤ → ℤ → Option Date
set_hour on_failure s good y mo d =
    if ltb 8 (length s)
    then (let got = extract on_failure good (slice s 8 2) (negsuc 0) in
        if is_outside (pos 0) (pos 24) got.1 then none else set_min on_failure s got.0 y mo d got.1)
    else some (date_of y mo d (negsuc 0) (negsuc 0))

unfoldable pub set_day : (ℤ → ℤ) → Text → Bool → ℤ → ℤ → Option Date
set_day on_failure s good y mo =
    if ltb 6 (length s)
    then (let got = extract on_failure good (slice s 6 2) (negsuc 0) in
        if is_outside (pos 1) (pos 31) got.1 then none else set_hour on_failure s got.0 y mo got.1)
    else some (date_of y mo (negsuc 0) (negsuc 0) (negsuc 0))

unfoldable pub set_month : (ℤ → ℤ) → Text → Bool → ℤ → Option Date
set_month on_failure s good y =
    if ltb 4 (length s)
    then (let got = extract on_failure good (slice s 4 2) (negsuc 0) in
        if is_outside (pos 1) (pos 12) got.1 then none else set_day on_failure s got.0 y got.1)
    else some (date_of y (negsuc 0) (negsuc 0) (negsuc 0) (negsuc 0))

unfoldable pub set_time : (ℤ → ℤ) → Text → Option Date
set_time on_failure s =
    let range = length s in
    let got = extract on_failure true (slice s 0 4) (negsuc 0) in
    if not (range == 12)
      && (not (range == 10) && (not (range == 8) && (not (range == 6) && not (range == 4))))
    then none
    else if is_outside (pos 1900) (pos 3000) got.1
    then none
    else set_month on_failure s got.0 got.1
