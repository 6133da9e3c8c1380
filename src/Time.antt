-- ===== src/Time.antt =====
-- libbase/Utils.cpp: calendar time for the time zone UTC+8. A `time_t` is not negative here, and
-- its minutes are counted in 32 bits; years are those after 1900 and not before 70.
pub mod RoundTrip
use echo_server_cpp.Prelude.{
  ℕ, zero, suc, ◌+◌, ◌-◌, ◌*◌, ◌/◌, ◌%◌, ◌^◌, Bool, true, false, ◌&&◌, List, [], ◌∷◌, get_or, ltb,
  leb, ◌==◌, if◌then◌else◌,
}

pub record Tm : Type 0 where
  pub tm_sec : ℕ
  pub tm_min : ℕ
  pub tm_hour : ℕ
  pub tm_mday : ℕ
  pub tm_mon : ℕ
  pub tm_year : ℕ
  pub tm_wday : ℕ
  pub tm_yday : ℕ

abbrev pub month_days : List ℕ
month_days = 31 ∷ 28 ∷ 31 ∷ 30 ∷ 31 ∷ 30 ∷ 31 ∷ 31 ∷ 30 ∷ 31 ∷ 30 ∷ 31 ∷ []

abbrev pub month_begin : List ℕ
month_begin = 0 ∷ 31 ∷ 59 ∷ 90 ∷ 120 ∷ 151 ∷ 181 ∷ 212 ∷ 243 ∷ 273 ∷ 304 ∷ 334 ∷ []

-- The third of four years is the leap year.
unfoldable pub leap_year : ℕ → Bool
leap_year i = i == 2

-- The loop over four years, with the rounds left: the year and the days that are left in it.
unfoldable pub year_loop : ℕ → ℕ → ℕ → ℕ × ℕ
unfolding leap_year
year_loop zero i days = (i, days)
year_loop (suc n) i days =
    let day_count : ℕ = if leap_year i then 366 else 365 in
    let rest = year_loop n (i + 1) (days - day_count) in
    if leb days day_count then (i, days) else rest

-- The loop over twelve months: the month and the days that are left in it.
unfoldable pub month_loop : ℕ → Bool → ℕ → ℕ → ℕ × ℕ
month_loop zero leap j days = (j, days)
month_loop (suc n) leap j days =
    let day_count : ℕ = if leap && j == 1 then 29 else get_or month_days j 0 in
    let rest = month_loop n leap (j + 1) (days - day_count) in
    if ltb days day_count then (j, days) else if days == day_count then (j + 1, 0) else rest

-- A thirteenth month is the first of the next year.
unfoldable pub place : ℕ → ℕ × ℕ → ℕ → ℕ × ℕ × ℕ × ℕ
place year (j, left) yday =
    if leb 12 j then (year + 1, j - 12, left + 1, yday) else (year, j, left + 1, yday)

-- The date of a day that is counted from the start of 1970.
unfoldable pub date : ℕ → ℕ × ℕ × ℕ × ℕ
date day =
    let (i, yday) = year_loop 4 0 (day % 1461) in
    place (day / 1461 * 4 + i + 70) (month_loop 12 (leap_year i) 0 yday) yday

unfoldable pub time_to_tm : ℕ → Tm
time_to_tm time =
    let minutes : ℕ = time % 2 ^ 32 / 60 in
    let hours : ℕ = minutes / 60 + 8 in
    let day : ℕ = hours / 24 in
    let (year, mon, mday, yday) = date day in
    record {
      tm_sec = time % 60;
      tm_min = minutes % 60;
      tm_hour = hours % 24;
      tm_mday = mday;
      tm_mon = mon;
      tm_year = year;
      tm_wday = (day + 4) % 7;
      tm_yday = yday;
    }

unfoldable pub is_leap : ℕ → Bool
is_leap year = year % 4 == 0

-- The day of the year and the number of the day, counted from the start of 1970.
unfoldable pub day_of_year : ℕ → ℕ → ℕ → ℕ
unfolding is_leap
day_of_year year mon mday =
    get_or month_begin mon 0 + mday - 1 + (if is_leap year && ltb 1 mon then 1 else 0)

unfoldable pub day_number : ℕ → ℕ → ℕ → ℕ
unfolding day_of_year
day_number year mon mday = day_of_year year mon mday + 365 * (year - 70) + (year - 69) / 4

-- The result `*time_result`; the fields that are set on the way are the second component. `mktime`
-- is the C library's.
unfoldable pub tm_to_time : (Tm → ℕ) → Tm → ℕ × Tm
unfolding day_of_year day_number is_leap
tm_to_time mktime tm =
    let day : ℕ = day_number tm.tm_year tm.tm_mon tm.tm_mday in
    let tm' : Tm = record tm {
      tm_yday = day_of_year tm.tm_year tm.tm_mon tm.tm_mday;
      tm_wday = (day + 4) % 7;
    } in
    let time : ℕ = day * 86400 + tm.tm_hour * 3600 + tm.tm_min * 60 + tm.tm_sec - 8 * 3600 in
    let last : ℕ =
      get_or month_days tm.tm_mon 0 + (if is_leap tm.tm_year && tm.tm_mon == 1 then 1 else 0) in
    if ltb last tm.tm_mday then (mktime tm', tm') else (time, tm')
