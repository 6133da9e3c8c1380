-- ===== src/Time/RoundTrip.antt =====
-- libbase/Utils.cpp: time_to_tm followed by tm_to_time.
use echo_server_cpp.Prelude.{
  ℕ, ◌+◌, ◌-◌, ◌*◌, ◌/◌, ◌%◌, ◌^◌, ◌≤◌, ◌<◌, ◌≡◌, refl, ◌∙◌, Bool, true, false, ◌&&◌, arith, get_or,
  not, ◌||◌, inl, inr, Bool-cases, dec_lt, ltb, leb, ◌==◌, if◌then◌else◌,
}
use echo_server_cpp.Prelude.Tables.{holds_below, holds_below_lem}
use echo_server_cpp.Time.{
  Tm, month_days, leap_year, year_loop, month_loop, place, date, time_to_tm, is_leap, day_of_year,
  day_number, tm_to_time,
}

-- The last day of a month by tm_to_time, where every fourth year is a leap year.
own_last_day : ℕ → ℕ → ℕ
unfolding is_leap
own_last_day year mon = get_or month_days mon 0 + (if is_leap year && mon == 1 then 1 else 0)

-- The last day of a month in the Gregorian calendar, of a year counted from 1900.
unfoldable pub last_day : ℕ → ℕ → ℕ
last_day year mon =
    let leap : Bool = year % 4 == 0 && (not (year % 100 == 0) || year % 400 == 100) in
    get_or month_days mon 0 + (if leap && mon == 1 then 1 else 0)

-- A date of four years, from 1970 on.
sound : ℕ → Bool
unfolding date day_number own_last_day
sound day =
    let (year, mon, mday, yday) = date day in
    (day_number year mon mday == day)
    && leb mday (own_last_day year mon)
    && ltb mon 12
    && leb 1 mday
    && leb 70 year

sound_table : holds_below sound 1461 ≡ true
unfolding holds_below sound date year_loop month_loop leap_year place day_number day_of_year is_leap
    own_last_day
sound_table = refl

abbrev IsDate : ℕ → ℕ × ℕ × ℕ × ℕ → Type 0
IsDate day (year, mon, mday, yday) =
    (day_number year mon mday ≡ day)
    × (mday ≤ own_last_day year mon)
    × (mon < 12)
    × (1 ≤ mday)
    × (70 ≤ year)

tests-IsDate :
    (day : ℕ) (d : ℕ × ℕ × ℕ × ℕ)
    → (let (year, mon, mday, yday) = d in
        ((day_number year mon mday == day)
          && leb mday (own_last_day year mon)
          && ltb mon 12
          && leb 1 mday
          && leb 70 year)
        ≡ true)
    → IsDate day d
tests-IsDate day (year, mon, mday, yday) h = ground arith

date-small : (day : ℕ) → day < 1461 → IsDate day (date day)
date-small day h =
    tests-IsDate day (date day) (unfold sound in holds_below_lem sound 1461 day sound_table h)

-- Four years later.
later : ℕ → ℕ × ℕ × ℕ × ℕ → ℕ × ℕ × ℕ × ℕ
later q (year, mon, mday, yday) = (year + 4 * q, mon, mday, yday)

place-later :
    (year q : ℕ) (p : ℕ × ℕ) (yday : ℕ) → place (year + 4 * q) p yday ≡ later q (place year p yday)
unfolding place later
place-later year q (j, left) yday = ground arith

date-later : (day : ℕ) → date day ≡ later (day / 1461) (date (day % 1461))
unfolding date
date-later day =
    let e : day % 1461 % 1461 ≡ day % 1461 = omega arith in
    let f : day % 1461 / 1461 ≡ 0 = omega arith in
    let y = year_loop 4 0 (day % 1461) in
    let g : day / 1461 * 4 + y.0 + 70 ≡ 0 * 4 + y.0 + 70 + 4 * (day / 1461) = omega arith in
    rw (e, f, g)
      (place-later (0 * 4 + y.0 + 70) (day / 1461) (month_loop 12 (leap_year y.0) 0 y.1) y.1)

later-IsDate : (day q : ℕ) (d : ℕ × ℕ × ℕ × ℕ) → IsDate day d → IsDate (q * 1461 + day) (later q d)
unfolding later day_number day_of_year is_leap own_last_day
later-IsDate day q (year, mon, mday, yday) (h, k, l, m, n) =
    let e : (year + 4 * q) % 4 ≡ year % 4 = omega arith in
    let f : 365 * (year + 4 * q - 70) + (year + 4 * q - 69) / 4
        ≡ 365 * (year - 70) + (year - 69) / 4 + q * 1461 =
      omega arith in
    (rw e (omega arith), rw e k, l, m, omega arith)

-- Every day has the date that time_to_tm computes.
date-IsDate : (day : ℕ) → IsDate day (date day)
date-IsDate day =
    let e : day / 1461 * 1461 + day % 1461 ≡ day = omega arith in
    rw (date-later day) (
      rw e at (
        later-IsDate (day % 1461) (day / 1461) (date (day % 1461))
          (date-small (day % 1461) (omega arith))))

-- A day that its month has is not left to mktime.
tm_to_time-own :
    (mktime : Tm → ℕ) (tm : Tm)
    → ltb (own_last_day tm.tm_year tm.tm_mon) tm.tm_mday ≡ false
    → (tm_to_time mktime tm).0
      ≡ day_number tm.tm_year tm.tm_mon tm.tm_mday * 86400
        + tm.tm_hour * 3600
        + tm.tm_min * 60
        + tm.tm_sec
        - 8 * 3600
unfolding tm_to_time own_last_day
tm_to_time-own mktime tm h = rw h refl

february :
    (year mday : ℕ)
    → 70 ≤ year
    → day_number year 1 mday < 47541
    → mday ≤ own_last_day year 1
    → mday ≤ last_day year 1
unfolding own_last_day last_day is_leap day_number day_of_year
february year mday o d h = elim (dec_lt year 200) [
  | yes y ↦ ground arith
  | no y ↦
      let z : year ≡ 200 = omega (arith, d) in
      let w : mday ≤ 28 = let c = rw z at d in omega (arith, c) in ground (arith, z, w)
]

-- Before the code's day number of 29 February 2100 a day is one of the Gregorian calendar.
proper :
    (year mon mday : ℕ)
    → 70 ≤ year
    → day_number year mon mday < 47541
    → mday ≤ own_last_day year mon
    → mday ≤ last_day year mon
unfolding own_last_day last_day
proper year mon mday o d h = elim (Bool-cases (mon == 1)) [
  | inl e ↦ let z : mon ≡ 1 = ground arith in rw z (february year mday o (rw z at d) (rw z at h))
  | inr e ↦ ground arith
]

-- From the start of 1970 to the end of 28 February 2100 in China, time_to_tm gives a proper date of
-- the Gregorian calendar, with the month from 0 and the day from 1, and tm_to_time gives back the
-- time, without the help of mktime. The next day, for which the code has a date that 2100 does not
-- have, 29 February, and all later ones are not claimed.
pub tm_to_time-time_to_tm :
    (mktime : Tm → ℕ) (time : ℕ)
    → time < 4107513600
    → let tm = time_to_tm time in
      (tm.tm_mon < 12)
      × (1 ≤ tm.tm_mday)
      × (tm.tm_mday ≤ last_day tm.tm_year tm.tm_mon)
      × ((tm_to_time mktime tm).0 ≡ time)
unfolding time_to_tm
tm_to_time-time_to_tm mktime time h =
    let minutes = time % 2 ^ 32 / 60 in
    let day = (minutes / 60 + 8) / 24 in
    let (k, l, m, n, o) = date-IsDate day in
    let late : ltb (own_last_day (date day).0 (date day).1) (date day).2 ≡ false = ground arith in
    let e : day * 86400 + (minutes / 60 + 8) % 24 * 3600 + minutes % 60 * 60 + time % 60 - 8 * 3600
        ≡ time =
      omega arith in
    (
      m,
      n,
      proper (date day).0 (date day).1 (date day).2 o (rw k (omega arith)) l,
      tm_to_time-own mktime (time_to_tm time) late ∙ rw k e,
    )
