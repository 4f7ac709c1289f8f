-- ===== src/Time/Calendar.antt =====
-- src/time/calendar.c: Gregorian date arithmetic. Years, instants and shifts are signed; the month, the
-- day and the time of day are those of a date-time, which are not negative. A shift by months whose
-- count of months from the year 0 is negative is not modelled. Values are within the 32 bits of the source.
pub mod Shifts
pub mod Weekday
mod Tests
use vexspoke.Base.{
  ℕ, ◌+◌, ◌-◌, ◌*◌, ◌/◌, ◌%◌, Bool, true, false, not, ◌&&◌, ◌||◌, ◌==◌, ltb, leb, if◌then◌else◌,
}
use vexspoke.Base.{Option, none, some}
use vexspoke.Time.Signed.{ℤ, pos, negsuc, add_nat, sub_nat, ◌+ℤ◌, ◌-ℤ◌, scale, to_nat, era_of}
use vexspoke.Time.DateTime.{DateTime, set_epoch_millis}

-- What is left of a year by the divisor of a test, which is 0 on both sides of the year 0 alike.
pub magnitude : ℤ → ℕ
magnitude (pos n) = n
magnitude (negsuc n) = n + 1

pub is_leap_year : ℤ → Bool
is_leap_year year = let n = magnitude year in n % 4 == 0 && not (n % 100 == 0) || n % 400 == 0

pub days_in_month : ℤ → ℕ → ℕ
days_in_month year month =
    if ltb month 1 || ltb 12 month
    then 0
    else if month == 2
    then if is_leap_year year then 29 else 28
    else if month == 4 || month == 6 || month == 9 || month == 11
    then 30
    else 31

-- The switch at the end of Calendar_dayOfWeek: from Saturday 0 to Monday 1.
pub iso_weekday : ℕ → ℕ
iso_weekday h =
    if h == 0
    then 6
    else if h == 1
    then 7
    else if h == 2
    then 1
    else if h == 3
    then 2
    else if h == 4
    then 3
    else if h == 5
    then 4
    else 5

-- Zeller's sum over a year, and its remainder as C rounds it: one that is negative has no case of the
-- switch of its own.
pub zeller : ℤ → ℕ → ℕ → ℕ
zeller (pos y) m day =
    let k = y % 100 in
    let j = y / 100 in iso_weekday ((day + 13 * (m + 1) / 5 + k + k / 4 + j / 4 + 5 * j) % 7)
zeller (negsuc n) m day =
    let k = (n + 1) % 100 in
    let j = (n + 1) / 100 in
    let up = day + 13 * (m + 1) / 5 in
    let down = k + k / 4 + j / 4 + 5 * j in
    if leb down up then iso_weekday ((up - down) % 7) else if (down - up) % 7 == 0 then 6 else 5

-- Calendar_dayOfWeek.
pub day_of_week : ℤ → ℕ → ℕ → ℕ
day_of_week year month day =
    zeller (sub_nat year (if ltb month 3 then 1 else 0)) (if ltb month 3 then month + 12 else month)
      day

-- Calendar_addDays.
pub add_days : DateTime → ℤ → DateTime
add_days dt days = set_epoch_millis (dt.epoch_millis +ℤ scale days 86400000)

-- The days from 1970-01-01 to a date: the first half of toEpochMillis. The difference that is the year
-- of the era is never negative.
pub days_from_civil : ℤ → ℕ → ℕ → ℤ
days_from_civil year month day =
    let y = sub_nat year (if leb month 2 then 1 else 0) in
    let m = if leb month 2 then month + 9 else month - 3 in
    let era = era_of y 400 in
    let yoe = to_nat (y -ℤ scale era 400) in
    let doy = (153 * m + 2) / 5 + day - 1 in
    let doe = yoe * 365 + yoe / 4 - yoe / 100 + doy in
    sub_nat (add_nat (scale era 146097) doe) 719468

-- toEpochMillis.
pub to_epoch_millis : ℤ → ℕ → ℕ → ℕ → ℕ → ℕ → ℕ → ℤ
to_epoch_millis year month day hour minute second millisecond =
    let total_days = days_from_civil year month day in
    let total_secs = add_nat (scale total_days 86400) (hour * 3600 + minute * 60 + second) in
    add_nat (scale total_secs 1000) millisecond

-- The day of a month that stands for `day`: the last one, where the month is shorter.
pub clipped : ℤ → ℕ → ℕ → ℕ
clipped year month day =
    let max_days = days_in_month year month in if ltb day max_days then day else max_days

-- Calendar_addMonths, where the count of months from the year 0 is not negative.
pub add_months : DateTime → ℤ → Option DateTime
add_months dt months = elim (add_nat (scale dt.year 12) (dt.month - 1) +ℤ months) [
  | negsuc n ↦ none
  | pos total_months ↦
      let new_year = pos (total_months / 12) in
      let new_month = total_months % 12 + 1 in
      some (
        set_epoch_millis (
          to_epoch_millis new_year new_month (clipped new_year new_month dt.day) dt.hour dt.minute
            dt.second dt.millisecond))
]

-- Calendar_addYears.
pub add_years : DateTime → ℤ → DateTime
add_years dt years =
    let new_year = dt.year +ℤ years in
    set_epoch_millis (
      to_epoch_millis new_year dt.month (clipped new_year dt.month dt.day) dt.hour dt.minute
        dt.second dt.millisecond)
