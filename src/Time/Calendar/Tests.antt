-- ===== src/Time/Calendar/Tests.antt =====
-- The theorems on src/time/calendar.c at concrete dates.
use vexspoke.Base.{◌≡◌, ◌≤◌, refl, some}
use vexspoke.Time.Signed.{pos, negsuc, add_nat, sub_nat, ◌+ℤ◌, ◌-ℤ◌, scale, to_nat, borrow, era_of}
use vexspoke.Time.DateTime.{set_epoch_millis, civil_from_days, total_days_of}
use vexspoke.Time.Calendar.{
  iso_weekday, zeller, magnitude, is_leap_year, days_in_month, clipped, day_of_week,
  days_from_civil, to_epoch_millis, add_months,
}
use vexspoke.Time.Calendar.Shifts.{
  days_from_civil-civil_from_days, civil_from_days-ranges, to_epoch_millis-set_epoch_millis,
}
use vexspoke.Time.Calendar.Weekday.{day_of_week-set_epoch_millis}

-- 1969-12-31
days_from_civil-civil_from_days_example :
    let civil = civil_from_days (negsuc 0) in
    days_from_civil civil.year civil.month civil.day ≡ negsuc 0
days_from_civil-civil_from_days_example = days_from_civil-civil_from_days (negsuc 0)

civil_from_days-ranges_example :
    let civil = civil_from_days (negsuc 0) in
    (1 ≤ civil.month) × (civil.month ≤ 12) × (1 ≤ civil.day) × (civil.day ≤ 31)
civil_from_days-ranges_example = civil_from_days-ranges (negsuc 0)

to_epoch_millis-set_epoch_millis_example :
    let dt = set_epoch_millis (negsuc 1709210096789) in
    to_epoch_millis dt.year dt.month dt.day dt.hour dt.minute dt.second dt.millisecond
    ≡ negsuc 1709210096789
to_epoch_millis-set_epoch_millis_example = to_epoch_millis-set_epoch_millis (negsuc 1709210096789)

-- 2024-02-29
leap_day : add_nat (total_days_of (pos 1709210096789)) 719468 ≡ pos 739250
unfolding total_days_of add_nat borrow
leap_day = refl

day_of_week-set_epoch_millis_example :
    let dt = set_epoch_millis (pos 1709210096789) in
    day_of_week dt.year dt.month dt.day ≡ dt.day_of_week
day_of_week-set_epoch_millis_example =
    day_of_week-set_epoch_millis (pos 1709210096789) 739250 leap_day

-- On 0000-02-29 the two weekdays differ: Zeller's remainder is negative.
zeller_before_march : day_of_week (pos 0) 2 29 ≡ 3
unfolding day_of_week zeller iso_weekday sub_nat
zeller_before_march = refl

derived_before_march : (set_epoch_millis (negsuc 62162035200000)).day_of_week ≡ 2
unfolding set_epoch_millis total_days_of civil_from_days add_nat sub_nat ◌-ℤ◌ scale to_nat borrow
    era_of
derived_before_march = refl

-- A month after 2024-01-31 is 2024-02-29.
clipped_february :
    add_months (set_epoch_millis (pos 1706659200000)) (pos 1)
    ≡ some (set_epoch_millis (pos 1709164800000))
unfolding add_months to_epoch_millis days_from_civil set_epoch_millis civil_from_days total_days_of
    clipped days_in_month is_leap_year magnitude add_nat sub_nat ◌+ℤ◌ ◌-ℤ◌ scale to_nat borrow
    era_of
clipped_february = refl
