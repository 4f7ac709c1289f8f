-- ===== src/Time/Calendar/Shifts.antt =====
-- The day number of a date inverts the date of a day number.
use vexspoke.Base.{
  ap, ℕ, ◌+◌, ◌-◌, ◌*◌, ◌/◌, ◌≤◌, ◌<◌, ◌≡◌, ◌∙◌, refl, leb, ltb, arith, if◌then◌else◌,
}
use vexspoke.Time.Signed.{
  ℤ, pos, negsuc, add_nat, sub_nat, ◌-ℤ◌, scale, to_nat, era_of, add_nat-below, sub_nat-add_nat,
  minus-same,
}
use vexspoke.Time.Floors.{era_of-IsFloor, era_of-IsFloor_unique}
use vexspoke.Time.DateTime.Fields.{set_epoch_millis-time_of_day}
use vexspoke.Time.DateTime.{civil_from_days, set_epoch_millis, total_days_of}
use vexspoke.Time.Calendar.{days_from_civil, to_epoch_millis}

-- The year of its era that a day of the era falls in.
abbrev pub year_of_era : ℕ → ℕ
year_of_era doe = (doe - doe / 1460 + doe / 36524 - doe / 146096) / 365

-- The days of the era before a year of it.
abbrev pub days_before : ℕ → ℕ
days_before yoe = 365 * yoe + yoe / 4 - yoe / 100

pub year_of_era-lt : (doe : ℕ) → doe < 146097 → year_of_era doe < 400
year_of_era-lt doe h = omega arith

pub days_before-le : (doe : ℕ) → doe < 146097 → days_before (year_of_era doe) ≤ doe
days_before-le doe h = omega arith

pub day_of_year-le : (doe : ℕ) → doe < 146097 → doe - days_before (year_of_era doe) ≤ 365
day_of_year-le doe h = omega arith

-- The month, counted from March, that a day of the year falls in.
abbrev pub month_of : ℕ → ℕ
month_of doy = (5 * doy + 2) / 153

pub month_of-lt : (doy : ℕ) → doy ≤ 365 → month_of doy < 12
month_of-lt doy h = omega arith

pub month_start-le : (doy : ℕ) → (153 * month_of doy + 2) / 5 ≤ doy
month_start-le doy = omega arith

days_from-parts :
    (era : ℤ) (yoe doy mp : ℕ)
    → yoe < 400
    → mp < 12
    → (153 * mp + 2) / 5 ≤ doy
    → let month = if ltb mp 10 then mp + 3 else mp - 9 in
      days_from_civil
        (add_nat (add_nat (scale era 400) yoe) (if leb month 2 then 1 else 0))
        month
        (doy - (153 * mp + 2) / 5 + 1)
      ≡ sub_nat (add_nat (scale era 146097) (365 * yoe + yoe / 4 - yoe / 100 + doy)) 719468
unfolding days_from_civil to_nat
days_from-parts era yoe doy mp hy hm hd =
    let month = if ltb mp 10 then mp + 3 else mp - 9 in
    let y = add_nat (scale era 400) yoe in
    rw
      (
        days_from_civil,
        sub_nat-add_nat y (if leb month 2 then 1 else 0),
        era_of-IsFloor_unique era yoe 400 hy,
        minus-same (scale era 400) yoe,
      )
      (ap (λ (n : ℕ). sub_nat (add_nat (scale era 146097) n) 719468) (ground arith))

-- The day number of the date of any day, before 1970 too, is that day.
pub days_from_civil-civil_from_days :
    (total_days : ℤ)
    → let civil = civil_from_days total_days in
      days_from_civil civil.year civil.month civil.day ≡ total_days
unfolding civil_from_days
days_from_civil-civil_from_days total_days =
    let z = add_nat total_days 719468 in
    let era = era_of z 146097 in
    let doe = to_nat (z -ℤ scale era 146097) in
    let floor = era_of-IsFloor z 146097 (omega arith) in
    let small = floor.small in
    let yoe = year_of_era doe in
    let doy = doe - days_before yoe in
    let one = year_of_era-lt doe small in
    let two = days_before-le doe small in
    let three = day_of_year-le doe small in
    let whole : days_before yoe + doy ≡ doe = omega (arith, two) in
    days_from-parts era yoe doy (month_of doy) one (month_of-lt doy three) (month_start-le doy)
    ∙ ap (λ (n : ℕ). sub_nat (add_nat (scale era 146097) n) 719468) whole
    ∙ ap (λ (w : ℤ). sub_nat w 719468) floor.whole
    ∙ sub_nat-add_nat total_days 719468

-- On the date of any day, before 1970 too, the month runs from 1 to 12, and the day from 1 to 31.
pub civil_from_days-ranges :
    (total_days : ℤ)
    → let civil = civil_from_days total_days in
      (1 ≤ civil.month) × (civil.month ≤ 12) × (1 ≤ civil.day) × (civil.day ≤ 31)
unfolding civil_from_days
civil_from_days-ranges total_days =
    let z = add_nat total_days 719468 in
    let doe = to_nat (z -ℤ scale (era_of z 146097) 146097) in
    let doy = doe - days_before (year_of_era doe) in
    let floor = era_of-IsFloor z 146097 (omega arith) in
    let short = day_of_year-le doe floor.small in
    ranges doy (month_of doy) refl (month_of-lt doy short) (month_start-le doy)
  where
    ranges :
        (doy mp : ℕ)
        → mp ≡ month_of doy
        → mp < 12
        → (153 * mp + 2) / 5 ≤ doy
        → let month = if ltb mp 10 then mp + 3 else mp - 9 in
          (1 ≤ month)
          × (month ≤ 12)
          × (1 ≤ doy - (153 * mp + 2) / 5 + 1)
          × (doy - (153 * mp + 2) / 5 + 1 ≤ 31)
    ranges doy mp e lt le = (ground arith, ground arith, omega arith, omega arith)

-- The seconds of a day number and a time of day.
clock :
    (d : ℤ) (h m s : ℕ)
    → h < 24
    → m < 60
    → s < 60
    → add_nat (scale d 86400) (h * 3600 + m * 60 + s)
      ≡ add_nat (scale (add_nat (scale (add_nat (scale d 24) h) 60) m) 60) s
unfolding scale add_nat
clock (pos d) h m s lh lm ls = ap pos (omega arith)
clock (negsuc d) h m s lh lm ls =
    let hours = d * 24 + 23 - h in
    let minutes = hours * 60 + 59 - m in
    rw
      (
        add_nat-below (d * 24 + 23) h (omega (arith, lh)),
        add_nat-below (hours * 60 + 59) m (omega (arith, lm)),
        add_nat-below (minutes * 60 + 59) s (omega (arith, ls)),
        add_nat-below (d * 86400 + 86399) (h * 3600 + m * 60 + s) (omega (arith, lh, lm, ls)),
      )
      (ap negsuc (omega (arith, lh, lm, ls)))

-- toEpochMillis takes the fields that setEpochMillis derives back to the instant, before 1970 too.
pub to_epoch_millis-set_epoch_millis :
    (millis : ℤ)
    → let dt = set_epoch_millis millis in
      to_epoch_millis dt.year dt.month dt.day dt.hour dt.minute dt.second dt.millisecond ≡ millis
unfolding to_epoch_millis set_epoch_millis
to_epoch_millis-set_epoch_millis millis =
    let dt = set_epoch_millis millis in
    let days = total_days_of millis in
    let e = days_from_civil-civil_from_days days in
    let t = set_epoch_millis-time_of_day millis in
    let c = clock days dt.hour dt.minute dt.second t.0 t.1 t.2 in
    ap
      (λ (d : ℤ).
        add_nat (scale (add_nat (scale d 86400) (dt.hour * 3600 + dt.minute * 60 + dt.second)) 1000)
          dt.millisecond)
      e
    ∙ ap (λ (w : ℤ). add_nat (scale w 1000) dt.millisecond) c
    ∙ t.4
