-- ===== src/Time/DateTime.antt =====
-- src/time/datetime.c: the UTC calendar fields of an instant, before 1970 and after. The instant, the
-- year and the counts of seconds to days are signed; the other fields are `int32_t` in the source and
-- never negative. The 32-bit fields hold their values for any int64_t number of milliseconds.
pub mod Fields
mod Tests
use vexspoke.Base.{ℕ, ◌+◌, ◌-◌, ◌*◌, ◌/◌, ◌%◌, ltb, leb, if◌then◌else◌}
use vexspoke.Time.Signed.{ℤ, pos, add_nat, ◌-ℤ◌, scale, to_nat, borrow, era_of}

pub record DateTime : Type 0 where
  pub epoch_millis : ℤ
  pub year : ℤ
  pub month : ℕ
  pub day : ℕ
  pub hour : ℕ
  pub minute : ℕ
  pub second : ℕ
  pub millisecond : ℕ
  pub day_of_week : ℕ

-- The calendar date of a day, counted from 1970-01-01: the second half of setEpochMillis. The
-- difference that is the day of the era is never negative.
pub record Civil : Type 0 where
  pub year : ℤ
  pub month : ℕ
  pub day : ℕ

unfoldable pub civil_from_days : ℤ → Civil
civil_from_days total_days =
    let z = add_nat total_days 719468 in
    let era = era_of z 146097 in
    let doe = to_nat (z -ℤ scale era 146097) in
    let yoe = (doe - doe / 1460 + doe / 36524 - doe / 146096) / 365 in
    let y = add_nat (scale era 400) yoe in
    let doy = doe - (365 * yoe + yoe / 4 - yoe / 100) in
    let mp = (5 * doy + 2) / 153 in
    let month = if ltb mp 10 then mp + 3 else mp - 9 in
    record {
      year = add_nat y (if leb month 2 then 1 else 0);
      month = month;
      day = doy - (153 * mp + 2) / 5 + 1;
    }

-- The days from 1970-01-01 to an instant.
unfoldable pub total_days_of : ℤ → ℤ
total_days_of epoch_millis =
    let total_seconds = (borrow epoch_millis 1000).0 in
    let total_minutes = (borrow total_seconds 60).0 in
    let total_hours = (borrow total_minutes 60).0 in (borrow total_hours 24).0

-- setEpochMillis.
unfoldable pub set_epoch_millis : ℤ → DateTime
set_epoch_millis epoch_millis =
    let total_seconds = (borrow epoch_millis 1000).0 in
    let total_minutes = (borrow total_seconds 60).0 in
    let total_hours = (borrow total_minutes 60).0 in
    let total_days = total_days_of epoch_millis in
    let civil = civil_from_days total_days in
    record {
      epoch_millis = epoch_millis;
      year = civil.year;
      month = civil.month;
      day = civil.day;
      hour = (borrow total_hours 24).1;
      minute = (borrow total_minutes 60).1;
      second = (borrow total_seconds 60).1;
      millisecond = (borrow epoch_millis 1000).1;
      day_of_week = (borrow (add_nat total_days 3) 7).1 + 1;
    }

-- DateTime_set, at a reading of the clock.
pub set_now : ℕ → ℕ → DateTime
set_now tv_sec tv_nsec = set_epoch_millis (pos (tv_sec * 1000 + tv_nsec / 1000000))
