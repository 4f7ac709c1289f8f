-- ===== src/Time/DateTime/Tests.antt =====
-- The theorems on src/time/datetime.c at concrete instants.
use vexspoke.Base.{◌<◌, ◌≡◌, refl}
use vexspoke.Time.Signed.{pos, negsuc, add_nat, scale, borrow, sub_nat, ◌-ℤ◌, to_nat, era_of}
use vexspoke.Time.DateTime.{civil_from_days, set_epoch_millis, total_days_of}
use vexspoke.Time.DateTime.Fields.{set_epoch_millis-time_of_day}

-- A millisecond before 1970 is 1969-12-31 23:59:59.999, a Wednesday.
before_1970 : set_epoch_millis (negsuc 0) ≡ record {
  epoch_millis = negsuc 0;
  year = pos 1969;
  month = 12;
  day = 31;
  hour = 23;
  minute = 59;
  second = 59;
  millisecond = 999;
  day_of_week = 3;
}
unfolding set_epoch_millis total_days_of civil_from_days add_nat sub_nat ◌-ℤ◌ scale to_nat borrow
    era_of
before_1970 = refl

set_epoch_millis-time_of_day_example :
    let dt = set_epoch_millis (negsuc 0) in
    (dt.hour < 24)
    × (dt.minute < 60)
    × (dt.second < 60)
    × (dt.millisecond < 1000)
    × (add_nat
          (scale
            (add_nat
              (scale
                (add_nat
                  (scale (add_nat (scale (total_days_of (negsuc 0)) 24) dt.hour) 60)
                  dt.minute)
                60)
              dt.second)
            1000)
          dt.millisecond
        ≡ negsuc 0)
set_epoch_millis-time_of_day_example = set_epoch_millis-time_of_day (negsuc 0)
