-- ===== src/Time/DateTime/Fields.antt =====
-- The ranges of the fields that setEpochMillis derives, and what they add up to.
use vexspoke.Base.{◌<◌, ◌≡◌, arith}
use vexspoke.Time.Signed.{ℤ, add_nat, scale, borrow}
use vexspoke.Time.Floors.{borrow-IsFloor}
use vexspoke.Time.DateTime.{set_epoch_millis, total_days_of}

-- The time of day of the date-time of any instant, before 1970 too, is in range, and with the days before
-- it makes up the instant.
pub set_epoch_millis-time_of_day :
    (millis : ℤ)
    → let dt = set_epoch_millis millis in
      (dt.hour < 24)
      × (dt.minute < 60)
      × (dt.second < 60)
      × (dt.millisecond < 1000)
      × (add_nat
            (scale
              (add_nat
                (scale
                  (add_nat (scale (add_nat (scale (total_days_of millis) 24) dt.hour) 60) dt.minute)
                  60)
                dt.second)
              1000)
            dt.millisecond
          ≡ millis)
unfolding set_epoch_millis total_days_of
set_epoch_millis-time_of_day millis =
    let seconds = (borrow millis 1000).0 in
    let minutes = (borrow seconds 60).0 in
    let hours = (borrow minutes 60).0 in
    let s = borrow-IsFloor millis 1000 (omega arith) in
    let m = borrow-IsFloor seconds 60 (omega arith) in
    let h = borrow-IsFloor minutes 60 (omega arith) in
    let d = borrow-IsFloor hours 24 (omega arith) in
    (d.small, h.small, m.small, s.small, rw (d.whole, h.whole, m.whole) s.whole)
