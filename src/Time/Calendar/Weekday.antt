-- ===== src/Time/Calendar/Weekday.antt =====
-- The two computations of the weekday agree.
use vexspoke.Base.{
  ℕ, ◌+◌, ◌-◌, ◌*◌, ◌/◌, ◌%◌, ◌≤◌, ◌<◌, ◌≡◌, ◌∙◌, ap, leb, ltb, arith, if◌then◌else◌,
}
use vexspoke.Base.{sym, Bool-cases, inl, inr, ◌==◌}
use vexspoke.Time.Signed.{
  ℤ, pos, negsuc, add_nat, sub_nat, ◌-ℤ◌, scale, to_nat, borrow, era_of, sub_nat-below,
  sub_nat-add_nat,
}
use vexspoke.Time.DateTime.{civil_from_days, set_epoch_millis, total_days_of}
use vexspoke.Time.Calendar.{iso_weekday, zeller, day_of_week}
use vexspoke.Time.Calendar.Shifts.{
  year_of_era, days_before, month_of, year_of_era-lt, days_before-le, day_of_year-le, month_of-lt,
  month_start-le,
}

iso_weekday_lem : (h : ℕ) → h < 7 → iso_weekday h ≡ (h + 5) % 7 + 1
unfolding iso_weekday
iso_weekday_lem h lt = ground arith

day_of_week-parts :
    (era yoe doy mp : ℕ)
    → yoe < 400
    → mp < 12
    → (153 * mp + 2) / 5 ≤ doy
    → let month = if ltb mp 10 then mp + 3 else mp - 9 in
      let y = yoe + era * 400 in
      day_of_week (pos (y + (if leb month 2 then 1 else 0))) month (doy - (153 * mp + 2) / 5 + 1)
      ≡ iso_weekday (
          (doy
            - (153 * mp + 2) / 5
            + 1
            + 13 * (mp + 4) / 5
            + y % 100
            + y % 100 / 4
            + y / 100 / 4
            + 5 * (y / 100))
          % 7)
unfolding day_of_week zeller
day_of_week-parts era yoe doy mp hy hm hd =
    let month = if ltb mp 10 then mp + 3 else mp - 9 in
    let bump : ℕ = if leb month 2 then 1 else 0 in
    let fits : bump ≤ yoe + era * 400 + bump = omega arith in
    let same : (if ltb month 3 then 1 else 0) ≡ bump = ground arith in
    rw (same, sub_nat-below (yoe + era * 400 + bump) bump fits) (ap iso_weekday (ground arith))

century :
    (era yoe : ℕ)
    → yoe < 400
    → let y = yoe + era * 400 in
      (y % 100 + y % 100 / 4 + y / 100 / 4 + 5 * (y / 100)) % 7
      ≡ (era * 146097 + (365 * yoe + yoe / 4 - yoe / 100)) % 7
century era yoe h = omega arith

-- Zeller's sum, with the month counted from March.
zeller-days :
    (era yoe doy mp : ℕ)
    → yoe < 400
    → mp < 12
    → (153 * mp + 2) / 5 ≤ doy
    → let y = yoe + era * 400 in
      (doy
          - (153 * mp + 2) / 5
          + 1
          + 13 * (mp + 4) / 5
          + y % 100
          + y % 100 / 4
          + y / 100 / 4
          + 5 * (y / 100))
        % 7
      ≡ (era * 146097 + (365 * yoe + yoe / 4 - yoe / 100) + doy + 4) % 7
zeller-days era yoe doy mp hy hm hd = let c = century era yoe hy in omega (arith, c)

-- The weekday of setEpochMillis, by the days from 0000-03-01.
weekday-days : (n : ℕ) → (borrow (add_nat (sub_nat (pos n) 719468) 3) 7).1 ≡ (n + 2) % 7
unfolding borrow add_nat sub_nat
weekday-days n = elim (Bool-cases (leb 719468 n)) [
  | inl t ↦ rw (sub_nat, t) (ground (arith, t))
  | inr f ↦ elim (Bool-cases (leb 3 (719468 - n - 1))) [
    | inl t ↦ rw (sub_nat, f, t) (negative (719468 - n - 1 - 3) (ground (arith, f, t)))
    | inr g ↦ rw (sub_nat, f, g) (ground (arith, f, g))
  ]
]
  where
    negative :
        (m : ℕ)
        → m + n + 4 ≡ 719468
        → let b : ℤ × ℕ =
            if (m + 1) % 7 == 0
            then (negsuc ((m + 1) / 7 - 1), 0)
            else (negsuc ((m + 1) / 7), 7 - (m + 1) % 7) in
          b.1 ≡ (n + 2) % 7
    negative m e = elim (Bool-cases ((m + 1) % 7 == 0)) [
      | inl t ↦ rw t (ground (arith, t, e))
      | inr f ↦ rw f (ground (arith, f, e))
    ]

-- On the date of an instant from 0000-03-01 on, Calendar_dayOfWeek gives the weekday that setEpochMillis
-- derives; `n` is the number of days from 0000-03-01.
pub day_of_week-set_epoch_millis :
    (millis : ℤ) (n : ℕ)
    → add_nat (total_days_of millis) 719468 ≡ pos n
    → let dt = set_epoch_millis millis in day_of_week dt.year dt.month dt.day ≡ dt.day_of_week
unfolding set_epoch_millis civil_from_days era_of scale add_nat ◌-ℤ◌ to_nat
day_of_week-set_epoch_millis millis n from =
    let total = total_days_of millis in
    let era = n / 146097 in
    let doe = n - era * 146097 in
    let small : doe < 146097 = omega arith in
    let yoe = year_of_era doe in
    let doy = doe - days_before yoe in
    let lt = year_of_era-lt doe small in
    let le = days_before-le doe small in
    let months = month_of-lt doy (day_of_year-le doe small) in
    let start = month_start-le doy in
    let back : total ≡ sub_nat (pos n) 719468 =
      sym (sub_nat-add_nat total 719468) ∙ ap (λ (w : ℤ). sub_nat w 719468) from in
    let weekday : (borrow (add_nat total 3) 7).1 ≡ (n + 2) % 7 =
      ap (λ (d : ℤ). (borrow (add_nat d 3) 7).1) back ∙ weekday-days n in
    let order : era * 400 + yoe ≡ yoe + era * 400 = omega arith in
    rw (from, sub_nat-below n (era * 146097) (omega arith), order, weekday)
      (day_of_week-parts era yoe doy (month_of doy) lt months start
        ∙ ap iso_weekday (zeller-days era yoe doy (month_of doy) lt months start)
        ∙ iso_weekday_lem _ (omega arith)
        ∙ omega (arith, le))
