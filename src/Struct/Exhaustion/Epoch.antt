-- ===== src/Struct/Exhaustion/Epoch.antt =====
-- An epoch of refusals: the count, and the one diagnostic.
use vexspoke.Base.{ℕ, zero, suc, ◌^◌, ◌%◌, ◌≡◌, true, false, arith, if◌then◌else◌, ◌==◌}
use vexspoke.Struct.Exhaustion.{Exhaustion, report, reset, report_construction, report_times}

-- After a reset, n refusals leave the count at n modulo 2^64, and they wrote exactly one
-- diagnostic if n is not 0, and none otherwise.
pub report_times-reset :
    (n : ℕ) (e : Exhaustion)
    → let (e', wrote) = report_times n (reset e) in
      (e'.count ≡ n % 2 ^ 64)
      × (wrote ≡ (if n == 0 then 0 else 1))
      × (e'.reported ≡ (if n == 0 then false else true))
unfolding report_times report reset
report_times-reset zero e = ground arith
report_times-reset (suc n) e = ground (arith, report_times-reset n e)

-- The process-wide account and an owner's account are kept alike.
pub report_construction-eq-report : (e : Exhaustion) → report_construction e ≡ report e
unfolding report_construction report
report_construction-eq-report e = ground arith
