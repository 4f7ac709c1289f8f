-- ===== src/Struct/Exhaustion/Tests.antt =====
-- The theorems on epochs at concrete accounts.
use vexspoke.Base.{◌≡◌, true}
use vexspoke.Struct.Exhaustion.{Exhaustion, report, report_construction, reset, report_times}
use vexspoke.Struct.Exhaustion.Epoch.{report_times-reset, report_construction-eq-report}

abbrev late : Exhaustion
late = record { count = 12; reported = true }

report_times-reset_example :
    let (e, wrote) = report_times 3 (reset late) in
    (e.count ≡ 3) × (wrote ≡ 1) × (e.reported ≡ true)
report_times-reset_example = report_times-reset 3 late

report_construction-eq-report_example : report_construction late ≡ report late
report_construction-eq-report_example = report_construction-eq-report late
