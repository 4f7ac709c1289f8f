-- ===== src/Struct/Exhaustion.antt =====
-- src/struct/exhaustion.c: refused allocations are counted, and each epoch emits one diagnostic.
-- An owner's two counters are one record; the process-wide pair for refused constructions is
-- another value of the same record. A call says beside the new state whether it wrote its
-- diagnostic to stderr.
pub mod Epoch
mod Tests
use vexspoke.Base.{ℕ, zero, suc, ◌+◌, Bool, true, false, if◌then◌else◌, u64}

-- The owner's `exhaustionCount` and `exhaustionReported`.
pub record Exhaustion : Type 0 where
  pub count : ℕ
  pub reported : Bool

-- Struct_reportExhaustion; the C function itself always returns false.
unfoldable pub report : Exhaustion → Exhaustion × Bool
report e =
    if e.reported
    then (record e { count = u64 (e.count + 1) }, false)
    else (record { count = u64 (e.count + 1); reported = true }, true)

-- Struct_resetExhaustion.
pub reset : Exhaustion → Exhaustion
reset e = record { count = 0; reported = false }

-- Struct_reportConstructionExhaustion, over the process-wide pair.
unfoldable pub report_construction : Exhaustion → Exhaustion × Bool
report_construction e =
    let e' : Exhaustion = record e { count = u64 (e.count + 1) } in
    if e'.reported then (e', false) else (record e' { reported = true }, true)

-- `n` refusals in a row, and how many diagnostics they wrote.
pub report_times : ℕ → Exhaustion → Exhaustion × ℕ
report_times zero e = (e, 0)
report_times (suc n) e =
    let (e', k) = report_times n e in
    let (e'', wrote) = report e' in (e'', if wrote then k + 1 else k)
