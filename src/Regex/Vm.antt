-- ===== src/Regex/Vm.antt =====
-- src/regex/vm.c: `RegexVm`, the simulation of a program on all its threads at once. A thread list
-- holds the program counter and the capture row of each thread: the two regions of the capture
-- table, and the indices into it, are how the C code stores the rows. `none` is REGEX_UNSET.
pub mod Threads
pub mod Captures
pub mod Rows
pub mod Matching
pub mod Marks
pub mod Visits
pub mod Closure
pub mod Hits
pub mod Finding
pub mod Deciding
pub mod Reporting
pub mod Samples
mod Tests
use Prim.Native.Nat.{◌<◌}
use vexspoke.Base.{
  ℕ, zero, suc, ◌+◌, ◌-◌, ◌*◌, List, [], ◌∷◌, ◌++◌, Bool, true, false, not, ◌&&◌, ◌||◌, ◌==◌, ltb,
  leb, if◌then◌else◌, length, get_or, get_elem?, set as set_elem, replicate, Option, none, some,
  u32,
}
use vexspoke.Regex.Span.{Span, no_span, span_is_set}
use vexspoke.Regex.CharClass.{CharClass}
use vexspoke.Regex.CharClass as Bytes
use vexspoke.Regex.Program.{
  Op, char, any, class, split, jump, save, bol, eol, match, Inst, Program, count, inst_at,
}

-- RegexOptions.
pub record Options : Type 0 where
  pub ignore_case : Bool
  pub dotall : Bool
  pub multiline : Bool

-- lowerByte.
pub lower_byte : ℕ → ℕ
lower_byte c = if leb b'A' c && leb c b'Z' then c + 32 else c

-- The byte that the machine compares.
abbrev pub folded : Options → ℕ → ℕ
folded options byte = if options.ignore_case then lower_byte byte else byte

-- instMatches.
unfoldable pub inst_matches : List CharClass → Inst → Op → ℕ → Options → Bool
inst_matches classes i char byte options = byte == i.byte
inst_matches classes i any byte options = options.dotall || not (byte == 10)
inst_matches classes i class byte options = Bytes.test (get_or classes i.a Bytes.clear) byte
inst_matches classes i split byte options = false
inst_matches classes i jump byte options = false
inst_matches classes i save byte options = false
inst_matches classes i bol byte options = false
inst_matches classes i eol byte options = false
inst_matches classes i match byte options = false

-- The tests of REGEX_OP_BOL and REGEX_OP_EOL in addThread.
abbrev pub at_start : List ℕ → Bool → ℕ → Bool
at_start subject multiline pos = pos == 0 || multiline && get_or subject (pos - 1) 0 == 10

abbrev pub at_end : List ℕ → Bool → ℕ → Bool
at_end subject multiline pos = pos == length subject || multiline && get_or subject pos 0 == 10

-- RegexTask.
pub data Task : Type 0 where
  expand : ℕ → Task
  restore : ℕ → Option ℕ → Task

abbrev pub Row : Type 0
Row = List (Option ℕ)

-- RegexList.
pub record ThreadList : Type 0 where
  pub threads : List (ℕ × Row)
  pub seen : List Bool

abbrev pub no_threads : ℕ → ThreadList
no_threads n = record { threads = []; seen = replicate n false }

abbrev pub mark : ℕ → ThreadList → ThreadList
mark pc list = record list { seen = set_elem list.seen pc true }

abbrev pub is_some : Option Row → Bool
is_some none = false
is_some (some row) = true

abbrev pub newer : Option Row → Option Row → Option Row
newer none best = best
newer (some row) best = some row

-- A new thread with a copy of the working row, if the region has room.
pub keep : ℕ → ℕ → Row → ThreadList → ThreadList
keep rows pc work list =
    if leb rows (length list.threads)
    then list
    else record list { threads = list.threads ++ (pc, work) ∷ [] }

module _ (program : Program) (subject : List ℕ) (multiline : Bool) (pos : ℕ) where
  -- The switch of addThread, at an instruction that is reached for the first time: the list, the
  -- working row and the stack after it.
  pub visit : Inst → Op → ℕ → ThreadList → Row → List Task → ThreadList × Row × List Task
  visit i jump pc list work stack = (list, work, expand i.a ∷ stack)
  visit i split pc list work stack = (list, work, expand i.a ∷ expand i.b ∷ stack)
  visit i save pc list work stack = (
    list,
    set_elem work i.a (some pos),
    expand (pc + 1) ∷ restore i.a (get_or work i.a none) ∷ stack,
  )
  visit i bol pc list work stack =
      (list, work, if at_start subject multiline pos then expand (pc + 1) ∷ stack else stack)
  visit i eol pc list work stack =
      (list, work, if at_end subject multiline pos then expand (pc + 1) ∷ stack else stack)
  visit i char pc list work stack = (keep (count program) pc work list, work, stack)
  visit i any pc list work stack = (keep (count program) pc work list, work, stack)
  visit i class pc list work stack = (keep (count program) pc work list, work, stack)
  visit i match pc list work stack = (keep (count program) pc work list, work, stack)

  -- The loop of addThread, with fuel.
  pub close : ℕ → ThreadList → Row → List Task → ThreadList
  close fuel list work [] = list
  close zero list work (task ∷ stack) = list
  close (suc fuel) list work (restore slot value ∷ stack) =
      close fuel list (set_elem work slot value) stack
  close (suc fuel) list work (expand pc ∷ stack) = elim (get_or list.seen pc false) [
    | true ↦ close fuel list work stack
    | false ↦ elim (inst_at program pc) [
      | none ↦ close fuel (mark pc list) work stack
      | some i ↦
          let next = visit i i.op pc (mark pc list) work stack in close fuel next.0 next.1 next.2
    ]
  ]

  -- addThread. The fuel is the capacity of the stack in the C code.
  pub add_thread : ThreadList → ℕ → Row → ThreadList
  add_thread list pc parent = close (count program * 4 + 8) list parent (expand pc ∷ [])

module _ (program : Program) (classes : List CharClass) (subject : List ℕ) (options : Options)
    (full : Bool) where
  abbrev pub add_at : ℕ → ThreadList → ℕ → Row → ThreadList
  add_at pos = add_thread program subject options.multiline pos

  -- The thread `pc` at a byte of the subject: the next list.
  pub advance : ℕ → ℕ → Row → ThreadList → ThreadList
  advance pos pc row next = elim (get_elem? subject pos) [
    | none ↦ next
    | some byte ↦ elim (inst_at program pc) [
      | none ↦ next
      | some i ↦
          if inst_matches classes i i.op (folded options byte) options
          then add_at (pos + 1) next (pc + 1) row
          else next
    ]
  ]

  abbrev pub is_match : ℕ → Bool
  is_match pc = elim (inst_at program pc) [
    | none ↦ false
    | some i ↦ elim i.op [ match ↦ true | _ ↦ false ]
  ]

  -- The loop of run over the threads at a position: the next list, and the row of a match that cuts
  -- the threads after it.
  pub step_threads : ℕ → List (ℕ × Row) → ThreadList → ThreadList × Option Row
  step_threads pos [] next = (next, none)
  step_threads pos ((pc, row) ∷ threads) next = elim (is_match pc) [
    | true ↦ elim (full && not (pos == length subject)) [
      | true ↦ step_threads pos threads next
      | false ↦ (next, some row)
    ]
    | false ↦ step_threads pos threads (advance pos pc row next)
  ]

  -- The loop of run over the positions, `rounds` of them from `pos` on. `best` is the row of the
  -- last match, if there was one.
  pub run_from : Bool → Row → ℕ → ℕ → ThreadList → Option Row → Option Row
  run_from anchored seed zero pos current best = best
  run_from anchored seed (suc rounds) pos current best =
      elim (length current.threads == 0 && is_some best) [
        | true ↦ best
        | false ↦
            let started =
              if not (is_some best) && (not anchored || pos == 0)
              then add_at pos current 0 seed
              else current in
            let stepped = step_threads pos started.threads (no_threads (count program)) in
            run_from anchored seed rounds (pos + 1) (stepped.0) (newer (stepped.1) best)
      ]

-- vmInitialize: whether the arena gives all the tables of a machine for so many groups. The lists of
-- program counters, rows and marks are six blocks of one size, the rows work, seed and best are three.
pub vm_initialize : (ℕ → Bool) → Program → ℕ → Bool
vm_initialize granted program groups =
    let n = count program in
    let stride = u32 (2 * u32 (groups + 1)) in
    if n == 0
    then false
    else granted (n * 4)
      && granted (u32 (4 * n + 8) * 24)
      && granted (2 * n * stride * 8)
      && granted (stride * 8)

-- RegexVm_run and RegexVm_runFull, on a machine for so many groups: the winning row.
pub vm_run : Program → List CharClass → List ℕ → Options → ℕ → Bool → Option Row
vm_run program classes subject options groups anchored =
    run_from program classes subject options false anchored (replicate (2 * (groups + 1)) none)
      (suc (length subject)) 0 (no_threads (count program)) none

pub vm_run_full : Program → List CharClass → List ℕ → Options → ℕ → Option Row
vm_run_full program classes subject options groups =
    run_from program classes subject options true true (replicate (2 * (groups + 1)) none)
      (suc (length subject)) 0 (no_threads (count program)) none

-- RegexVm_span, on the winning row: a group that the row has no slots for, or that was not closed,
-- has no span.
abbrev pub vm_span : Row → ℕ → Span
vm_span best group =
    let span : Span = record {
      start = get_or best (2 * group) none;
      end = get_or best (2 * group + 1) none;
    } in
    if ltb (2 * group + 1) (length best) && span_is_set span then span else no_span
