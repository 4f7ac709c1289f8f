-- ===== src/Regex/Vm/Threads.antt =====
-- What each instruction keeps of a thread holds of the thread that RegexVm_run reports.
use vexspoke.Base.{
  ℕ, zero, suc, ◌+◌, ◌≤◌, ◌≡◌, ◌≢◌, refl, ap, inl, inr, List, [], ◌∷◌, ◌++◌, Bool, true, false, not,
  ◌&&◌, ◌||◌, ◌==◌, leb, arith, length, get_elem?, get_or, set as set_elem, Option, none, some,
  Bool-cases, Option-cases, if◌then◌else◌,
}
use vexspoke.Regex.CharClass.{CharClass}
use vexspoke.Regex.Program.{
  Op, char, any, class, split, jump, save, bol, eol, match, Inst, Program, count,
}
use vexspoke.Regex.Vm.{
  Options, Task, expand, restore, Row, ThreadList, no_threads, mark, keep, visit, close, add_thread,
  advance, is_match, step_threads, newer, run_from, inst_matches, folded, is_some,
}
use vexspoke.Regex.Language.Run.{StepBy}

true_ne : false ≢ true
true_ne e = cc

set-set_get :
    (row : Row) (slot : ℕ) (v : Option ℕ)
    → set_elem (set_elem row slot v) slot (get_or row slot none) ≡ row
set-set_get [] slot v = refl
set-set_get (x ∷ row) zero v = refl
set-set_get (x ∷ row) (suc slot) v = ap (λ (r : Row). x ∷ r) (set-set_get row slot v)

-- The capture row behind an instruction at a position.
abbrev pub row_after : Op → ℕ → ℕ → Row → Row
row_after save slot pos row = set_elem row slot (some pos)
row_after char slot pos row = row
row_after any slot pos row = row
row_after class slot pos row = row
row_after split slot pos row = row
row_after jump slot pos row = row
row_after bol slot pos row = row
row_after eol slot pos row = row
row_after match slot pos row = row

-- What holds of a thread at a position, if each instruction keeps it.
module _ (program : Program) (classes : List CharClass) (subject : List ℕ) (options : Options)
    (anchored full : Bool) (seed : Row) (Alive : ℕ → ℕ → Row → Type 0)
    (moves : (pos pc pos' pc' : ℕ) (row : Row) (i : Inst)
      → get_elem? program.insts pc ≡ some i
      → StepBy classes subject options i i.op pc pos pc' pos'
      → Alive pos pc row
      → Alive pos' pc' (row_after i.op i.a pos row))
    (begins : (pos : ℕ)
      → pos ≤ length subject
      → (anchored ≡ true → pos ≡ 0)
      → Alive pos 0 seed) where
  abbrev AllAlive : ℕ → List (ℕ × Row) → Type 0
  AllAlive pos [] = Unit
  AllAlive pos ((pc, row) ∷ ts) = Alive pos pc row × AllAlive pos ts

  -- Each task, with the working row that it will be run with.
  abbrev TasksAlive : ℕ → Row → List Task → Type 0
  TasksAlive pos work [] = Unit
  TasksAlive pos work (expand pc ∷ ts) = Alive pos pc work × TasksAlive pos work ts
  TasksAlive pos work (restore slot v ∷ ts) = TasksAlive pos (set_elem work slot v) ts

  AllAlive-snoc :
      (pos pc : ℕ) (row : Row) (ts : List (ℕ × Row))
      → AllAlive pos ts
      → Alive pos pc row
      → AllAlive pos (ts ++ (pc, row) ∷ [])
  AllAlive-snoc pos pc row [] all one = (one, tt)
  AllAlive-snoc pos pc row (t ∷ ts) all one = (all.0, AllAlive-snoc pos pc row ts all.1 one)

  keep-Alive :
      (rows pos pc : ℕ) (work : Row) (list : ThreadList)
      → AllAlive pos list.threads
      → Alive pos pc work
      → AllAlive pos (ThreadList.threads (keep rows pc work list))
  unfolding keep
  keep-Alive rows pos pc work list all one = elim (Bool-cases (leb rows (length list.threads))) [
    | inl t ↦ rw t all
    | inr f ↦ rw f (AllAlive-snoc pos pc work list.threads all one)
  ]

  if-Alive :
      (pos pc : ℕ) (b : Bool) (work : Row) (stack : List Task)
      → TasksAlive pos work stack
      → (b ≡ true → Alive pos pc work)
      → TasksAlive pos work (if b then expand pc ∷ stack else stack)
  if-Alive pos pc true work stack ks one = (one refl, ks)
  if-Alive pos pc false work stack ks one = ks

  visit-Alive :
      (pos pc : ℕ) (i : Inst) (op : Op) (list : ThreadList) (work : Row) (stack : List Task)
      → Alive pos pc work
      → ((pc' : ℕ)
          → StepBy classes subject options i op pc pos pc' pos
          → Alive pos pc' (row_after op i.a pos work))
      → AllAlive pos list.threads
      → TasksAlive pos work stack
      → let next = visit program subject options.multiline pos i op pc list work stack in
        AllAlive pos (next.0).threads × TasksAlive pos next.1 next.2
  unfolding visit
  visit-Alive pos pc i jump list work stack here step all ks = (all, (step i.a (refl, refl), ks))
  visit-Alive pos pc i split list work stack here step all ks =
      (all, (step i.a (inl refl, refl), (step i.b (inr refl, refl), ks)))
  visit-Alive pos pc i save list work stack here step all ks =
      (all, (step (pc + 1) (omega arith, refl), rw (set-set_get work i.a (some pos)) ks))
  visit-Alive pos pc i bol list work stack here step all ks =
      (all, if-Alive pos (pc + 1) _ work stack ks (λ t. step (pc + 1) (t, omega arith, refl)))
  visit-Alive pos pc i eol list work stack here step all ks =
      (all, if-Alive pos (pc + 1) _ work stack ks (λ t. step (pc + 1) (t, omega arith, refl)))
  visit-Alive pos pc i char list work stack here step all ks =
      (keep-Alive _ pos pc work list all here, ks)
  visit-Alive pos pc i any list work stack here step all ks =
      (keep-Alive _ pos pc work list all here, ks)
  visit-Alive pos pc i class list work stack here step all ks =
      (keep-Alive _ pos pc work list all here, ks)
  visit-Alive pos pc i match list work stack here step all ks =
      (keep-Alive _ pos pc work list all here, ks)

  close-Alive :
      (fuel pos : ℕ) (list : ThreadList) (work : Row) (stack : List Task)
      → AllAlive pos list.threads
      → TasksAlive pos work stack
      → AllAlive pos
          (ThreadList.threads (close program subject options.multiline pos fuel list work stack))
  unfolding close
  close-Alive fuel pos list work [] all ks = all
  close-Alive zero pos list work (t ∷ stack) all ks = all
  close-Alive (suc fuel) pos list work (restore slot v ∷ stack) all ks =
      close-Alive fuel pos list _ stack all ks
  close-Alive (suc fuel) pos list work (expand pc ∷ stack) all ks =
      elim (Bool-cases (get_or list.seen pc false)) [
        | inl t ↦ rw (AllAlive, close, t) (close-Alive fuel pos list work stack all ks.1)
        | inr f ↦ elim (Option-cases (get_elem? program.insts pc)) [
          | inl n ↦
              rw (AllAlive, close, f, n) (close-Alive fuel pos (mark pc list) work stack all ks.1)
          | inr (i, e) ↦
              let went =
                visit program subject options.multiline pos i i.op pc (mark pc list) work stack in
              let next =
                visit-Alive pos pc i i.op (mark pc list) work stack ks.0
                  (λ pc' s. moves pos pc pos pc' work i e s ks.0) all ks.1 in
              rw (AllAlive, close, f, e) (close-Alive fuel pos went.0 went.1 went.2 next.0 next.1)
        ]
      ]

  add_thread-Alive :
      (pos : ℕ) (list : ThreadList) (pc : ℕ) (row : Row)
      → AllAlive pos list.threads
      → Alive pos pc row
      → AllAlive pos
          (ThreadList.threads (add_thread program subject options.multiline pos list pc row))
  unfolding add_thread
  add_thread-Alive pos list pc row all here = close-Alive _ pos list row _ all (here, tt)

  matched_step :
      (i : Inst) (op : Op) (pc pos byte : ℕ)
      → get_elem? subject pos ≡ some byte
      → inst_matches classes i op (folded options byte) options ≡ true
      → StepBy classes subject options i op pc pos (pc + 1) (pos + 1)
  unfolding inst_matches
  matched_step i char pc pos byte e t = (byte, e, t, omega arith, omega arith)
  matched_step i any pc pos byte e t = (byte, e, t, omega arith, omega arith)
  matched_step i class pc pos byte e t = (byte, e, t, omega arith, omega arith)
  matched_step i split pc pos byte e t = absurd (true_ne t)
  matched_step i jump pc pos byte e t = absurd (true_ne t)
  matched_step i save pc pos byte e t = absurd (true_ne t)
  matched_step i bol pc pos byte e t = absurd (true_ne t)
  matched_step i eol pc pos byte e t = absurd (true_ne t)
  matched_step i match pc pos byte e t = absurd (true_ne t)

  same_row :
      (i : Inst) (op : Op) (pos byte : ℕ) (row : Row)
      → inst_matches classes i op (folded options byte) options ≡ true
      → row_after op i.a pos row ≡ row
  unfolding inst_matches
  same_row i char pos byte row t = refl
  same_row i any pos byte row t = refl
  same_row i class pos byte row t = refl
  same_row i split pos byte row t = refl
  same_row i jump pos byte row t = refl
  same_row i save pos byte row t = absurd (true_ne t)
  same_row i bol pos byte row t = refl
  same_row i eol pos byte row t = refl
  same_row i match pos byte row t = refl

  advance-Alive :
      (pos pc : ℕ) (row : Row) (next : ThreadList)
      → Alive pos pc row
      → AllAlive (pos + 1) next.threads
      → AllAlive
          (pos + 1)
          (ThreadList.threads (advance program classes subject options full pos pc row next))
  unfolding advance
  advance-Alive pos pc row next here all = elim (Option-cases (get_elem? subject pos)) [
    | inl n ↦ rw (AllAlive, advance, n) all
    | inr (byte, e) ↦ elim (Option-cases (get_elem? program.insts pc)) [
      | inl n ↦ rw (AllAlive, advance, e, n) all
      | inr (i, at_pc) ↦
          elim (Bool-cases (inst_matches classes i i.op (folded options byte) options)) [
            | inl t ↦
                let went =
                  moves pos pc (pos + 1) (pc + 1) row i at_pc (matched_step i i.op pc pos byte e t)
                    here in
                let same = same_row i i.op pos byte row t in
                rw (AllAlive, advance, e, at_pc, t)
                  (add_thread-Alive (pos + 1) next (pc + 1) row all (rw same at went))
            | inr f ↦ rw (AllAlive, advance, e, at_pc, f) all
          ]
    ]
  ]

  -- A thread at a MATCH that counts.
  pub record Accepting (pos : ℕ) (row : Row) : Type 0 where
    pub pc : ℕ
    pub alive : Alive pos pc row
    pub at_match : is_match program classes subject options full pc ≡ true
    pub whole : full ≡ true → pos ≡ length subject

  abbrev pub Won : Option Row → Type 0
  Won none = Unit
  Won (some row) = (pos : ℕ) × Accepting pos row

  step_threads-Alive :
      (pos : ℕ) (ts : List (ℕ × Row)) (next : ThreadList)
      → AllAlive pos ts
      → AllAlive (pos + 1) next.threads
      → let stepped = step_threads program classes subject options full pos ts next in
        AllAlive (pos + 1) (stepped.0).threads × Won stepped.1
  unfolding step_threads
  step_threads-Alive pos [] next all rest = (rest, tt)
  step_threads-Alive pos ((pc, row) ∷ ts) next all rest =
      elim (Bool-cases (is_match program classes subject options full pc)) [
        | inl t ↦ elim (Bool-cases (full && not (pos == length subject))) [
          | inl skip ↦
              rw (AllAlive, Won, step_threads, t, skip) (step_threads-Alive pos ts next all.1 rest)
          | inr f ↦
              rw (AllAlive, Won, step_threads, t, f)
                (
                  rest,
                  (
                    pos,
                    record {
                      pc = pc;
                      alive = all.0;
                      at_match = t;
                      whole = λ is_full. ground (arith, f, is_full);
                    },
                  ),
                )
        ]
        | inr f ↦
            rw (AllAlive, Won, step_threads, f)
              (step_threads-Alive pos ts _ all.1 (advance-Alive pos pc row next all.0 rest))
      ]

  newer-Won : (a b : Option Row) → Won a → Won b → Won (newer a b)
  newer-Won none b w w' = w'
  newer-Won (some row) b w w' = w

  AllAlive-started :
      (pos : ℕ) (b : Bool) (list : ThreadList)
      → AllAlive pos list.threads
      → pos ≤ length subject
      → (b ≡ true → anchored ≡ true → pos ≡ 0)
      → AllAlive pos (
          ThreadList.threads
            (if b then add_thread program subject options.multiline pos list 0 seed else list))
  AllAlive-started pos true list all h start =
      add_thread-Alive pos list 0 seed all (begins pos h (start refl))
  AllAlive-started pos false list all h start = all

  pub run_from-Won :
      (rounds pos : ℕ) (current : ThreadList) (best : Option Row)
      → AllAlive pos current.threads
      → Won best
      → pos + rounds ≤ suc (length subject)
      → Won (run_from program classes subject options full anchored seed rounds pos current best)
  unfolding run_from
  run_from-Won zero pos current best all w h = w
  run_from-Won (suc rounds) pos current best all w h =
      elim (Bool-cases (length current.threads == 0 && is_some best)) [
        | inl t ↦ rw (Won, run_from, t) w
        | inr f ↦
            let starts = not (is_some best) && (not anchored || pos == 0) in
            let begun =
              AllAlive-started pos starts current all (omega (arith, h))
                (λ t a. ground (arith, t, a)) in
            let next = step_threads-Alive pos _ (no_threads (count program)) begun tt in
            rw (Won, run_from, f)
              (run_from-Won rounds (pos + 1) _ _ next.0 (newer-Won _ best next.1 w)
                (omega (arith, h)))
      ]
