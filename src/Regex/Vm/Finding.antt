-- ===== src/Regex/Vm/Finding.antt =====
-- RegexVm_run and RegexVm_runFull find a match where the pattern has one.
use vexspoke.Base.{
  ℕ, zero, suc, ◌+◌, ◌≤◌, ◌≡◌, ◌∙◌, refl, sym, ◌⊎◌, inl, inr, List, [], ◌∷◌, Bool, true, false, not,
  ◌&&◌, ◌||◌, ◌==◌, arith, length, get_elem?, Option, none, some, Bool-cases, Option-cases,
  if◌then◌else◌,
}
use vexspoke.Regex.CharClass.{CharClass}
use vexspoke.Regex.Program.{match, Inst, Program, count}
use vexspoke.Regex.Vm.{
  Options, Row, ThreadList, no_threads, add_thread, advance, is_match, is_some, newer, step_threads,
  run_from, inst_matches, folded,
}
use vexspoke.Regex.Vm.Closure.{add_thread-Settled, no_threads-Settled}
use vexspoke.Regex.Vm.Marks.{InThreads, get_elem?-lt}
use vexspoke.Regex.Vm.Hits.{
  false_ne, Closed, Covers, Remaining, Hit, follow, Taken, op_of_match, ends_or_takes,
}

module _ (program : Program) (classes : List CharClass) (subject : List ℕ) (options : Options)
    (full : Bool) where
  -- What a step of a thread does to the next list.
  abbrev Extends : ℕ → ThreadList → ThreadList → Type 0
  Extends pos list list' =
      Closed program classes subject options full pos list'
      × ((q : ℕ)
          → Covers program classes subject options full list q
          → Covers program classes subject options full list' q)

  advance-Extends :
      (pos pc : ℕ) (row : Row) (next : ThreadList)
      → Closed program classes subject options full (pos + 1) next
      → Extends (pos + 1) next (advance program classes subject options full pos pc row next)
  unfolding advance
  advance-Extends pos pc row next all = elim (Option-cases (get_elem? subject pos)) [
    | inl n ↦ rw (advance, n) (all, λ q c. c)
    | inr (byte, e) ↦ elim (Option-cases (get_elem? program.insts pc)) [
      | inl n ↦ rw (advance, e, n) (all, λ q c. c)
      | inr (i, at_pc) ↦
          elim (Bool-cases (inst_matches classes i i.op (folded options byte) options)) [
            | inl t ↦
                let (settled, here, more) =
                  add_thread-Settled program subject options.multiline (pos + 1) next (pc + 1) row
                    all in
                rw (advance, e, at_pc, t) (settled, more)
            | inr f ↦ rw (advance, e, at_pc, f) (all, λ q c. c)
          ]
    ]
  ]

  advance-Covers :
      (pos pc : ℕ) (row : Row) (next : ThreadList) (i : Inst)
      → Closed program classes subject options full (pos + 1) next
      → get_elem? program.insts pc ≡ some i
      → Taken program classes subject options full pos pc i
      → Covers program classes subject options full
          (advance program classes subject options full pos pc row next)
          (pc + 1)
  unfolding advance
  advance-Covers pos pc row next i all at_pc taken =
      let (settled, here, more) =
        add_thread-Settled program subject options.multiline (pos + 1) next (pc + 1) row all in
      rw (advance, taken.present, at_pc, taken.accepted) here

  step_threads-Extends :
      (pos : ℕ) (ts : List (ℕ × Row)) (next : ThreadList)
      → Closed program classes subject options full (pos + 1) next
      → Extends (pos + 1) next (step_threads program classes subject options full pos ts next).0
  unfolding step_threads
  step_threads-Extends pos [] next all = (all, λ q c. c)
  step_threads-Extends pos ((pc, row) ∷ ts) next all =
      elim (Bool-cases (is_match program classes subject options full pc)) [
        | inl t ↦ elim (Bool-cases (full && not (pos == length subject))) [
          | inl skip ↦ rw (step_threads, t, skip) (step_threads-Extends pos ts next all)
          | inr f ↦ rw (step_threads, t, f) (all, λ q c. c)
        ]
        | inr f ↦
            let one = advance-Extends pos pc row next all in
            let rest = step_threads-Extends pos ts _ one.0 in
            rw (step_threads, f) (rest.0, λ q c. rest.1 q (one.1 q c))
      ]

  -- A covered place with what is left of a run, at a position of the subject.
  pub record Promise (pos : ℕ) (list : ThreadList) : Type 0 where
    pub pc : ℕ
    pub covered : Covers program classes subject options full list pc
    pub left : Remaining program classes subject options full pos pc
    pub inside : pos ≤ length subject

  rehit :
      {pos : ℕ} {ts ts' : List (ℕ × Row)} (h : Hit program classes subject options full pos ts)
      → InThreads h.pc ts'
      → Hit program classes subject options full pos ts'
  rehit h there = record {
    pc = h.pc;
    there = there;
    inst = h.inst;
    present = h.present;
    staying = h.staying;
    left = h.left;
  }

  never_taken :
      (i : Inst) (byte : ℕ) → i.op ≡ match → inst_matches classes i i.op byte options ≡ true → ⊥
  unfolding inst_matches
  never_taken i byte is_m t = let none_taken = rw (inst_matches, is_m) at t in false_ne none_taken

  step_threads-finds :
      (pos : ℕ) (ts : List (ℕ × Row)) (next : ThreadList)
      → Closed program classes subject options full (pos + 1) next
      → Hit program classes subject options full pos ts
      → let stepped = step_threads program classes subject options full pos ts next in
        (is_some stepped.1 ≡ true) ⊎ Promise (pos + 1) stepped.0
  unfolding step_threads
  step_threads-finds pos [] next all hit = elim hit.there [ ]
  step_threads-finds pos ((pc, row) ∷ ts) next all hit =
      elim (Bool-cases (is_match program classes subject options full pc)) [
        | inl t ↦ elim (Bool-cases (full && not (pos == length subject))) [
          | inl skip ↦
              rw (step_threads, t, skip)
                (step_threads-finds pos ts next all (later_skip t skip hit.there))
          | inr f ↦ rw (step_threads, t, f) (inl refl)
        ]
        | inr f ↦
            let one = advance-Extends pos pc row next all in
            rw (step_threads, f)
              (behind f one.0 (λ h. step_threads-finds pos ts _ one.0 h) hit.there)
      ]
    where
      later_skip :
          is_match program classes subject options full pc ≡ true
          → (full && not (pos == length subject)) ≡ true
          → InThreads hit.pc ((pc, row) ∷ ts)
          → Hit program classes subject options full pos ts
      later_skip t skip (inr there) = rehit hit there
      later_skip t skip (inl here) =
          elim (ends_or_takes program classes subject options full pos hit.pc hit.inst hit.present
            hit.staying hit.left) [
              | inl (m, whole) ↦ absurd (ground (arith, skip, whole))
              | inr taken ↦
                  let is_m : hit.inst.op ≡ match =
                    op_of_match program classes subject options full hit.pc hit.inst hit.present
                      (rw here t) in
                  absurd (never_taken hit.inst _ is_m taken.accepted)
            ]

      behind :
          is_match program classes subject options full pc ≡ false
          → Closed program classes subject options full
              (pos + 1)
              (advance program classes subject options full pos pc row next)
          → (Hit program classes subject options full pos ts
              → let stepped =
                  step_threads program classes subject options full pos ts
                    (advance program classes subject options full pos pc row next) in
                (is_some stepped.1 ≡ true) ⊎ Promise (pos + 1) stepped.0)
          → InThreads hit.pc ((pc, row) ∷ ts)
          → let stepped =
              step_threads program classes subject options full pos ts
                (advance program classes subject options full pos pc row next) in
            (is_some stepped.1 ≡ true) ⊎ Promise (pos + 1) stepped.0
      behind f closed again (inr there) = again (rehit hit there)
      behind f closed again (inl here) =
          elim (ends_or_takes program classes subject options full pos hit.pc hit.inst hit.present
            hit.staying hit.left) [
              | inl (m, whole) ↦ let t = rw here at m in absurd (false_ne (sym f ∙ t))
              | inr taken ↦
                  let at_pc : get_elem? program.insts pc ≡ some hit.inst =
                    rw (sym here) hit.present in
                  let taken' : Taken program classes subject options full pos pc hit.inst =
                    rw (sym here) taken in
                  let cover = advance-Covers pos pc row next hit.inst all at_pc taken' in
                  inr (record {
                    pc = pc + 1;
                    covered = (step_threads-Extends pos ts _ closed).1 (pc + 1) cover;
                    left = taken'.left;
                    inside = omega (arith, get_elem?-lt subject pos taken'.byte taken'.present);
                  })
            ]

  newer-some : (a b : Option Row) → is_some b ≡ true → is_some (newer a b) ≡ true
  newer-some none b t = t
  newer-some (some row) b t = refl

  newer-some_left : (a b : Option Row) → is_some a ≡ true → is_some (newer a b) ≡ true
  newer-some_left none b t = absurd (false_ne t)
  newer-some_left (some row) b t = refl

  -- A run from the first instruction, which begins at a position that is still to come.
  pub record Coming (anchored : Bool) (pos : ℕ) : Type 0 where
    pub start : ℕ
    pub ahead : pos ≤ start
    pub inside : start ≤ length subject
    pub first : anchored ≡ true → start ≡ 0
    pub left : Remaining program classes subject options full start 0

  -- Why the loop of run will find a match: it has one, it is about to, or the match is still ahead.
  abbrev pub Hope : Bool → ℕ → ThreadList → Option Row → Type 0
  Hope anchored pos current best =
      (is_some best ≡ true) ⊎ (Promise pos current ⊎ Coming anchored pos)

  abbrev begun : Bool → Row → ℕ → ThreadList → Option Row → ThreadList
  begun anchored seed pos current best =
      if not (is_some best) && (not anchored || pos == 0)
      then add_thread program subject options.multiline pos current 0 seed
      else current

  begun-Closed :
      (b : Bool) (seed : Row) (pos : ℕ) (current : ThreadList)
      → Closed program classes subject options full pos current
      → let list =
          if b then add_thread program subject options.multiline pos current 0 seed else current in
        Extends pos current list × (b ≡ true → Covers program classes subject options full list 0)
  begun-Closed true seed pos current all =
      let (settled, here, more) =
        add_thread-Settled program subject options.multiline pos current 0 seed all in
      ((settled, more), λ t. here)
  begun-Closed false seed pos current all = ((all, λ q c. c), λ t. absurd (false_ne t))

  -- A promise that the list of a position makes is kept.
  promised :
      (anchored : Bool) (seed : Row) (pos : ℕ) (current : ThreadList) (best : Option Row)
      → let list = begun anchored seed pos current best in
        Closed program classes subject options full pos list
        → Promise pos list
        → let stepped =
            step_threads program classes subject options full pos list.threads
              (no_threads (count program)) in
          Hope anchored (pos + 1) stepped.0 (newer stepped.1 best)
  promised anchored seed pos current best all p =
      let list = begun anchored seed pos current best in
      let hit =
        follow program classes subject options full pos p.left.steps p.pc p.left.end p.left.last
          list p.left.inst all p.covered p.left.run p.left.at_end p.left.is_end p.left.whole in
      let empty = no_threads-Settled program subject options.multiline (pos + 1) in
      elim (step_threads-finds pos list.threads (no_threads (count program)) empty hit) [
        | inl t ↦ inl (newer-some_left _ best t)
        | inr q ↦ inr (inl q)
      ]

  -- The hopes of a position carry over to the next.
  next-Hope :
      (anchored : Bool) (seed : Row) (pos : ℕ) (current : ThreadList) (best : Option Row)
      → Closed program classes subject options full pos current
      → Hope anchored pos current best
      → let list = begun anchored seed pos current best in
        let stepped =
          step_threads program classes subject options full pos list.threads
            (no_threads (count program)) in
        Hope anchored (pos + 1) stepped.0 (newer stepped.1 best)
  next-Hope anchored seed pos current best all (inl t) = inl (newer-some _ best t)
  next-Hope anchored seed pos current best all (inr (inl p)) =
      let started = not (is_some best) && (not anchored || pos == 0) in
      let on = begun-Closed started seed pos current all in
      promised anchored seed pos current best on.0.0
        (record { pc = p.pc; covered = on.0.1 p.pc p.covered; left = p.left; inside = p.inside })
  next-Hope anchored seed pos current best all (inr (inr c)) = elim (Bool-cases (is_some best)) [
    | inl t ↦ inl (newer-some _ best t)
    | inr f ↦ elim (Bool-cases (c.start == pos)) [
      | inl now ↦
          let started = not (is_some best) && (not anchored || pos == 0) in
          let on = begun-Closed started seed pos current all in
          let same : c.start ≡ pos = ground (arith, now) in
          let goes : started ≡ true = rw f (starts anchored same c.first) in
          let left = c.left in
          promised anchored seed pos current best on.0.0 (record {
            pc = 0;
            covered = on.1 goes;
            left = rw same at left;
            inside = omega (arith, same, c.inside);
          })
      | inr later ↦ inr (
          inr (record {
            start = c.start;
            ahead = ground (arith, later, c.ahead);
            inside = c.inside;
            first = c.first;
            left = c.left;
          }))
    ]
  ]
    where
      starts : (b : Bool) → c.start ≡ pos → (b ≡ true → c.start ≡ 0) → (not b || pos == 0) ≡ true
      starts true same first = ground (arith, same, first refl)
      starts false same first = refl

  pub run_from-finds :
      (anchored : Bool) (seed : Row) (rounds pos : ℕ) (current : ThreadList) (best : Option Row)
      → pos + rounds ≡ suc (length subject)
      → Closed program classes subject options full pos current
      → Hope anchored pos current best
      → is_some
          (run_from program classes subject options full anchored seed rounds pos current best)
        ≡ true
  unfolding run_from
  run_from-finds anchored seed zero pos current best at all (inl t) = t
  run_from-finds anchored seed zero pos current best at all (inr (inl p)) =
      absurd (omega (arith, at, p.inside))
  run_from-finds anchored seed zero pos current best at all (inr (inr c)) =
      absurd (omega (arith, at, c.ahead, c.inside))
  run_from-finds anchored seed (suc rounds) pos current best at all hope =
      elim (Bool-cases (length current.threads == 0 && is_some best)) [
        | inl t ↦ rw (run_from, t) (ground (arith, t))
        | inr f ↦
            let list = begun anchored seed pos current best in
            let empty = no_threads-Settled program subject options.multiline (pos + 1) in
            let after = step_threads-Extends pos list.threads (no_threads (count program)) empty in
            rw (run_from, f)
              (run_from-finds anchored seed rounds (pos + 1) _ _ (omega (arith, at)) after.0
                (next-Hope anchored seed pos current best all hope))
      ]
