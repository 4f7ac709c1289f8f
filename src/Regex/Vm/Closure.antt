-- ===== src/Regex/Vm/Closure.antt =====
-- addThread follows every jump, split, save and assertion: the list that it leaves is closed.
use Prim.Native.Nat.{◌<◌}
use vexspoke.Base.{
  ℕ, zero, suc, ◌+◌, ◌*◌, ◌≤◌, ◌≡◌, ◌∙◌, refl, sym, ap, inl, inr, List, [], ◌∷◌, Bool, true, false,
  arith, length, length-set, length-replicate, get_elem?, get_or, set, Option, none, some,
  Bool-cases, Option-cases,
}
use vexspoke.Regex.Program.{Inst, Program, count}
use vexspoke.Regex.Vm.{
  Task, expand, restore, Row, ThreadList, no_threads, mark, visit, close, add_thread,
}
use vexspoke.Regex.Vm.Marks.{
  unseen, unseen-set, unseen-set_new, unseen-replicate, IsMarked, none_set, set_more, set_here,
  set_cases, get_elem?-lt, stays,
}
use vexspoke.Regex.Vm.Visits.{Eps, Covered, Settled, Settled-weaken, Visited, visit-Visited}

module _ (program : Program) (subject : List ℕ) (multiline : Bool) (pos : ℕ) where
  -- A visit to a place that was not seen keeps a list settled, and what was covered is covered.
  visit-Settled :
      (pc : ℕ) (i : Inst) (list : ThreadList) (work : Row) (stack : List Task)
      → get_elem? program.insts pc ≡ some i
      → get_or list.seen pc false ≡ false
      → Settled program subject multiline pos list (expand pc ∷ stack)
      → let next = visit program subject multiline pos i i.op pc (mark pc list) work stack in
        Settled program subject multiline pos next.0 next.2
        × ((q : ℕ)
            → Covered program subject multiline pos list.seen (expand pc ∷ stack) q
            → Covered program subject multiline pos (next.0).seen next.2 q)
        × (length next.2 + 2 * unseen (next.0).seen ≤ length stack + 2 * unseen list.seen)
  visit-Settled pc i list work stack e f all =
      let v = visit-Visited program subject multiline pos i i.op pc (mark pc list) work stack in
      let next = visit program subject multiline pos i i.op pc (mark pc list) work stack in
      let inside : pc < length list.seen =
        omega (arith, get_elem?-lt program.insts pc i e, all.sized) in
      let fresh = unseen-set_new list.seen pc f inside in
      let same = ap unseen v.seen_same in
      let covers : (q : ℕ)
          → Covered program subject multiline pos list.seen (expand pc ∷ stack) q
          → Covered program subject multiline pos (next.0).seen next.2 q =
        λ q. cover q next.0 next.2 v inside in
      (
        record {
          sized = ap length v.seen_same ∙ length-set list.seen pc true ∙ all.sized;
          room = omega (arith, v.at_most, fresh, same, all.room);
          closed = λ p q j m at_p lead. elim (set_cases list.seen pc p (rw v.seen_same at m)) [
            | inl here ↦ inr (inr (v.pushed q (led p j q here at_p lead)))
            | inr old ↦ covers q (all.closed p q j old at_p lead)
          ];
          kept = λ p j m at_p stay. elim (set_cases list.seen pc p (rw v.seen_same at m)) [
            | inl here ↦
                rw here (v.added (omega (arith, fresh, all.room)) (stayed p j here at_p stay))
            | inr old ↦ v.threads_more p (all.kept p j old at_p stay)
          ];
        },
        covers,
        omega (arith, v.grows, fresh, same),
      )
    where
      same_inst : (p : ℕ) (j : Inst) → p ≡ pc → get_elem? program.insts p ≡ some j → j ≡ i
      same_inst p j here at_p = inj j i (sym at_p ∙ rw here e)
        where
          inj : (x y : Inst) → ◌≡◌ {A = Option Inst} (some x) (some y) → x ≡ y
          inj x y q = cc

      led :
          (p : ℕ) (j : Inst) (q : ℕ)
          → p ≡ pc
          → get_elem? program.insts p ≡ some j
          → Eps program subject multiline pos j j.op p q
          → Eps program subject multiline pos i i.op pc q
      led p j q here at_p lead = let same = same_inst p j here at_p in rw (same, here) at lead

      stayed :
          (p : ℕ) (j : Inst)
          → p ≡ pc
          → get_elem? program.insts p ≡ some j
          → stays j.op ≡ true
          → stays i.op ≡ true
      stayed p j here at_p stay = rw (same_inst p j here at_p) at stay

      cover :
          (q : ℕ) (next : ThreadList) (rest : List Task)
          → Visited program subject multiline pos i i.op pc (mark pc list) stack next rest
          → pc < length list.seen
          → Covered program subject multiline pos list.seen (expand pc ∷ stack) q
          → Covered program subject multiline pos next.seen rest q
      cover q next rest v inside (inl s) = inl (rw v.seen_same (set_more list.seen pc q s))
      cover q next rest v inside (inr (inl n)) = inr (inl n)
      cover q next rest v inside (inr (inr (inl here))) =
          inl (rw (v.seen_same, here) (set_here list.seen pc inside))
      cover q next rest v inside (inr (inr (inr w))) = inr (inr (v.waits q w))

  -- A place outside the program changes nothing that is asked of a list.
  nowhere-Settled :
      (pc : ℕ) (list : ThreadList) (stack : List Task)
      → get_elem? program.insts pc ≡ none
      → Settled program subject multiline pos list (expand pc ∷ stack)
      → Settled program subject multiline pos (mark pc list) stack
        × ((q : ℕ)
            → Covered program subject multiline pos list.seen (expand pc ∷ stack) q
            → Covered program subject multiline pos (set list.seen pc true) stack q)
  nowhere-Settled pc list stack e all = (
    record {
      sized = length-set list.seen pc true ∙ all.sized;
      room = omega (arith, unseen-set list.seen pc, all.room);
      closed = λ p q j m at_p lead. cover q (all.closed p q j (before p j m at_p) at_p lead);
      kept = λ p j m at_p stay. all.kept p j (before p j m at_p) at_p stay;
    },
    cover,
  )
    where
      before :
          (p : ℕ) (j : Inst)
          → IsMarked (set list.seen pc true) p
          → get_elem? program.insts p ≡ some j
          → IsMarked list.seen p
      before p j m at_p = elim (set_cases list.seen pc p m) [
        | inl here ↦ absurd (none_ne j (sym e ∙ rw (sym here) at_p))
        | inr old ↦ old
      ]
        where
          none_ne : (j : Inst) → ◌≡◌ {A = Option Inst} none (some j) → ⊥
          none_ne j q = cc

      cover :
          (q : ℕ)
          → Covered program subject multiline pos list.seen (expand pc ∷ stack) q
          → Covered program subject multiline pos (set list.seen pc true) stack q
      cover q (inl s) = inl (set_more list.seen pc q s)
      cover q (inr (inl n)) = inr (inl n)
      cover q (inr (inr (inl here))) = inr (inl (rw here e))
      cover q (inr (inr (inr w))) = inr (inr w)

  close-Settled :
      (fuel : ℕ) (list : ThreadList) (work : Row) (stack : List Task)
      → Settled program subject multiline pos list stack
      → length stack + 2 * unseen list.seen ≤ fuel
      → let out = close program subject multiline pos fuel list work stack in
        Settled program subject multiline pos out []
        × ((q : ℕ)
            → Covered program subject multiline pos list.seen stack q
            → Covered program subject multiline pos out.seen [] q)
  unfolding close
  close-Settled fuel list work [] all enough = (all, λ q c. c)
  close-Settled zero list work (t ∷ stack) all enough = absurd (omega (arith, enough))
  close-Settled (suc fuel) list work (restore slot v ∷ stack) all enough =
      close-Settled fuel list _ stack
        (Settled-weaken program subject multiline pos list (restore slot v ∷ stack) stack (λ q c. c)
          all)
        (omega (arith, enough))
  close-Settled (suc fuel) list work (expand pc ∷ stack) all enough =
      elim (Bool-cases (get_or list.seen pc false)) [
        | inl t ↦
            let drop : (q : ℕ)
                → Covered program subject multiline pos list.seen (expand pc ∷ stack) q
                → Covered program subject multiline pos list.seen stack q =
              λ q. known q t in
            let rest =
              close-Settled fuel list work stack
                (Settled-weaken program subject multiline pos list (expand pc ∷ stack) stack drop
                  all)
                (omega (arith, enough)) in
            rw (close, t) (rest.0, λ q c. rest.1 q (drop q c))
        | inr f ↦ elim (Option-cases (get_elem? program.insts pc)) [
          | inl n ↦
              let (settled, cover) = nowhere-Settled pc list stack n all in
              let rest =
                close-Settled fuel (mark pc list) work stack settled
                  (omega (arith, enough, unseen-set list.seen pc)) in
              rw (close, f, n) (rest.0, λ q c. rest.1 q (cover q c))
          | inr (i, e) ↦
              let (settled, cover, less) = visit-Settled pc i list work stack e f all in
              let went = visit program subject multiline pos i i.op pc (mark pc list) work stack in
              let rest =
                close-Settled fuel went.0 went.1 went.2 settled (omega (arith, enough, less)) in
              rw (close, f, e) (rest.0, λ q c. rest.1 q (cover q c))
        ]
      ]
    where
      known :
          (q : ℕ)
          → IsMarked list.seen pc
          → Covered program subject multiline pos list.seen (expand pc ∷ stack) q
          → Covered program subject multiline pos list.seen stack q
      known q t (inl s) = inl s
      known q t (inr (inl n)) = inr (inl n)
      known q t (inr (inr (inl here))) = inl (rw here t)
      known q t (inr (inr (inr w))) = inr (inr w)

  -- addThread leaves a settled list settled, and covers the place that it is given: the capacity of
  -- its stack is enough.
  pub add_thread-Settled :
      (list : ThreadList) (pc : ℕ) (row : Row)
      → Settled program subject multiline pos list []
      → let out = add_thread program subject multiline pos list pc row in
        Settled program subject multiline pos out []
        × Covered program subject multiline pos out.seen [] pc
        × ((q : ℕ)
            → Covered program subject multiline pos list.seen [] q
            → Covered program subject multiline pos out.seen [] q)
  unfolding add_thread
  add_thread-Settled list pc row all =
      let done =
        close-Settled (count program * 4 + 8) list row (expand pc ∷ [])
          (Settled-weaken program subject multiline pos list [] (expand pc ∷ []) more all)
          (omega (arith, all.room)) in
      (done.0, done.1 pc (inr (inr (inl refl))), λ q c. done.1 q (more q c))
    where
      more :
          (q : ℕ)
          → Covered program subject multiline pos list.seen [] q
          → Covered program subject multiline pos list.seen (expand pc ∷ []) q
      more q (inl s) = inl s
      more q (inr (inl n)) = inr (inl n)
      more q (inr (inr w)) = inr (inr (inr w))

  pub no_threads-Settled : Settled program subject multiline pos (no_threads (count program)) []
  no_threads-Settled = record {
    sized = length-replicate (count program) false;
    room = omega (arith, unseen-replicate (count program));
    closed = λ pc q i m e p. absurd (none_set (count program) pc m);
    kept = λ pc i m e p. absurd (none_set (count program) pc m);
  }
