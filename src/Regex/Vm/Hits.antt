-- ===== src/Regex/Vm/Hits.antt =====
-- The threads of a closed list that stand on a run, and what such a thread does at a byte.
use vexspoke.Base.{
  ℕ, zero, suc, ◌+◌, ◌≡◌, ◌≢◌, ◌∙◌, refl, sym, ◌⊎◌, inl, inr, List, [], Bool, true, false, arith,
  length, get_elem?, Option, none, some,
}
use vexspoke.Regex.CharClass.{CharClass}
use vexspoke.Regex.Program.{Op, char, any, class, split, jump, save, bol, eol, match, Inst, Program}
use vexspoke.Regex.Vm.{Options, Row, ThreadList, is_match, inst_matches, folded}
use vexspoke.Regex.Vm.Visits.{Settled, Covered, Eps}
use vexspoke.Regex.Vm.Marks.{stays, InThreads}
use vexspoke.Regex.Language.Run.{StepBy, Run, step_by}

none_ne : (i : Inst) → ◌≡◌ {A = Option Inst} none (some i) → ⊥
none_ne i q = cc

pub false_ne : false ≢ true
false_ne e = cc

module _ (program : Program) (classes : List CharClass) (subject : List ℕ) (options : Options)
    (full : Bool) where
  -- The machine's list at a position: closed under the moves that need no byte.
  abbrev pub Closed : ℕ → ThreadList → Type 0
  Closed pos list = Settled program subject options.multiline pos list []

  abbrev pub Covers : ThreadList → ℕ → Type 0
  Covers list pc = Covered program subject options.multiline 0 list.seen [] pc

  -- What is left of a run to a MATCH that counts.
  pub record Remaining (pos pc : ℕ) : Type 0 where
    pub steps : ℕ
    pub end : ℕ
    pub last : ℕ
    pub run : Run classes subject options program.insts steps pc pos end last
    pub inst : Inst
    pub at_end : get_elem? program.insts end ≡ some inst
    pub is_end : inst.op ≡ match
    pub whole : full ≡ true → last ≡ length subject

  -- A step either takes a byte or follows a jump, a split, a save or an assertion.
  Eps-or_stays :
      (pos : ℕ) (i : Inst) (op : Op) (pc pc' pos' : ℕ)
      → StepBy classes subject options i op pc pos pc' pos'
      → (stays op ≡ true) ⊎ (Eps program subject options.multiline pos i op pc pc' × (pos' ≡ pos))
  Eps-or_stays pos i char pc pc' pos' s = inl refl
  Eps-or_stays pos i any pc pc' pos' s = inl refl
  Eps-or_stays pos i class pc pc' pos' s = inl refl
  Eps-or_stays pos i match pc pc' pos' s = inl refl
  Eps-or_stays pos i split pc pc' pos' s = inr (s.0, s.1)
  Eps-or_stays pos i jump pc pc' pos' s = inr (s.0, s.1)
  Eps-or_stays pos i save pc pc' pos' s = inr (s.0 ∙ (omega arith), s.1)
  Eps-or_stays pos i bol pc pc' pos' s = inr ((s.0, s.1 ∙ (omega arith)), s.2)
  Eps-or_stays pos i eol pc pc' pos' s = inr ((s.0, s.1 ∙ (omega arith)), s.2)

  -- A thread of the list with what is left of a run.
  pub record Hit (pos : ℕ) (threads : List (ℕ × Row)) : Type 0 where
    pub pc : ℕ
    pub there : InThreads pc threads
    pub inst : Inst
    pub present : get_elem? program.insts pc ≡ some inst
    pub staying : stays inst.op ≡ true
    pub left : Remaining pos pc

  thread_at :
      (pos pc : ℕ) (list : ThreadList) (i : Inst) (left : Remaining pos pc)
      → Closed pos list
      → Covers list pc
      → get_elem? program.insts pc ≡ some i
      → stays i.op ≡ true
      → Hit pos list.threads
  thread_at pos pc list i left all (inl seen) e stay = record {
    pc = pc;
    there = all.kept pc i seen e stay;
    inst = i;
    present = e;
    staying = stay;
    left = left;
  }
  thread_at pos pc list i left all (inr (inr never)) e stay = elim never [ ]
  thread_at pos pc list i left all (inr (inl n)) e stay = absurd (none_ne i (sym n ∙ e))

  pub follow :
      (pos steps pc end last : ℕ) (list : ThreadList) (m : Inst)
      → Closed pos list
      → Covers list pc
      → Run classes subject options program.insts steps pc pos end last
      → get_elem? program.insts end ≡ some m
      → m.op ≡ match
      → (full ≡ true → last ≡ length subject)
      → Hit pos list.threads
  follow pos zero pc end last list m all cover r at_m is_m whole =
      let left : Remaining pos pc = record {
        steps = 0;
        end = end;
        last = last;
        run = r;
        inst = m;
        at_end = at_m;
        is_end = is_m;
        whole = whole;
      } in
      thread_at pos pc list m left all cover (rw (sym r.0) at at_m) (rw is_m refl)
  follow pos (suc steps) pc end last list m all cover (pc', pos', (i, e, s), r) at_m is_m whole =
      let left : Remaining pos pc = record {
        steps = suc steps;
        end = end;
        last = last;
        run = (pc', pos', (i, e, s), r);
        inst = m;
        at_end = at_m;
        is_end = is_m;
        whole = whole;
      } in
      elim (Eps-or_stays pos i i.op pc pc' pos' s) [
        | inl stay ↦ thread_at pos pc list i left all cover e stay
        | inr (eps, same) ↦
            follow pos steps pc' end last list m all (goes cover e eps) (rw same at r) at_m is_m
              whole
      ]
    where
      goes :
          Covers list pc
          → get_elem? program.insts pc ≡ some i
          → Eps program subject options.multiline pos i i.op pc pc'
          → Covers list pc'
      goes (inl seen) e eps = all.closed pc pc' i seen e eps
      goes (inr (inr never)) e eps = elim never [ ]
      goes (inr (inl n)) e eps = absurd (none_ne i (sym n ∙ e))

  pub is_match-true :
      (pc : ℕ) (m : Inst)
      → get_elem? program.insts pc ≡ some m
      → m.op ≡ match
      → is_match program classes subject options full pc ≡ true
  is_match-true pc m e o = rw (is_match, e, o) refl

  pub op_of_match :
      (pc : ℕ) (i : Inst)
      → get_elem? program.insts pc ≡ some i
      → is_match program classes subject options full pc ≡ true
      → i.op ≡ match
  op_of_match pc i e t = only i.op (rw (is_match, e) at t)
    where
      only : (op : Op) → (elim op [ match ↦ true | _ ↦ false ]) ≡ true → op ≡ match
      only match t = refl
      only char t = let never : false ≡ true = t in cc
      only any t = let never : false ≡ true = t in cc
      only class t = let never : false ≡ true = t in cc
      only split t = let never : false ≡ true = t in cc
      only jump t = let never : false ≡ true = t in cc
      only save t = let never : false ≡ true = t in cc
      only bol t = let never : false ≡ true = t in cc
      only eol t = let never : false ≡ true = t in cc

  -- The byte that a thread takes, and what is left of its run behind it.
  pub record Taken (pos pc : ℕ) (i : Inst) : Type 0 where
    pub byte : ℕ
    pub present : get_elem? subject pos ≡ some byte
    pub accepted : inst_matches classes i i.op (folded options byte) options ≡ true
    pub left : Remaining (pos + 1) (pc + 1)

  takes :
      (pos pc pc' pos' : ℕ) (i : Inst) (op : Op)
      → stays op ≡ true
      → StepBy classes subject options i op pc pos pc' pos'
      → (byte : ℕ) × (get_elem? subject pos ≡ some byte)
        × (inst_matches classes i op (folded options byte) options ≡ true)
        × (pc' ≡ suc pc)
        × (pos' ≡ suc pos)
  takes pos pc pc' pos' i char stay s = s
  takes pos pc pc' pos' i any stay s = s
  takes pos pc pc' pos' i class stay s = s
  takes pos pc pc' pos' i match stay s = elim s [ ]
  takes pos pc pc' pos' i split stay s = absurd (false_ne stay)
  takes pos pc pc' pos' i jump stay s = absurd (false_ne stay)
  takes pos pc pc' pos' i save stay s = absurd (false_ne stay)
  takes pos pc pc' pos' i bol stay s = absurd (false_ne stay)
  takes pos pc pc' pos' i eol stay s = absurd (false_ne stay)

  -- A thread of a hit is at the end of the run, at the place where it may end, or takes a byte.
  pub ends_or_takes :
      (pos pc : ℕ) (i : Inst)
      → get_elem? program.insts pc ≡ some i
      → stays i.op ≡ true
      → Remaining pos pc
      → ((is_match program classes subject options full pc ≡ true)
          × (full ≡ true → pos ≡ length subject))
        ⊎ Taken pos pc i
  ends_or_takes pos pc i e stay left = by_steps left.steps left.run
    where
      by_steps :
          (steps : ℕ)
          → Run classes subject options program.insts steps pc pos left.end left.last
          → ((is_match program classes subject options full pc ≡ true)
              × (full ≡ true → pos ≡ length subject))
            ⊎ Taken pos pc i
      by_steps zero r =
          inl (is_match-true pc left.inst (rw r.0 left.at_end) left.is_end, λ t. r.1 ∙ left.whole t)
      by_steps (suc n) (pc', pos', s, r) =
          let (byte, present, accepted, at_pc, at_pos) =
            takes pos pc pc' pos' i i.op stay
              (step_by classes subject options program.insts pc pos pc' pos' i e s) in
          let q : pc' ≡ pc + 1 = at_pc ∙ (omega arith) in
          let q' : pos' ≡ pos + 1 = at_pos ∙ (omega arith) in
          inr (record {
            byte = byte;
            present = present;
            accepted = accepted;
            left = record {
              steps = n;
              end = left.end;
              last = left.last;
              run = rw (q, q') at r;
              inst = left.inst;
              at_end = left.at_end;
              is_end = left.is_end;
              whole = left.whole;
            };
          })
