-- ===== src/Regex/Language/Run.antt =====
-- Runs of a program: what its instructions allow, with every choice at a split, and no threads.
use vexspoke.Base.{
  ℕ, zero, suc, ◌+◌, ◌≡◌, ◌∙◌, refl, sym, ◌⊎◌, List, [], ◌∷◌, ◌++◌, true, arith, length, get_elem?,
  Option, some,
}
use vexspoke.Regex.CharClass.{CharClass}
use vexspoke.Regex.Program.{Op, char, any, class, split, jump, save, bol, eol, match, Inst}
use vexspoke.Regex.Vm.{Options, folded, inst_matches, at_start, at_end}

-- A piece of code stands in a program at a program counter.
abbrev pub Stands : List Inst → ℕ → List Inst → Type 0
Stands insts pc [] = Unit
Stands insts pc (i ∷ is) = (get_elem? insts pc ≡ some i) × Stands insts (suc pc) is

pub Stands-append :
    (insts : List Inst) (pc : ℕ) (xs ys : List Inst)
    → Stands insts pc (xs ++ ys)
    → Stands insts pc xs × Stands insts (pc + length xs) ys
Stands-append insts pc [] ys s = let e : pc ≡ pc + 0 = omega arith in (tt, rw (sym e) s)
Stands-append insts pc (x ∷ xs) ys s =
    let rest = Stands-append insts (suc pc) xs ys s.1 in
    let e : suc pc + length xs ≡ pc + suc (length xs) = omega arith in
    ((s.0, rest.0), rw (sym e) rest.1)

module _ (classes : List CharClass) (subject : List ℕ) (options : Options) where
  -- What an instruction consumes.
  abbrev pub Consumes : Inst → Op → ℕ → ℕ → ℕ → ℕ → Type 0
  Consumes i op pc pos pc' pos' =
      (byte : ℕ) × (get_elem? subject pos ≡ some byte)
      × (inst_matches classes i op (folded options byte) options ≡ true)
      × (pc' ≡ suc pc)
      × (pos' ≡ suc pos)

  -- One step by an instruction, from a program counter and a position to the next.
  abbrev pub StepBy : Inst → Op → ℕ → ℕ → ℕ → ℕ → Type 0
  StepBy i char pc pos pc' pos' = Consumes i char pc pos pc' pos'
  StepBy i any pc pos pc' pos' = Consumes i any pc pos pc' pos'
  StepBy i class pc pos pc' pos' = Consumes i class pc pos pc' pos'
  StepBy i split pc pos pc' pos' = ((pc' ≡ i.a) ⊎ (pc' ≡ i.b)) × (pos' ≡ pos)
  StepBy i jump pc pos pc' pos' = (pc' ≡ i.a) × (pos' ≡ pos)
  StepBy i save pc pos pc' pos' = (pc' ≡ suc pc) × (pos' ≡ pos)
  StepBy i bol pc pos pc' pos' =
      (at_start subject options.multiline pos ≡ true) × (pc' ≡ suc pc) × (pos' ≡ pos)
  StepBy i eol pc pos pc' pos' =
      (at_end subject options.multiline pos ≡ true) × (pc' ≡ suc pc) × (pos' ≡ pos)
  StepBy i match pc pos pc' pos' = ⊥

  module _ (insts : List Inst) where
    abbrev pub Step : ℕ → ℕ → ℕ → ℕ → Type 0
    Step pc pos pc' pos' =
        (i : Inst) × (get_elem? insts pc ≡ some i) × StepBy i i.op pc pos pc' pos'

    -- So many steps, one after the other.
    abbrev pub Run : ℕ → ℕ → ℕ → ℕ → ℕ → Type 0
    Run zero pc pos end last = (pc ≡ end) × (pos ≡ last)
    Run (suc n) pc pos end last =
        (pc' : ℕ) × (pos' : ℕ) × Step pc pos pc' pos' × Run n pc' pos' end last

    pub Run-append :
        (m n pc pos pc' pos' end last : ℕ)
        → Run m pc pos pc' pos'
        → Run n pc' pos' end last
        → Run (m + n) pc pos end last
    Run-append zero n pc pos pc' pos' end last (e, f) r =
        let g : 0 + n ≡ n = omega arith in rw (g, e, f) r
    Run-append (suc m) n pc pos pc' pos' end last (pc1, pos1, s, r) r' =
        let g : suc m + n ≡ suc (m + n) = omega arith in
        rw g (pc1, pos1, s, Run-append m n pc1 pos1 pc' pos' end last r r')

    -- Some run leads from one place to another.
    pub record Reach (pc pos end last : ℕ) : Type 0 where
      pub steps : ℕ
      pub by_run : Run steps pc pos end last

    pub Reach-trans :
        {pc pos pc' pos' end last : ℕ}
        → Reach pc pos pc' pos'
        → Reach pc' pos' end last
        → Reach pc pos end last
    Reach-trans one two = record {
      steps = one.steps + two.steps;
      by_run = Run-append _ _ _ _ _ _ _ _ one.by_run two.by_run;
    }

    pub Reach-Step : {pc pos pc' pos' : ℕ} → Step pc pos pc' pos' → Reach pc pos pc' pos'
    Reach-Step s = record { steps = 1; by_run = (_, _, s, (refl, refl)) }

    -- The step from a program counter whose instruction is known is by that instruction.
    pub step_by :
        (pc pos pc' pos' : ℕ) (i : Inst)
        → get_elem? insts pc ≡ some i
        → Step pc pos pc' pos'
        → StepBy i i.op pc pos pc' pos'
    step_by pc pos pc' pos' i e (i', e', s) =
        let q : i' ≡ i = same i' i (sym e' ∙ e) in rw (sym q) s
      where
        same : (x y : Inst) → ◌≡◌ {A = Option Inst} (some x) (some y) → x ≡ y
        same x y e = cc
