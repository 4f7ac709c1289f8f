-- ===== src/Regex/Language/Complete.antt =====
-- The code of a tree runs over each stretch that the tree matches.
use vexspoke.Base.{ℕ, zero, suc, ◌+◌, ◌≡◌, refl, sym, inl, inr, List, arith, length}
use vexspoke.Regex.CharClass.{CharClass}
use vexspoke.Regex.Program.{Inst}
use vexspoke.Regex.Program.Tree.{Ast}
use vexspoke.Regex.Program.Code.{size, code, length-code}
use vexspoke.Regex.Vm.{Options, inst_matches}
use vexspoke.Regex.Language.{Matches}
use vexspoke.Regex.Language.Run.{Stands, Stands-append, Step, Reach, Reach-trans, Reach-Step}

module _ (classes : List CharClass) (subject : List ℕ) (options : Options) (insts : List Inst) where
  abbrev pub Leads : ℕ → ℕ → ℕ → ℕ → Type 0
  Leads pc pos end last = Reach classes subject options insts pc pos end last

  -- A step to a program counter that is known by an equation.
  pub to :
      {pos pos' : ℕ} (pc pc' end : ℕ)
      → pc' ≡ end
      → Step classes subject options insts pc pos pc' pos'
      → Leads pc pos end pos'
  to pc pc' end e s = rw (sym e) (Reach-Step classes subject options insts s)

  moved :
      {pos last : ℕ} (pc end end' : ℕ) → end ≡ end' → Leads pc pos end last → Leads pc pos end' last
  moved pc end end' e r = rw (sym e) r

  from : {pos last : ℕ} (pc pc' end : ℕ) → pc ≡ pc' → Leads pc' pos end last → Leads pc pos end last
  from pc pc' end e r = rw e r

  stay : (pc end pos : ℕ) → pc ≡ end → Leads pc pos end pos
  stay pc end pos e = record { steps = 0; by_run = (e, refl) }

  pub over :
      {pos pos' last : ℕ} {pc pc' end : ℕ}
      → Leads pc pos pc' pos'
      → Leads pc' pos' end last
      → Leads pc pos end last
  over = Reach-trans classes subject options insts

  pub complete :
      {x : Ast} {i j : ℕ} (pc : ℕ)
      → Matches classes subject options x i j
      → Stands insts pc (code pc x)
      → Leads pc i (pc + size x) j
  unfolding inst_matches
  complete pc (Matches.empty i) s = stay pc _ i (omega arith)
  complete pc (Matches.char c i b) s =
      to pc (suc pc) _ (omega arith) (_, s.0, (b.byte, b.present, b.accepted, refl, refl))
  complete pc (Matches.any i b) s =
      to pc (suc pc) _ (omega arith) (_, s.0, (b.byte, b.present, b.accepted, refl, refl))
  complete pc (Matches.class k i b) s =
      to pc (suc pc) _ (omega arith) (_, s.0, (b.byte, b.present, b.accepted, refl, refl))
  complete pc (Matches.bol i t) s = to pc (suc pc) _ (omega arith) (_, s.0, (t, refl, refl))
  complete pc (Matches.eol i t) s = to pc (suc pc) _ (omega arith) (_, s.0, (t, refl, refl))
  complete pc (Matches.concat {x} {y} i j k m m') s =
      let parts = Stands-append insts pc (code pc x) (code (pc + size x) y) s in
      let e : pc + length (code pc x) ≡ pc + size x = omega (arith, length-code pc x) in
      moved pc _ _ (omega arith)
        (over (complete pc m parts.0) (complete (pc + size x) m' (rw e at parts.1)))
  complete pc (Matches.left {x} {y} i j m) s =
      let parts = Stands-append insts (suc pc) (code (suc pc) x) _ s.1 in
      let e : suc pc + length (code (suc pc) x) ≡ suc pc + size x =
        omega (arith, length-code (suc pc) x) in
      let rest = rw e at parts.1 in
      over (to pc (suc pc) _ refl (_, s.0, (inl refl, refl))) (
        over (complete (suc pc) m parts.0)
          (to (suc pc + size x) _ _ (omega arith) (_, rest.0, (refl, refl))))
  complete pc (Matches.right {x} {y} i j m) s =
      let after = suc (suc (pc + size x)) in
      let parts = Stands-append insts (suc pc) (code (suc pc) x) _ s.1 in
      let e : suc (suc pc + length (code (suc pc) x)) ≡ after =
        omega (arith, length-code (suc pc) x) in
      over (to pc after _ refl (_, s.0, (inr refl, refl)))
        (moved after _ _ (omega arith) (complete after m (rw e at parts.1.1)))
  complete pc (Matches.star_end {x} i) s = to pc _ _ (omega arith) (_, s.0, (inr refl, refl))
  complete pc (Matches.star_more {x} i j k m m') s =
      let parts = Stands-append insts (suc pc) (code (suc pc) x) _ s.1 in
      let e : suc pc + length (code (suc pc) x) ≡ suc pc + size x =
        omega (arith, length-code (suc pc) x) in
      let rest = rw e at parts.1 in
      over (to pc (suc pc) _ refl (_, s.0, (inl refl, refl))) (
        over (complete (suc pc) m parts.0)
          (over (to (suc pc + size x) pc _ refl (_, rest.0, (refl, refl))) (complete pc m' s)))
  complete pc (Matches.plus_end {x} i j m) s =
      let parts = Stands-append insts pc (code pc x) _ s in
      let e : pc + length (code pc x) ≡ pc + size x = omega (arith, length-code pc x) in
      let rest = rw e at parts.1 in
      over (complete pc m parts.0)
        (to (pc + size x) _ _ (omega arith) (_, rest.0, (inr refl, refl)))
  complete pc (Matches.plus_more {x} i j k m m') s =
      let parts = Stands-append insts pc (code pc x) _ s in
      let e : pc + length (code pc x) ≡ pc + size x = omega (arith, length-code pc x) in
      let rest = rw e at parts.1 in
      over (complete pc m parts.0)
        (over (to (pc + size x) pc _ refl (_, rest.0, (inl refl, refl))) (complete pc m' s))
  complete pc (Matches.skipped {x} i) s = to pc _ _ (omega arith) (_, s.0, (inr refl, refl))
  complete pc (Matches.taken {x} i j m) s =
      over (to pc (suc pc) _ refl (_, s.0, (inl refl, refl)))
        (moved (suc pc) _ _ (omega arith) (complete (suc pc) m s.1))
  complete pc (Matches.group {x} zero i j m) s = complete pc m s
  complete pc (Matches.group {x} (suc g) i j m) s =
      let parts = Stands-append insts (suc pc) (code (suc pc) x) _ s.1 in
      let e : suc pc + length (code (suc pc) x) ≡ suc pc + size x =
        omega (arith, length-code (suc pc) x) in
      let rest = rw e at parts.1 in
      over (to pc (suc pc) _ refl (_, s.0, (refl, refl))) (
        over (complete (suc pc) m parts.0)
          (to (suc pc + size x) _ _ (omega arith) (_, rest.0, (refl, refl))))
