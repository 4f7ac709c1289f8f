-- ===== src/Regex/Language/Sound.antt =====
-- A run over the code of a tree passes over a stretch that the tree matches.
use vexspoke.Base.{
  ℕ, zero, suc, ◌+◌, ◌≤◌, ◌≡◌, ◌∙◌, refl, sym, inl, inr, List, arith, length, get_elem?, some,
}
use Prim.Native.Nat.{◌<◌}
use vexspoke.Regex.CharClass.{CharClass}
use vexspoke.Regex.Program.{split, jump, Inst, inst}
use vexspoke.Regex.Program.Tree.{Ast}
use vexspoke.Regex.Program.Code.{size, code, length-code}
use vexspoke.Regex.Vm.{Options, inst_matches}
use vexspoke.Regex.Language.{Matches}
use vexspoke.Regex.Language.Run.{Stands, Stands-append, StepBy, Run, step_by}

module _ (classes : List CharClass) (subject : List ℕ) (options : Options) (insts : List Inst) where
  -- A run by its first step.
  pub record First (i : Inst) (n pc pos end last : ℕ) : Type 0 where
    pub after : ℕ
    pub fewer : suc after ≡ n
    pub next : ℕ
    pub next_pos : ℕ
    pub step : StepBy classes subject options i i.op pc pos next next_pos
    pub rest : Run classes subject options insts after next next_pos end last

  pub run_begins :
      {i : Inst} (n pc pos end last : ℕ)
      → get_elem? insts pc ≡ some i
      → pc < end
      → Run classes subject options insts n pc pos end last
      → First i n pc pos end last
  run_begins zero pc pos end last e lt (same, r) = absurd (omega (arith, same, lt))
  run_begins {i} (suc n) pc pos end last e lt (pc', pos', s, r) = record {
    after = n;
    fewer = refl;
    next = pc';
    next_pos = pos';
    step = step_by classes subject options insts pc pos pc' pos' i e s;
    rest = r;
  }

  pub at_place :
      (n end last pc pos pc' pos' : ℕ)
      → pc ≡ pc'
      → pos ≡ pos'
      → Run classes subject options insts n pc pos end last
      → Run classes subject options insts n pc' pos' end last
  at_place n end last pc pos pc' pos' e f r = rw (sym e, sym f) r

  -- A run that passes over a stretch that the tree matches, and then goes on with no more steps.
  pub record Passes (x : Ast) (pc i n end last : ℕ) : Type 0 where
    pub stop : ℕ
    pub left : ℕ
    pub fewer : left ≤ n
    pub matches : Matches classes subject options x i stop
    pub rest : Run classes subject options insts left (pc + size x) stop end last

  passed :
      {x : Ast} {ι : Inst} {pc n i end last : ℕ} (j : ℕ) (f : First ι n pc i end last)
      → f.next ≡ pc + size x
      → f.next_pos ≡ j
      → Matches classes subject options x i j
      → Passes x pc i n end last
  passed {x} {pc = pc} {end = end} {last = last} j f e e' m = record {
    stop = j;
    left = f.after;
    fewer = omega (arith, f.fewer);
    matches = m;
    rest = at_place f.after end last f.next f.next_pos (pc + size x) j e e' f.rest;
  }

  -- The steps of a star, where its body is passed as it should be.
  star-Passes :
      (x : Ast) (pc end last : ℕ)
      → ((n i : ℕ)
          → Run classes subject options insts n (suc pc) i end last
          → Passes x (suc pc) i n end last)
      → get_elem? insts pc ≡ some (inst split 0 (suc pc) (suc (suc (pc + size x))))
      → get_elem? insts (suc pc + size x) ≡ some (inst jump 0 pc 0)
      → pc + suc (size x + 1) ≤ end
      → (bound n i : ℕ) → n ≤ bound
      → Run classes subject options insts n pc i end last
      → Passes (Ast.star x) pc i n end last
  star-Passes x pc end last body at_split at_jump fits zero n i le r =
      let f = run_begins n pc i end last at_split (omega (arith, fits)) r in
      absurd (omega (arith, f.fewer, le))
  star-Passes x pc end last body at_split at_jump fits (suc bound) n i le r =
      let f = run_begins n pc i end last at_split (omega (arith, fits)) r in
      elim f.step.0 [
        | inl e ↦
            let a =
              body f.after i
                (at_place f.after end last f.next f.next_pos (suc pc) i e f.step.1 f.rest) in
            let g =
              run_begins a.left (suc pc + size x) a.stop end last at_jump (omega (arith, fits))
                a.rest in
            let again =
              star-Passes x pc end last body at_split at_jump fits bound g.after a.stop
                (omega (arith, le, f.fewer, a.fewer, g.fewer))
                (at_place g.after end last g.next g.next_pos pc a.stop g.step.0 g.step.1 g.rest) in
            record {
              stop = again.stop;
              left = again.left;
              fewer = omega (arith, again.fewer, f.fewer, a.fewer, g.fewer);
              matches = Matches.star_more i a.stop again.stop a.matches again.matches;
              rest = again.rest;
            }
        | inr e ↦ passed i f (e ∙ (omega arith)) f.step.1 (Matches.star_end i)
      ]

  -- The same for a plus, whose split stands behind the body.
  plus-Passes :
      (x : Ast) (pc end last : ℕ)
      → ((n i : ℕ) → Run classes subject options insts n pc i end last → Passes x pc i n end last)
      → get_elem? insts (pc + size x) ≡ some (inst split 0 pc (suc (pc + size x)))
      → pc + (size x + 1) ≤ end
      → (bound n i : ℕ) → n ≤ bound
      → Run classes subject options insts n pc i end last
      → Passes (Ast.plus x) pc i n end last
  plus-Passes x pc end last body at_split fits zero n i le r =
      let a = body n i r in
      let f =
        run_begins a.left (pc + size x) a.stop end last at_split (omega (arith, fits)) a.rest in
      absurd (omega (arith, f.fewer, a.fewer, le))
  plus-Passes x pc end last body at_split fits (suc bound) n i le r =
      let a = body n i r in
      let f =
        run_begins a.left (pc + size x) a.stop end last at_split (omega (arith, fits)) a.rest in
      elim f.step.0 [
        | inl e ↦
            let again =
              plus-Passes x pc end last body at_split fits bound f.after a.stop
                (omega (arith, le, f.fewer, a.fewer))
                (at_place f.after end last f.next f.next_pos pc a.stop e f.step.1 f.rest) in
            record {
              stop = again.stop;
              left = again.left;
              fewer = omega (arith, again.fewer, f.fewer, a.fewer);
              matches = Matches.plus_more i a.stop again.stop a.matches again.matches;
              rest = again.rest;
            }
        | inr e ↦ record {
          stop = a.stop;
          left = f.after;
          fewer = omega (arith, f.fewer, a.fewer);
          matches = Matches.plus_end i a.stop a.matches;
          rest =
              at_place f.after end last f.next f.next_pos (pc + (size x + 1)) a.stop
                (e ∙ (omega arith)) f.step.1 f.rest;
        }
      ]

  -- A run over the code of a tree, and on to a place behind that code, passes over a stretch that
  -- the tree matches.
  pub sound :
      (x : Ast) (pc n i end last : ℕ)
      → Stands insts pc (code pc x)
      → pc + size x ≤ end
      → Run classes subject options insts n pc i end last
      → Passes x pc i n end last
  unfolding inst_matches
  sound Ast.empty pc n i end last s fits r = record {
    stop = i;
    left = n;
    fewer = omega arith;
    matches = Matches.empty i;
    rest = at_place n end last pc i (pc + 0) i (omega arith) refl r;
  }
  sound (Ast.char c) pc n i end last s fits r =
      let f = run_begins n pc i end last s.0 (omega (arith, fits)) r in
      passed (suc i) f (f.step.3 ∙ (omega arith)) f.step.4
        (Matches.char c i (record { byte = f.step.0; present = f.step.1; accepted = f.step.2 }))
  sound Ast.any pc n i end last s fits r =
      let f = run_begins n pc i end last s.0 (omega (arith, fits)) r in
      passed (suc i) f (f.step.3 ∙ (omega arith)) f.step.4
        (Matches.any i (record { byte = f.step.0; present = f.step.1; accepted = f.step.2 }))
  sound (Ast.class k) pc n i end last s fits r =
      let f = run_begins n pc i end last s.0 (omega (arith, fits)) r in
      passed (suc i) f (f.step.3 ∙ (omega arith)) f.step.4
        (Matches.class k i (record { byte = f.step.0; present = f.step.1; accepted = f.step.2 }))
  sound Ast.bol pc n i end last s fits r =
      let f = run_begins n pc i end last s.0 (omega (arith, fits)) r in
      passed i f (f.step.1 ∙ (omega arith)) f.step.2 (Matches.bol i f.step.0)
  sound Ast.eol pc n i end last s fits r =
      let f = run_begins n pc i end last s.0 (omega (arith, fits)) r in
      passed i f (f.step.1 ∙ (omega arith)) f.step.2 (Matches.eol i f.step.0)
  sound (Ast.concat x y) pc n i end last s fits r =
      let parts = Stands-append insts pc (code pc x) (code (pc + size x) y) s in
      let e : pc + length (code pc x) ≡ pc + size x = omega (arith, length-code pc x) in
      let a = sound x pc n i end last parts.0 (omega (arith, fits)) r in
      let b =
        sound y (pc + size x) a.left a.stop end last (rw e at parts.1) (omega (arith, fits))
          a.rest in
      record {
        stop = b.stop;
        left = b.left;
        fewer = omega (arith, a.fewer, b.fewer);
        matches = Matches.concat i a.stop b.stop a.matches b.matches;
        rest =
            at_place b.left end last (pc + size x + size y) b.stop (pc + (size x + size y)) b.stop
              (omega arith) refl b.rest;
      }
  sound (Ast.alt x y) pc n i end last s fits r =
      let f = run_begins n pc i end last s.0 (omega (arith, fits)) r in
      let after = suc (suc (pc + size x)) in
      let parts = Stands-append insts (suc pc) (code (suc pc) x) _ s.1 in
      let e : suc pc + length (code (suc pc) x) ≡ suc pc + size x =
        omega (arith, length-code (suc pc) x) in
      let behind = rw e at parts.1 in
      let e' : suc (suc pc + length (code (suc pc) x)) ≡ after =
        omega (arith, length-code (suc pc) x) in
      let other = rw e' at parts.1.1 in
      elim f.step.0 [
        | inl q ↦
            let a =
              sound x (suc pc) f.after i end last parts.0 (omega (arith, fits))
                (at_place f.after end last f.next f.next_pos (suc pc) i q f.step.1 f.rest) in
            let g =
              run_begins a.left (suc pc + size x) a.stop end last behind.0 (omega (arith, fits))
                a.rest in
            record {
              stop = a.stop;
              left = g.after;
              fewer = omega (arith, f.fewer, a.fewer, g.fewer);
              matches = Matches.left i a.stop a.matches;
              rest =
                  at_place g.after end last g.next g.next_pos (pc + suc (size x + suc (size y)))
                    a.stop (g.step.0 ∙ (omega arith)) g.step.1 g.rest;
            }
        | inr q ↦
            let b =
              sound y after f.after i end last other (omega (arith, fits))
                (at_place f.after end last f.next f.next_pos after i q f.step.1 f.rest) in
            record {
              stop = b.stop;
              left = b.left;
              fewer = omega (arith, f.fewer, b.fewer);
              matches = Matches.right i b.stop b.matches;
              rest =
                  at_place b.left end last (after + size y) b.stop
                    (pc + suc (size x + suc (size y))) b.stop (omega arith) refl b.rest;
            }
      ]
  sound (Ast.star x) pc n i end last s fits r =
      let parts = Stands-append insts (suc pc) (code (suc pc) x) _ s.1 in
      let e : suc pc + length (code (suc pc) x) ≡ suc pc + size x =
        omega (arith, length-code (suc pc) x) in
      let behind = rw e at parts.1 in
      star-Passes x pc end last
        (λ m j t. sound x (suc pc) m j end last parts.0 (omega (arith, fits)) t) s.0 behind.0 fits n
        n i (omega arith) r
  sound (Ast.plus x) pc n i end last s fits r =
      let parts = Stands-append insts pc (code pc x) _ s in
      let e : pc + length (code pc x) ≡ pc + size x = omega (arith, length-code pc x) in
      let behind = rw e at parts.1 in
      plus-Passes x pc end last (λ m j t. sound x pc m j end last parts.0 (omega (arith, fits)) t)
        behind.0 fits n n i (omega arith) r
  sound (Ast.quest x) pc n i end last s fits r =
      let f = run_begins n pc i end last s.0 (omega (arith, fits)) r in
      elim f.step.0 [
        | inl q ↦
            let a =
              sound x (suc pc) f.after i end last s.1 (omega (arith, fits))
                (at_place f.after end last f.next f.next_pos (suc pc) i q f.step.1 f.rest) in
            record {
              stop = a.stop;
              left = a.left;
              fewer = omega (arith, f.fewer, a.fewer);
              matches = Matches.taken i a.stop a.matches;
              rest =
                  at_place a.left end last (suc pc + size x) a.stop (pc + suc (size x)) a.stop
                    (omega arith) refl a.rest;
            }
        | inr q ↦ passed i f (q ∙ (omega arith)) f.step.1 (Matches.skipped i)
      ]
  sound (Ast.group zero x) pc n i end last s fits r =
      let a = sound x pc n i end last s fits r in
      record {
        stop = a.stop;
        left = a.left;
        fewer = a.fewer;
        matches = Matches.group 0 i a.stop a.matches;
        rest = a.rest;
      }
  sound (Ast.group (suc g) x) pc n i end last s fits r =
      let f = run_begins n pc i end last s.0 (omega (arith, fits)) r in
      let parts = Stands-append insts (suc pc) (code (suc pc) x) _ s.1 in
      let e : suc pc + length (code (suc pc) x) ≡ suc pc + size x =
        omega (arith, length-code (suc pc) x) in
      let behind = rw e at parts.1 in
      let a =
        sound x (suc pc) f.after i end last parts.0 (omega (arith, fits))
          (at_place f.after end last f.next f.next_pos (suc pc) i f.step.0 f.step.1 f.rest) in
      let h =
        run_begins a.left (suc pc + size x) a.stop end last behind.0 (omega (arith, fits)) a.rest in
      record {
        stop = a.stop;
        left = h.after;
        fewer = omega (arith, f.fewer, a.fewer, h.fewer);
        matches = Matches.group (suc g) i a.stop a.matches;
        rest =
            at_place h.after end last h.next h.next_pos (pc + suc (size x + 1)) a.stop
              (h.step.0 ∙ (omega arith)) h.step.1 h.rest;
      }
