-- ===== src/Regex/Vm/Visits.antt =====
-- What a visit of addThread puts on its stack and among the threads.
use Prim.Native.Nat.{◌<◌}
use vexspoke.Base.{
  ℕ, ◌+◌, ◌≤◌, ◌≡◌, ◌≢◌, refl, ◌⊎◌, inl, inr, List, [], ◌∷◌, Bool, true, false, leb, arith, length,
  length-append, get_elem?, none, some, Bool-cases, if◌then◌else◌,
}
use vexspoke.Regex.Program.{
  Op, char, any, class, split, jump, save, bol, eol, match, Inst, Program, count,
}
use vexspoke.Regex.Vm.{Task, expand, Row, ThreadList, keep, visit, at_start, at_end}
use vexspoke.Regex.Vm.Marks.{
  unseen, IsMarked, stays, Waits, InThreads, InThreads-snoc_old, InThreads-snoc,
}

module _ (program : Program) (subject : List ℕ) (multiline : Bool) (pos : ℕ) where
  -- The places that an instruction leads to without a byte.
  abbrev pub Eps : Inst → Op → ℕ → ℕ → Type 0
  Eps i jump pc q = q ≡ i.a
  Eps i split pc q = (q ≡ i.a) ⊎ (q ≡ i.b)
  Eps i save pc q = q ≡ pc + 1
  Eps i bol pc q = (at_start subject multiline pos ≡ true) × (q ≡ pc + 1)
  Eps i eol pc q = (at_end subject multiline pos ≡ true) × (q ≡ pc + 1)
  Eps i char pc q = ⊥
  Eps i any pc q = ⊥
  Eps i class pc q = ⊥
  Eps i match pc q = ⊥

  -- A place that needs no visit any more, or that waits for one.
  abbrev pub Covered : List Bool → List Task → ℕ → Type 0
  Covered seen stack q = IsMarked seen q ⊎ ((get_elem? program.insts q ≡ none) ⊎ Waits q stack)

  pub record Settled (list : ThreadList) (stack : List Task) : Type 0 where
    pub sized : length list.seen ≡ count program
    pub room : length list.threads + unseen list.seen ≤ count program
    pub closed :
        (pc q : ℕ) (i : Inst)
        → IsMarked list.seen pc
        → get_elem? program.insts pc ≡ some i
        → Eps i i.op pc q
        → Covered list.seen stack q
    pub kept :
        (pc : ℕ) (i : Inst)
        → IsMarked list.seen pc
        → get_elem? program.insts pc ≡ some i
        → stays i.op ≡ true
        → InThreads pc list.threads

  pub Settled-weaken :
      (list : ThreadList) (s s' : List Task)
      → ((q : ℕ) → Covered list.seen s q → Covered list.seen s' q)
      → Settled list s
      → Settled list s'
  Settled-weaken list s s' f all = record {
    sized = all.sized;
    room = all.room;
    closed = λ pc q i m e p. f q (all.closed pc q i m e p);
    kept = all.kept;
  }

  -- What a visit does, in terms of the places it puts on the stack or among the threads.
  pub record Visited (i : Inst) (op : Op) (pc : ℕ) (list : ThreadList) (stack : List Task)
      (next : ThreadList) (rest : List Task) : Type 0 where
    pub seen_same : next.seen ≡ list.seen
    pub grows : length rest ≤ length stack + 2
    pub waits : (q : ℕ) → Waits q stack → Waits q rest
    pub pushed : (q : ℕ) → Eps i op pc q → Waits q rest
    pub threads_more : (q : ℕ) → InThreads q list.threads → InThreads q next.threads
    pub added : length list.threads < count program → stays op ≡ true → InThreads pc next.threads
    pub at_most : length next.threads ≤ length list.threads + 1

  Visited-Eps :
      (i : Inst) (op : Op) (pc : ℕ) (list : ThreadList) (stack rest : List Task)
      → stays op ≡ false
      → length rest ≤ length stack + 2
      → ((q : ℕ) → Waits q stack → Waits q rest)
      → ((q : ℕ) → Eps i op pc q → Waits q rest)
      → Visited i op pc list stack list rest
  Visited-Eps i op pc list stack rest never small waits pushed = record {
    seen_same = refl;
    grows = small;
    waits = waits;
    pushed = pushed;
    threads_more = λ q t. t;
    added = λ h t. absurd (both (stays op) never t);
    at_most = omega arith;
  }
    where
      both : (b : Bool) → b ≡ false → b ≡ true → ⊥
      both b f t = cc

  Visited-if :
      (i : Inst) (op : Op) (pc : ℕ) (b : Bool) (list : ThreadList) (stack : List Task)
      → stays op ≡ false
      → ((q : ℕ) → Eps i op pc q → (b ≡ true) × (q ≡ pc + 1))
      → Visited i op pc list stack list (if b then expand (pc + 1) ∷ stack else stack)
  Visited-if i op pc true list stack never lead =
      Visited-Eps i op pc list stack _ never (omega arith) (λ q w. inr w) (λ q e. inl (lead q e).1)
  Visited-if i op pc false list stack never lead =
      Visited-Eps i op pc list stack _ never (omega arith) (λ q w. w)
        (λ q e. absurd (false_ne (lead q e).0))
    where
      false_ne : false ≢ true
      false_ne e = cc

  Visited-keep :
      (i : Inst) (op : Op) (pc : ℕ) (list : ThreadList) (work : Row) (stack : List Task)
      → ((q : ℕ) → Eps i op pc q → ⊥)
      → Visited i op pc list stack (keep (count program) pc work list) stack
  unfolding keep
  Visited-keep i op pc list work stack never =
      elim (Bool-cases (leb (count program) (length list.threads))) [
        | inl t ↦ rw t (record {
          seen_same = refl;
          grows = omega arith;
          waits = λ q w. w;
          pushed = λ q e. absurd (never q e);
          threads_more = λ q m. m;
          added = λ h s. absurd (ground (arith, h, t));
          at_most = omega arith;
        })
        | inr f ↦ rw f (record {
          seen_same = refl;
          grows = omega arith;
          waits = λ q w. w;
          pushed = λ q e. absurd (never q e);
          threads_more = λ q m. InThreads-snoc_old q pc work list.threads m;
          added = λ h s. InThreads-snoc pc work list.threads;
          at_most = omega (arith, length-append list.threads ((pc, work) ∷ []));
        })
      ]

  pub visit-Visited :
      (i : Inst) (op : Op) (pc : ℕ) (list : ThreadList) (work : Row) (stack : List Task)
      → let next = visit program subject multiline pos i op pc list work stack in
        Visited i op pc list stack next.0 next.2
  unfolding visit
  visit-Visited i jump pc list work stack =
      Visited-Eps i jump pc list stack _ refl (omega arith) (λ q w. inr w) (λ q e. inl e)
  visit-Visited i split pc list work stack =
      Visited-Eps i split pc list stack _ refl (omega arith) (λ q w. inr (inr w))
        (λ q e. elim e [ inl t ↦ inl t | inr t ↦ inr (inl t) ])
  visit-Visited i save pc list work stack =
      Visited-Eps i save pc list stack _ refl (omega arith) (λ q w. inr w) (λ q e. inl e)
  visit-Visited i bol pc list work stack = Visited-if i bol pc _ list stack refl (λ q e. e)
  visit-Visited i eol pc list work stack = Visited-if i eol pc _ list stack refl (λ q e. e)
  visit-Visited i char pc list work stack = Visited-keep i char pc list work stack (λ q e. e)
  visit-Visited i any pc list work stack = Visited-keep i any pc list work stack (λ q e. e)
  visit-Visited i class pc list work stack = Visited-keep i class pc list work stack (λ q e. e)
  visit-Visited i match pc list work stack = Visited-keep i match pc list work stack (λ q e. e)
