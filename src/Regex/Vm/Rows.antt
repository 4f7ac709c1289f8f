-- ===== src/Regex/Vm/Rows.antt =====
-- The capture row of a thread: behind the first instruction slot 0 is where its run began, and at
-- the MATCH slot 1 is where it stands.
use Prim.Native.Nat.{◌<◌}
use vexspoke.Base.{
  ℕ, zero, suc, ◌+◌, ◌≤◌, ◌≡◌, ◌∙◌, refl, sym, ap, ◌⊎◌, inl, inr, List, [], ◌∷◌, ◌++◌, Bool, true,
  arith, length, length-set, get_or-set_self, get_or-set_ne, get_elem?, get_or, Option, none, some,
}
use vexspoke.Regex.CharClass.{CharClass}
use vexspoke.Regex.Program.Tree.{Ast}
use vexspoke.Regex.Program.Code.{size, code, program_code, length-code}
use vexspoke.Regex.Program.{Op, char, any, class, split, jump, save, bol, eol, match, Inst, inst}
use vexspoke.Regex.Vm.{Options, Row}
use vexspoke.Regex.Vm.Threads.{row_after}
use vexspoke.Regex.Vm.Captures.{GroupsFit, WithinBy, AllWithin, AllWithin-code}
use vexspoke.Regex.Language.Run.{StepBy, Reach, Reach-trans, Reach-Step}

some_inj : (i j : Inst) → ◌≡◌ {A = Option Inst} (some i) (some j) → i ≡ j
some_inj i j e = cc

none_ne : {i : Inst} → ◌≡◌ {A = Option Inst} none (some i) → ⊥
none_ne e = cc

length-row_after :
    (op : Op) (slot pos : ℕ) (row : Row) → length (row_after op slot pos row) ≡ length row
length-row_after char slot pos row = refl
length-row_after any slot pos row = refl
length-row_after class slot pos row = refl
length-row_after split slot pos row = refl
length-row_after jump slot pos row = refl
length-row_after save slot pos row = length-set row slot (some pos)
length-row_after bol slot pos row = refl
length-row_after eol slot pos row = refl
length-row_after match slot pos row = refl

low_slot :
    (lo hi k : ℕ) (i : Inst) (op : Op) (pos : ℕ) (row : Row)
    → WithinBy lo hi i op
    → k < 2
    → get_or (row_after op i.a pos row) k none ≡ get_or row k none
low_slot lo hi k i char pos row w h = refl
low_slot lo hi k i any pos row w h = refl
low_slot lo hi k i class pos row w h = refl
low_slot lo hi k i split pos row w h = refl
low_slot lo hi k i jump pos row w h = refl
low_slot lo hi k i save pos row w h =
    get_or-set_ne row (some pos) none (λ e. absurd (omega (arith, e, h, w)))
low_slot lo hi k i bol pos row w h = refl
low_slot lo hi k i eol pos row w h = refl
low_slot lo hi k i match pos row w h = refl

-- Where an instruction of a program stands.
data Place (x : Ast) (pc : ℕ) (i : Inst) : Type 0 where
  opening : pc ≡ 0 → i ≡ inst save 0 0 0 → Place x pc i
  inside : 1 ≤ pc → pc ≤ size x → WithinBy 1 (1 + size x) i i.op → Place x pc i
  closing : pc ≡ size x + 1 → i ≡ inst save 0 1 0 → Place x pc i
  ending : pc ≡ size x + 2 → i ≡ inst match 0 0 0 → Place x pc i

in_code :
    (lo hi : ℕ) (xs ys : List Inst) (k : ℕ) (i : Inst)
    → AllWithin lo hi xs
    → get_elem? (xs ++ ys) k ≡ some i
    → ((k < length xs) × WithinBy lo hi i i.op)
      ⊎ ((j : ℕ) × (k ≡ length xs + j) × (get_elem? ys j ≡ some i))
in_code lo hi [] ys k i a e = inr (k, omega arith, e)
in_code lo hi (x ∷ xs) ys zero i a e = let q = some_inj x i e in inl (omega arith, rw (sym q) a.0)
in_code lo hi (x ∷ xs) ys (suc k) i a e = elim (in_code lo hi xs ys k i a.1 e) [
  | inl (h, w) ↦ inl (omega (arith, h), w)
  | inr (j, h, e') ↦ inr (j, omega (arith, h), e')
]

place :
    (x : Ast) (pc : ℕ) (i : Inst)
    → GroupsFit x
    → get_elem? (program_code x) pc ≡ some i
    → Place x pc i
place x zero i g e = Place.opening refl (sym (some_inj (inst save 0 0 0) i e))
place x (suc pc) i g e =
    elim (in_code 1 (1 + size x) (code 1 x) (inst save 0 1 0 ∷ inst match 0 0 0 ∷ []) pc i
      (AllWithin-code 1 x g) e) [
        | inl (h, w) ↦ Place.inside (omega arith) (omega (arith, h, length-code 1 x)) w
        | inr (j, h, e') ↦ last j (omega (arith, h, length-code 1 x)) e'
      ]
  where
    last :
        (j : ℕ)
        → pc ≡ size x + j
        → get_elem? (inst save 0 1 0 ∷ inst match 0 0 0 ∷ []) j ≡ some i
        → Place x (suc pc) i
    last zero h e = Place.closing (omega (arith, h)) (sym (some_inj (inst save 0 1 0) i e))
    last (suc zero) h e = Place.ending (omega (arith, h)) (sym (some_inj (inst match 0 0 0) i e))
    last (suc (suc j)) h e = absurd (none_ne e)

module _ (classes : List CharClass) (subject : List ℕ) (options : Options) where
  within_step :
      (lo hi : ℕ) (i : Inst) (op : Op) (pc pos pc' pos' : ℕ)
      → WithinBy lo hi i op
      → lo ≤ pc
      → pc < hi
      → StepBy classes subject options i op pc pos pc' pos'
      → (lo ≤ pc') × (pc' ≤ hi)
  within_step lo hi i char pc pos pc' pos' w h k (byte, e, t, q, q') =
      (omega (arith, h, q), omega (arith, k, q))
  within_step lo hi i any pc pos pc' pos' w h k (byte, e, t, q, q') =
      (omega (arith, h, q), omega (arith, k, q))
  within_step lo hi i class pc pos pc' pos' w h k (byte, e, t, q, q') =
      (omega (arith, h, q), omega (arith, k, q))
  within_step lo hi i split pc pos pc' pos' w h k (inl q, q') =
      (omega (arith, w.0, q), omega (arith, w.1, q))
  within_step lo hi i split pc pos pc' pos' w h k (inr q, q') =
      (omega (arith, w.2, q), omega (arith, w.3, q))
  within_step lo hi i jump pc pos pc' pos' w h k (q, q') =
      (omega (arith, w.0, q), omega (arith, w.1, q))
  within_step lo hi i save pc pos pc' pos' w h k (q, q') =
      (omega (arith, h, q), omega (arith, k, q))
  within_step lo hi i bol pc pos pc' pos' w h k (t, q, q') =
      (omega (arith, h, q), omega (arith, k, q))
  within_step lo hi i eol pc pos pc' pos' w h k (t, q, q') =
      (omega (arith, h, q), omega (arith, k, q))
  within_step lo hi i match pc pos pc' pos' w h k s = absurd s

  module _ (x : Ast) (anchored : Bool) where
    -- A thread of the program of a tree, with its capture row.
    pub record Traced (pos pc : ℕ) (row : Row) : Type 0 where
      pub start : ℕ
      pub inside : start ≤ length subject
      pub first : anchored ≡ true → start ≡ 0
      pub reach : Reach classes subject options (program_code x) 0 start pc pos
      pub long : 2 ≤ length row
      pub unopened : pc ≡ 0 → pos ≡ start
      pub opened : 1 ≤ pc → get_or row 0 none ≡ some start
      pub closed : pc ≡ size x + 2 → get_or row 1 none ≡ some pos

    pub Traced-begins :
        (pos : ℕ) (seed : Row)
        → 2 ≤ length seed
        → pos ≤ length subject
        → (anchored ≡ true → pos ≡ 0)
        → Traced pos 0 seed
    Traced-begins pos seed long low first = record {
      start = pos;
      inside = low;
      first = first;
      reach = record { steps = 0; by_run = (refl, refl) };
      long = long;
      unopened = λ e. refl;
      opened = λ h. absurd (omega (arith, h));
      closed = λ e. absurd (omega (arith, e));
    }

    -- An instruction of the program keeps what a thread's row says.
    pub Traced-moves :
        GroupsFit x
        → (pos pc pos' pc' : ℕ) (row : Row) (i : Inst) → get_elem? (program_code x) pc ≡ some i
        → StepBy classes subject options i i.op pc pos pc' pos'
        → Traced pos pc row
        → Traced pos' pc' (row_after i.op i.a pos row)
    Traced-moves g pos pc pos' pc' row i e s one =
        let r =
          Reach-trans classes subject options (program_code x) one.reach
            (Reach-Step classes subject options (program_code x) (i, e, s)) in
        let row' = row_after i.op i.a pos row in
        let long : 2 ≤ length row' = omega (arith, one.long, length-row_after i.op i.a pos row) in
        elim (place x pc i g e) [
          | Place.opening h q ↦
              let s' = rw q at s in
              record {
                start = one.start;
                inside = one.inside;
                first = one.first;
                reach = r;
                long = long;
                unopened = λ z. absurd (omega (arith, z, s'.0, h));
                opened = λ _. rw q (
                    get_or-set_self row 0 (some pos) none (omega (arith, one.long))
                    ∙ ap some (one.unopened h));
                closed = λ z. absurd (omega (arith, z, s'.0, h));
              }
          | Place.inside h k w ↦
              let b = within_step 1 (1 + size x) i i.op pc pos pc' pos' w h (omega (arith, k)) s in
              record {
                start = one.start;
                inside = one.inside;
                first = one.first;
                reach = r;
                long = long;
                unopened = λ z. absurd (omega (arith, z, b.0));
                opened =
                    λ _. low_slot 1 (1 + size x) 0 i i.op pos row w (omega arith) ∙ one.opened h;
                closed = λ z. absurd (omega (arith, z, b.1));
              }
          | Place.closing h q ↦
              let s' = rw q at s in
              record {
                start = one.start;
                inside = one.inside;
                first = one.first;
                reach = r;
                long = long;
                unopened = λ z. absurd (omega (arith, z, s'.0, h));
                opened = λ _. rw q (
                    get_or-set_ne row (some pos) none (λ e. absurd (omega (arith, e)))
                    ∙ one.opened (omega (arith, h)));
                closed = λ _. rw q (
                    get_or-set_self row 1 (some pos) none (omega (arith, one.long))
                    ∙ ap some (sym s'.1));
              }
          | Place.ending h q ↦ let s' = rw q at s in absurd s'
        ]
