-- ===== src/Regex/Vm/Captures.antt =====
-- Where the code of a tree leads, and the capture slots that it writes: none below slot 2.
use Prim.Native.Nat.{◌<◌}
use vexspoke.Base.{ℕ, zero, suc, ◌+◌, ◌*◌, ◌≤◌, List, [], ◌∷◌, ◌++◌, arith, u32}
use vexspoke.Regex.Program.Tree.{Ast}
use vexspoke.Regex.Program.Code.{size, code}
use vexspoke.Regex.Program.{Op, char, any, class, split, jump, save, bol, eol, match, Inst}

-- The numbers of the groups of a tree leave room for their slots in a word of 32 bits.
abbrev pub GroupsFit : Ast → Type 0
GroupsFit Ast.empty = Unit
GroupsFit Ast.any = Unit
GroupsFit Ast.bol = Unit
GroupsFit Ast.eol = Unit
GroupsFit (Ast.char c) = Unit
GroupsFit (Ast.class k) = Unit
GroupsFit (Ast.concat x y) = GroupsFit x × GroupsFit y
GroupsFit (Ast.alt x y) = GroupsFit x × GroupsFit y
GroupsFit (Ast.star x) = GroupsFit x
GroupsFit (Ast.plus x) = GroupsFit x
GroupsFit (Ast.quest x) = GroupsFit x
GroupsFit (Ast.group g x) = (g < 2147483648) × GroupsFit x

-- The targets of an instruction are between two places, and the slot that it writes is not one of
-- the whole match.
abbrev pub WithinBy : ℕ → ℕ → Inst → Op → Type 0
WithinBy lo hi i char = Unit
WithinBy lo hi i any = Unit
WithinBy lo hi i class = Unit
WithinBy lo hi i split = (lo ≤ i.a) × (i.a ≤ hi) × (lo ≤ i.b) × (i.b ≤ hi)
WithinBy lo hi i jump = (lo ≤ i.a) × (i.a ≤ hi)
WithinBy lo hi i save = 2 ≤ i.a
WithinBy lo hi i bol = Unit
WithinBy lo hi i eol = Unit
WithinBy lo hi i match = ⊥

abbrev pub AllWithin : ℕ → ℕ → List Inst → Type 0
AllWithin lo hi [] = Unit
AllWithin lo hi (i ∷ is) = WithinBy lo hi i i.op × AllWithin lo hi is

AllWithin-append :
    (lo hi : ℕ) (xs ys : List Inst)
    → AllWithin lo hi xs
    → AllWithin lo hi ys
    → AllWithin lo hi (xs ++ ys)
AllWithin-append lo hi [] ys a b = b
AllWithin-append lo hi (x ∷ xs) ys a b = (a.0, AllWithin-append lo hi xs ys a.1 b)

WithinBy-wider :
    (lo lo' hi hi' : ℕ) (i : Inst) (op : Op)
    → lo' ≤ lo
    → hi ≤ hi'
    → WithinBy lo hi i op
    → WithinBy lo' hi' i op
WithinBy-wider lo lo' hi hi' i char h k w = tt
WithinBy-wider lo lo' hi hi' i any h k w = tt
WithinBy-wider lo lo' hi hi' i class h k w = tt
WithinBy-wider lo lo' hi hi' i split h k w =
    (omega (arith, h, w.0), omega (arith, k, w.1), omega (arith, h, w.2), omega (arith, k, w.3))
WithinBy-wider lo lo' hi hi' i jump h k w = (omega (arith, h, w.0), omega (arith, k, w.1))
WithinBy-wider lo lo' hi hi' i save h k w = w
WithinBy-wider lo lo' hi hi' i bol h k w = tt
WithinBy-wider lo lo' hi hi' i eol h k w = tt
WithinBy-wider lo lo' hi hi' i match h k w = w

AllWithin-wider :
    (lo lo' hi hi' : ℕ) (xs : List Inst)
    → lo' ≤ lo
    → hi ≤ hi'
    → AllWithin lo hi xs
    → AllWithin lo' hi' xs
AllWithin-wider lo lo' hi hi' [] h k a = tt
AllWithin-wider lo lo' hi hi' (x ∷ xs) h k a =
    (WithinBy-wider lo lo' hi hi' x x.op h k a.0, AllWithin-wider lo lo' hi hi' xs h k a.1)

slot_fits : (g : ℕ) → suc g < 2147483648 → (2 ≤ u32 (suc g * 2)) × (2 ≤ u32 (suc g * 2 + 1))
slot_fits g h = (omega (arith, h), omega (arith, h))

pub AllWithin-code : (pc : ℕ) (x : Ast) → GroupsFit x → AllWithin pc (pc + size x) (code pc x)
AllWithin-code pc Ast.empty g = tt
AllWithin-code pc Ast.any g = (tt, tt)
AllWithin-code pc Ast.bol g = (tt, tt)
AllWithin-code pc Ast.eol g = (tt, tt)
AllWithin-code pc (Ast.char c) g = (tt, tt)
AllWithin-code pc (Ast.class k) g = (tt, tt)
AllWithin-code pc (Ast.concat x y) g =
    AllWithin-append pc _ (code pc x) _
      (AllWithin-wider pc pc _ _ (code pc x) (omega arith) (omega arith) (AllWithin-code pc x g.0))
      (AllWithin-wider (pc + size x) pc _ _ (code (pc + size x) y) (omega arith) (omega arith)
        (AllWithin-code (pc + size x) y g.1))
AllWithin-code pc (Ast.alt x y) g =
    let right = suc (suc (pc + size x)) in
    (
      (omega arith, omega arith, omega arith, omega arith),
      AllWithin-append pc _ (code (suc pc) x) _
          (AllWithin-wider (suc pc) pc _ _ (code (suc pc) x) (omega arith) (omega arith)
            (AllWithin-code (suc pc) x g.0))
          (
            (omega arith, omega arith),
            AllWithin-wider right pc _ _ (code right y) (omega arith) (omega arith)
                (AllWithin-code right y g.1),
          ),
    )
AllWithin-code pc (Ast.star x) g = (
  (omega arith, omega arith, omega arith, omega arith),
  AllWithin-append pc _ (code (suc pc) x) _
      (AllWithin-wider (suc pc) pc _ _ (code (suc pc) x) (omega arith) (omega arith)
        (AllWithin-code (suc pc) x g))
      ((omega arith, omega arith), tt),
)
AllWithin-code pc (Ast.plus x) g =
    AllWithin-append pc _ (code pc x) _
      (AllWithin-wider pc pc _ _ (code pc x) (omega arith) (omega arith) (AllWithin-code pc x g))
      ((omega arith, omega arith, omega arith, omega arith), tt)
AllWithin-code pc (Ast.quest x) g = (
  (omega arith, omega arith, omega arith, omega arith),
  AllWithin-wider (suc pc) pc _ _ (code (suc pc) x) (omega arith) (omega arith)
      (AllWithin-code (suc pc) x g),
)
AllWithin-code pc (Ast.group zero x) g = AllWithin-code pc x g.1
AllWithin-code pc (Ast.group (suc n) x) g = (
  (slot_fits n g.0).0,
  AllWithin-append pc _ (code (suc pc) x) _
      (AllWithin-wider (suc pc) pc _ _ (code (suc pc) x) (omega arith) (omega arith)
        (AllWithin-code (suc pc) x g.1))
      ((slot_fits n g.0).1, tt),
)
