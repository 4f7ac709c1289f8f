-- ===== src/Regex/Program/Code.antt =====
-- What RegexProgram_build emits: Thompson's code of the tree that the nodes stand for.
use vexspoke.Base.{
  ℕ, zero, suc, ◌+◌, ◌*◌, ◌≡◌, refl, List, [], ◌∷◌, ◌++◌, arith, length, length-append, u32,
}
use vexspoke.Regex.Program.Tree.{Ast}
use vexspoke.Regex.Program.{char, any, class, split, jump, save, bol, eol, match, Inst, inst}

-- The length of the code of a tree.
abbrev pub size : Ast → ℕ
size Ast.empty = 0
size Ast.any = 1
size Ast.bol = 1
size Ast.eol = 1
size (Ast.char c) = 1
size (Ast.class k) = 1
size (Ast.concat x y) = size x + size y
size (Ast.alt x y) = suc (size x + suc (size y))
size (Ast.star x) = suc (size x + 1)
size (Ast.plus x) = size x + 1
size (Ast.quest x) = suc (size x)
size (Ast.group zero x) = size x
size (Ast.group (suc g) x) = suc (size x + 1)

-- Thompson's code of a tree, for a program that goes on at `pc`.
abbrev pub code : ℕ → Ast → List Inst
code pc Ast.empty = []
code pc Ast.any = inst any 0 0 0 ∷ []
code pc Ast.bol = inst bol 0 0 0 ∷ []
code pc Ast.eol = inst eol 0 0 0 ∷ []
code pc (Ast.char c) = inst char c 0 0 ∷ []
code pc (Ast.class k) = inst class 0 k 0 ∷ []
code pc (Ast.concat x y) = code pc x ++ code (pc + size x) y
code pc (Ast.alt x y) =
    let right = suc (suc (pc + size x)) in
    inst split 0 (suc pc) right ∷ code (suc pc) x ++ inst jump 0 (right + size y) 0 ∷ code right y
code pc (Ast.star x) =
    inst split 0 (suc pc) (suc (suc (pc + size x))) ∷ code (suc pc) x ++ inst jump 0 pc 0 ∷ []
code pc (Ast.plus x) = code pc x ++ inst split 0 pc (suc (pc + size x)) ∷ []
code pc (Ast.quest x) = inst split 0 (suc pc) (suc (pc + size x)) ∷ code (suc pc) x
code pc (Ast.group zero x) = code pc x
code pc (Ast.group (suc g) x) =
    inst save 0 (u32 (suc g * 2)) 0 ∷ code (suc pc) x ++ inst save 0 (u32 (suc g * 2 + 1)) 0 ∷ []

-- The code of a whole program.
abbrev pub program_code : Ast → List Inst
program_code x = inst save 0 0 0 ∷ code 1 x ++ inst save 0 1 0 ∷ inst match 0 0 0 ∷ []

pub length-code : (pc : ℕ) (x : Ast) → length (code pc x) ≡ size x
length-code pc Ast.empty = refl
length-code pc Ast.any = refl
length-code pc Ast.bol = refl
length-code pc Ast.eol = refl
length-code pc (Ast.char c) = refl
length-code pc (Ast.class k) = refl
length-code pc (Ast.concat x y) = omega (
  arith,
  length-append (code pc x) (code (pc + size x) y),
  length-code pc x,
  length-code (pc + size x) y,
)
length-code pc (Ast.alt x y) =
    let right = suc (suc (pc + size x)) in
    omega (
      arith,
      length-append (code (suc pc) x) (inst jump 0 (right + size y) 0 ∷ code right y),
      length-code (suc pc) x,
      length-code right y,
    )
length-code pc (Ast.star x) =
    omega (arith, length-append (code (suc pc) x) (inst jump 0 pc 0 ∷ []), length-code (suc pc) x)
length-code pc (Ast.plus x) =
    omega (
      arith,
      length-append (code pc x) (inst split 0 pc (suc (pc + size x)) ∷ []),
      length-code pc x,
    )
length-code pc (Ast.quest x) = omega (arith, length-code (suc pc) x)
length-code pc (Ast.group zero x) = length-code pc x
length-code pc (Ast.group (suc g) x) = omega (
  arith,
  length-append (code (suc pc) x) (inst save 0 (u32 (suc g * 2 + 1)) 0 ∷ []),
  length-code (suc pc) x,
)
