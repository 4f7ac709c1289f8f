-- ===== src/Regex/Language.antt =====
-- What a pattern means: which stretches of a subject its tree matches, with no machine in it.
pub mod Run
pub mod Complete
pub mod Sound
use vexspoke.Base.{
  ℕ, suc, ◌+◌, ◌≡◌, List, Bool, true, not, ◌||◌, ◌==◌, get_elem?, get_or, Option, some,
}
use vexspoke.Regex.CharClass.{CharClass}
use vexspoke.Regex.CharClass as Bytes
use vexspoke.Regex.Program.Tree.{Ast}
use vexspoke.Regex.Vm.{Options, folded, at_start, at_end}

module _ (classes : List CharClass) (subject : List ℕ) (options : Options) where
  -- The byte at a position passes a test, up to case where the options say so.
  pub record IsByte (test : ℕ → Bool) (i : ℕ) : Type 0 where
    pub byte : ℕ
    pub present : get_elem? subject i ≡ some byte
    pub accepted : test (folded options byte) ≡ true

  -- The tree matches the subject from one position to another.
  pub data Matches : Ast → ℕ → ℕ → Type 0 where
    empty : (i : ℕ) → Matches Ast.empty i i
    char : (c i : ℕ) → IsByte (λ b. b == c) i → Matches (Ast.char c) i (suc i)
    any : (i : ℕ) → IsByte (λ b. options.dotall || not (b == 10)) i → Matches Ast.any i (suc i)
    class :
        (k i : ℕ)
        → IsByte (λ b. Bytes.test (get_or classes k Bytes.clear) b) i
        → Matches (Ast.class k) i (suc i)
    bol : (i : ℕ) → at_start subject options.multiline i ≡ true → Matches Ast.bol i i
    eol : (i : ℕ) → at_end subject options.multiline i ≡ true → Matches Ast.eol i i
    concat : {x y : Ast} (i j k : ℕ) → Matches x i j → Matches y j k → Matches (Ast.concat x y) i k
    left : {x y : Ast} (i j : ℕ) → Matches x i j → Matches (Ast.alt x y) i j
    right : {x y : Ast} (i j : ℕ) → Matches y i j → Matches (Ast.alt x y) i j
    star_end : {x : Ast} (i : ℕ) → Matches (Ast.star x) i i
    star_more :
        {x : Ast} (i j k : ℕ) → Matches x i j → Matches (Ast.star x) j k → Matches (Ast.star x) i k
    plus_end : {x : Ast} (i j : ℕ) → Matches x i j → Matches (Ast.plus x) i j
    plus_more :
        {x : Ast} (i j k : ℕ) → Matches x i j → Matches (Ast.plus x) j k → Matches (Ast.plus x) i k
    skipped : {x : Ast} (i : ℕ) → Matches (Ast.quest x) i i
    taken : {x : Ast} (i j : ℕ) → Matches x i j → Matches (Ast.quest x) i j
    group : {x : Ast} (g i j : ℕ) → Matches x i j → Matches (Ast.group g x) i j
