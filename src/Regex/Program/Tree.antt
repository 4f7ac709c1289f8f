-- ===== src/Regex/Program/Tree.antt =====
-- The tree that the nodes of a parsed pattern stand for, with each bounded repetition written out.
use vexspoke.Base.{
  ℕ, zero, suc, ◌-◌, List, ◌==◌, if◌then◌else◌, get_elem?, Option, none, some, ◌>>=◌,
}
use vexspoke.Regex.NodeList.{Kind, Node, rep_inf}

-- A pattern as a tree.
pub data Ast : Type 0 where
  empty any bol eol : Ast
  char class : ℕ → Ast
  concat alt : Ast → Ast → Ast
  star plus quest : Ast → Ast
  group : ℕ → Ast → Ast

-- So many copies of a tree, one after the other, and then another.
abbrev pub times : ℕ → Ast → Ast → Ast
times zero x last = last
times (suc n) x last = Ast.concat x (times n x last)

-- At least `low` copies, and at most `high`.
abbrev pub repeated : ℕ → ℕ → Ast → Ast
repeated low high x =
    times low x (if high == rep_inf then Ast.star x else times (high - low) (Ast.quest x) Ast.empty)

-- The tree that a node stands for, where `child` reads the node at an index.
unfoldable pub read_kind : (ℕ → Option Ast) → Node → Kind → Option Ast
read_kind child node Kind.empty = some Ast.empty
read_kind child node Kind.char = some (Ast.char node.byte)
read_kind child node Kind.any = some Ast.any
read_kind child node Kind.class = some (Ast.class node.cls_index)
read_kind child node Kind.bol = some Ast.bol
read_kind child node Kind.eol = some Ast.eol
read_kind child node Kind.concat = do x ← child node.a; y ← child node.b; some (Ast.concat x y)
read_kind child node Kind.alt = do x ← child node.a; y ← child node.b; some (Ast.alt x y)
read_kind child node Kind.star = do x ← child node.a; some (Ast.star x)
read_kind child node Kind.plus = do x ← child node.a; some (Ast.plus x)
read_kind child node Kind.quest = do x ← child node.a; some (Ast.quest x)
read_kind child node Kind.repeat = do x ← child node.a; some (repeated node.rep_min node.rep_max x)
read_kind child node Kind.group = do x ← child node.a; some (Ast.group node.group x)

-- The tree below an index, if it is no deeper than the fuel and its links are in range.
unfoldable pub read_tree : ℕ → List Node → ℕ → Option Ast
read_tree zero nodes index = none
read_tree (suc fuel) nodes index =
    get_elem? nodes index >>= λ node. read_kind (read_tree fuel nodes) node node.kind
