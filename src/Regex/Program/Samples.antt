-- ===== src/Regex/Program/Samples.antt =====
-- The pattern `a*`: its nodes, its tree and its program.
use vexspoke.Base.{ℕ, ◌≡◌, refl, List, [], ◌∷◌, Bool, true, some}
use vexspoke.Regex.NodeList.{Kind, Node, blank_node}
use vexspoke.Regex.Program.{
  Program, grown, emit, emit_star, emit_kind, emit_node, build, empty_program,
}
use vexspoke.Regex.Program.Tree.{Ast, read_kind, read_tree}
use vexspoke.Regex.Program.Code.{program_code}

abbrev pub a_star_nodes : List Node
a_star_nodes =
    record (blank_node Kind.char) { byte = 97 } ∷ record (blank_node Kind.star) { a = 0 } ∷ []

abbrev pub a_star : Ast
a_star = Ast.star (Ast.char 97)

abbrev pub always : ℕ → Bool
always bytes = true

pub a_star_read : read_tree 3 a_star_nodes 1 ≡ some a_star
unfolding read_tree read_kind
a_star_read = refl

abbrev pub a_star_program : Program
a_star_program = record { insts = program_code a_star; capacity = 64 }

pub a_star_built : build always 3 a_star_nodes 1 empty_program ≡ some a_star_program
unfolding build emit_node emit_kind emit_star emit grown
a_star_built = refl

-- The same with the fuel that the front end gives.
pub a_star_read_at_root : read_tree 2 a_star_nodes 1 ≡ some a_star
unfolding read_tree read_kind
a_star_read_at_root = refl

pub a_star_built_at_root : build always 2 a_star_nodes 1 empty_program ≡ some a_star_program
unfolding build emit_node emit_kind emit_star emit grown
a_star_built_at_root = refl
