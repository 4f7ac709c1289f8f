-- ===== src/Regex/Parser/Tests.antt =====
-- The pattern `a*` and a group that is not closed.
use vexspoke.Base.{◌≡◌, ◌≢◌, ◌<◌, refl, [], ◌∷◌, false, some}
use vexspoke.Regex.NodeList.{grow_to_one_more, add_node}
use vexspoke.Regex.Program.Tree.{Ast, read_tree}
use vexspoke.Regex.Program.Samples.{a_star_nodes, always}
use vexspoke.Regex.Parser.{refused, missing_paren, stuck}
use vexspoke.Regex.Parser.Nodes.{parser_node}
use vexspoke.Regex.Parser.Descent.{
  new_node, literal, close_group, group_body, parse_group, parse_atom, quantified, wrap, quantifier,
  parse_repeat, join, finish, concat_loop, parse_concat, alt_loop, alternation_of,
  parse_alternation, parse,
}
use vexspoke.Regex.Parser.Linked.{Linked}
use vexspoke.Regex.Parser.Trees.{parse-total, parse-read_tree}
use vexspoke.Regex.Parser.Samples.{a_star_text, a_star_parser, a_star_parsed}

unclosed : parse always (b'(' ∷ b'a' ∷ []) false ≡ refused missing_paren
unfolding parse parse_alternation alternation_of alt_loop parse_concat concat_loop finish join
    parse_repeat quantifier wrap quantified parse_atom parse_group group_body close_group literal
    new_node parser_node add_node grow_to_one_more
unclosed = refl

parse-total_example : parse always (b'(' ∷ b'a' ∷ []) false ≢ refused stuck
parse-total_example = parse-total always (b'(' ∷ b'a' ∷ []) false

parse-read_tree_example :
    (1 < 2) × Linked a_star_nodes × ((x : Ast) × (read_tree 2 a_star_nodes 1 ≡ some x))
parse-read_tree_example = parse-read_tree always a_star_text false 1 a_star_parser a_star_parsed
