-- ===== src/Regex/Parser/Samples.antt =====
-- The pattern `a*`, parsed.
use vexspoke.Base.{ℕ, ◌≡◌, refl, List, [], ◌∷◌, false}
use vexspoke.Regex.NodeList.{grow_to_one_more, add_node}
use vexspoke.Regex.Program.Samples.{a_star_nodes, always}
use vexspoke.Regex.Parser.{Parser, done, start}
use vexspoke.Regex.Parser.Nodes.{parser_node}
use vexspoke.Regex.Parser.Descent.{
  new_node, literal, parse_atom, quantified, wrap, quantifier, parse_repeat, join, finish,
  concat_loop, parse_concat, alt_loop, alternation_of, parse_alternation, parse,
}

abbrev pub a_star_text : List ℕ
a_star_text = b'a' ∷ b'*' ∷ []

abbrev pub a_star_parser : Parser
a_star_parser = record start { pos = 2; nodes = record { nodes = a_star_nodes; capacity = 64 } }

pub a_star_parsed : parse always a_star_text false ≡ done 1 a_star_parser
unfolding parse parse_alternation alternation_of alt_loop parse_concat concat_loop finish join
    parse_repeat quantifier wrap quantified parse_atom literal new_node parser_node add_node
    grow_to_one_more
a_star_parsed = refl
