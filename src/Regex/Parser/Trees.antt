-- ===== src/Regex/Parser/Trees.antt =====
-- Concatenations and alternations of the recursive descent, and the whole of it.
use Prim.Native.Nat.{◌<◌}
use mathlib.Core.Path.{subst}
use vexspoke.Base.{
  ℕ, zero, suc, ◌+◌, ◌-◌, ◌≤◌, ◌≡◌, ◌≢◌, inl, inr, List, [], Bool, not, ◌&&◌, ◌||◌, ◌==◌, length,
  Option, none, some, Bool-cases, arith,
}
use vexspoke.Regex.NodeList.{Kind, Node}
use vexspoke.Regex.Program.Tree.{Ast, read_tree}
use vexspoke.Regex.Parser.{
  Parser, Parsed, done, refused, advance, here, more, start, stuck, Failure,
}
use vexspoke.Regex.Parser.Descent.{
  new_node, parse_repeat, join, finish, concat_loop, parse_concat, alt_loop, alternation_of,
  parse_alternation, parse,
}
use vexspoke.Regex.Parser.Ends.{Ends, >>=-Ends, if-Ends}
use vexspoke.Regex.Parser.Reading.{stepped}
use vexspoke.Regex.Parser.Linked.{Linked, Built, read_tree-some, parser_node-Built}
use vexspoke.Regex.Parser.Building.{Built-le, Ready, Ready-Built, above}
use vexspoke.Regex.Parser.Repeats.{Built-Reads, Built-Built, parse_repeat-Built}

none_missing : {n : Node} → ◌≡◌ {A = Option Node} none (some n) → ⊥
none_missing e = cc

nothing : Linked []
nothing i n e = absurd (none_missing e)

reason : (r s : Failure) → ◌≡◌ {A = Parsed ℕ} (refused r) (refused s) → r ≡ s
reason r s e = cc

module _ (granted : ℕ → Bool) (pattern : List ℕ) (ignore_case : Bool) where
  module _ (alternation : Parser → Parsed ℕ) (levels : ℕ)
      (descends : (p : Parser) → Ready levels p → Ends (Built p.pos p) (alternation p)) where
    concat_loop-Built :
        (fuel head : ℕ) (p q : Parser)
        → Ready (suc levels) p
        → Built p.pos p head q
        → length pattern - q.pos < fuel
        → Ends
            (Built p.pos p)
            (concat_loop granted pattern ignore_case alternation fuel (some head) q)
    unfolding finish join concat_loop
    concat_loop-Built zero head p q ready one h = absurd (omega (arith, h))
    concat_loop-Built (suc fuel) head p q ready one h =
        elim (Bool-cases
          (more pattern q && not (here pattern q == b'|' || here pattern q == b')'))) [
            | inr f ↦ rw (concat_loop, f) one
            | inl t ↦
                let inside : q.pos < length pattern = ground (arith, t) in
                rw (concat_loop, t)
                  (>>=-Ends (Built (q.pos + 1) q) (Built p.pos p)
                    (parse_repeat granted pattern ignore_case alternation q) _
                    (parse_repeat-Built granted pattern ignore_case alternation levels descends q
                      (Ready-Built p q ready one))
                    λ piece r two.
                      >>=-Ends (Built (q.pos + 1) p) (Built p.pos p)
                        (new_node granted pattern ignore_case Kind.concat
                          (λ n. record n { a = head; b = piece }) r)
                        _
                        (above granted pattern ignore_case p r Kind.concat
                          (λ n. record n { a = head; b = piece }) (Built-Built p q r one two)
                          (omega (arith, one.inside, two.kept), two.inside) two.moved)
                        λ head s three.
                          concat_loop-Built fuel head p s ready
                            (weaker s head three (omega (arith, one.moved)))
                            (omega (arith, h, inside, three.moved)))
          ]
      where
        weaker :
            {at : ℕ} (s : Parser) (root : ℕ) → Built at p root s → p.pos ≤ at → Built p.pos p root s
        weaker s root b h = Built-le p (done root s) h b

    -- The piece at the head of a concatenation, and the others behind it.
    first_piece-Built :
        (p : Parser)
        → Ready (suc levels) p
        → Ends
            (Built p.pos p)
            (concat_loop granted pattern ignore_case alternation (suc (length pattern)) none p)
    unfolding finish join concat_loop
    first_piece-Built p ready =
        elim (Bool-cases
          (more pattern p && not (here pattern p == b'|' || here pattern p == b')'))) [
            | inr f ↦ rw (concat_loop, f) (parser_node-Built granted Kind.empty p ready.linked tt)
            | inl t ↦
                let inside : p.pos < length pattern = ground (arith, t) in
                rw (concat_loop, t)
                  (>>=-Ends (Built (p.pos + 1) p) (Built p.pos p)
                    (parse_repeat granted pattern ignore_case alternation p) _
                    (parse_repeat-Built granted pattern ignore_case alternation levels descends p
                      ready)
                    λ piece q one.
                      concat_loop-Built (length pattern) piece p q ready
                        (Built-le p (done piece q) (omega arith) one)
                        (omega (arith, inside, one.moved)))
          ]

    parse_concat-Built :
        (p : Parser)
        → Ready (suc levels) p
        → Ends (Built p.pos p) (parse_concat granted pattern ignore_case alternation p)
    unfolding parse_concat
    parse_concat-Built p ready = first_piece-Built p ready

    alt_loop-Built :
        (fuel left : ℕ) (p q : Parser)
        → Ready (suc levels) p
        → Built p.pos p left q
        → length pattern - q.pos < fuel
        → Ends (Built p.pos p) (alt_loop granted pattern ignore_case alternation fuel left q)
    unfolding alt_loop
    alt_loop-Built zero left p q ready one h = absurd (omega (arith, h))
    alt_loop-Built (suc fuel) left p q ready one h =
        elim (Bool-cases (more pattern q && here pattern q == b'|')) [
          | inr f ↦ rw (alt_loop, f) one
          | inl t ↦
              let inside : q.pos < length pattern = ground (arith, t) in
              let next : Built p.pos p left (advance 1 q) =
                Built-Reads p q (advance 1 q) one (stepped 1 q) (omega arith) in
              rw (alt_loop, t)
                (>>=-Ends (Built (q.pos + 1) (advance 1 q)) (Built p.pos p)
                  (parse_concat granted pattern ignore_case alternation (advance 1 q)) _
                  (parse_concat-Built (advance 1 q) (Ready-Built p (advance 1 q) ready next))
                  λ right r two.
                    >>=-Ends (Built (q.pos + 1) p) (Built p.pos p)
                      (new_node granted pattern ignore_case Kind.alt
                        (λ n. record n { a = left; b = right }) r)
                      _
                      (above granted pattern ignore_case p r Kind.alt
                        (λ n. record n { a = left; b = right })
                        (Built-Built p (advance 1 q) r next two)
                        (omega (arith, next.inside, two.kept), two.inside) two.moved)
                      λ root s three.
                        alt_loop-Built fuel root p s ready
                          (Built-le p (done root s) (omega (arith, one.moved)) three)
                          (omega (arith, h, inside, three.moved)))
        ]

    alternation_of-Built :
        (p : Parser)
        → Ready (suc levels) p
        → Ends (Built p.pos p) (alternation_of granted pattern ignore_case alternation p)
    unfolding alternation_of
    alternation_of-Built p ready =
        >>=-Ends (Built p.pos p) (Built p.pos p)
          (parse_concat granted pattern ignore_case alternation p) _ (parse_concat-Built p ready)
          λ left q one. alt_loop-Built (suc (length pattern)) left p q ready one (omega arith)

  parse_alternation-Built :
      (levels : ℕ) (p : Parser)
      → Ready levels p
      → Ends (Built p.pos p) (parse_alternation granted pattern ignore_case levels p)
  unfolding parse_alternation
  parse_alternation-Built zero p ready = absurd (omega (arith, ready.shallow, ready.deep))
  parse_alternation-Built (suc levels) p ready =
      alternation_of-Built (parse_alternation granted pattern ignore_case levels) levels
        (parse_alternation-Built levels) p ready

  pub parse-Built : Ends (λ root p. Built 0 start root p) (parse granted pattern ignore_case)
  unfolding parse
  parse-Built =
      >>=-Ends (Built 0 start) (Built 0 start)
        (parse_alternation granted pattern ignore_case 130 start) _
        (parse_alternation-Built 130 start
          (record { linked = nothing; shallow = omega arith; deep = omega arith }))
        λ root p one.
          if-Ends (Built 0 start) (not (length pattern == 0) && not (p.pos == length pattern)) _ _
            (λ t. λ e. cc) (λ f. one)

-- RegexParser_parse always ends within its fuel and its levels of nesting: each loop consumes a
-- byte of the pattern, and the nesting is refused at REGEX_MAX_DEPTH.
pub parse-total :
    (granted : ℕ → Bool) (pattern : List ℕ) (ignore_case : Bool)
    → parse granted pattern ignore_case ≢ refused stuck
parse-total granted pattern ignore_case e =
    ended (parse granted pattern ignore_case) (parse-Built granted pattern ignore_case) e
  where
    ended : (m : Parsed ℕ) → Ends (λ root p. Built 0 start root p) m → m ≢ refused stuck
    ended (refused r) one e = one (reason r stuck e)
    ended (done root p) one e = cc

-- What RegexParser_parse returns is the root of a tree: it is one of the nodes, the links that each
-- node uses lead to earlier nodes, and the tree of the root's links is read in as many steps as its
-- index and one.
pub parse-read_tree :
    (granted : ℕ → Bool) (pattern : List ℕ) (ignore_case : Bool) (root : ℕ) (p : Parser)
    → parse granted pattern ignore_case ≡ done root p
    → (root < length p.nodes.nodes)
      × Linked p.nodes.nodes
      × ((x : Ast) × (read_tree (suc root) p.nodes.nodes root ≡ some x))
parse-read_tree granted pattern ignore_case root p e =
    let one : Built 0 start root p =
      subst (λ (m : Parsed ℕ). Ends (λ root p. Built 0 start root p) m) e
        (parse-Built granted pattern ignore_case) in
    (
      one.inside,
      one.linked,
      read_tree-some (suc root) p.nodes.nodes root one.linked one.inside (omega arith),
    )
