-- ===== src/Regex/Parser/Repeats.antt =====
-- parseRepeat: what follows an atom keeps the nodes linked.
use vexspoke.Base.{
  ℕ, suc, ◌+◌, ◌≤◌, ◌∙◌, ap, List, Bool, not, ◌==◌, length, Option, none, some, arith,
}
use vexspoke.Regex.NodeList.{Kind, Node, blank_node}
use vexspoke.Regex.Parser.{Parser, Parsed, advance, here, more}
use vexspoke.Regex.Parser.Lexical.{parse_braces}
use vexspoke.Regex.Parser.Descent.{
  new_node, parse_atom, quantified, wrap, bounded, braced, quantifier, parse_repeat,
}
use vexspoke.Regex.Parser.Ends.{Ends, >>=-Ends, if-Ends, Reads}
use vexspoke.Regex.Parser.Reading.{stepped, parse_braces-Ends}
use vexspoke.Regex.Parser.Linked.{LinksBelow, Built}
use vexspoke.Regex.Parser.Atoms.{parse_atom-Built}
use vexspoke.Regex.Parser.Building.{Ready, above}

-- A part that reads, behind one that builds.
pub Built-Reads :
    {at at' root : ℕ} (p q r : Parser)
    → Built at p root q
    → Reads at' q r
    → q.pos ≤ at'
    → Built at p root r
Built-Reads p q r one two h = record {
  linked = rw (ap (λ (l : _). l.nodes) two.nodes_same) one.linked;
  inside = omega (arith, one.inside, ap (λ (l : _). length l.nodes) two.nodes_same);
  kept = omega (arith, one.kept, ap (λ (l : _). length l.nodes) two.nodes_same);
  depth_same = two.depth_same ∙ one.depth_same;
  moved = omega (arith, one.moved, two.moved, h);
}

pub Built-Built :
    {at at' root root' : ℕ} (p q r : Parser)
    → Built at p root q
    → Built at' q root' r
    → Built at' p root' r
Built-Built p q r one two = record {
  linked = two.linked;
  inside = two.inside;
  kept = omega (arith, one.kept, two.kept);
  depth_same = two.depth_same ∙ one.depth_same;
  moved = two.moved;
}

module _ (granted : ℕ → Bool) (pattern : List ℕ) (ignore_case : Bool)
    (alternation : Parser → Parsed ℕ) where
  wrap-Built :
      {at place root : ℕ} (kind : Kind) (f : Node → Node) (p q : Parser)
      → Built at p root q
      → LinksBelow (length q.nodes.nodes) (f (blank_node kind)) (Node.kind (f (blank_node kind)))
      → place ≤ q.pos
      → Ends (Built place p) (wrap granted pattern ignore_case alternation kind f q)
  unfolding wrap
  wrap-Built {at} {place} kind f p q one below h =
      >>=-Ends (Built place p) (Built place p) (new_node granted pattern ignore_case kind f q) _
        (above granted pattern ignore_case p q kind f one below h)
        λ index r b.
          if-Ends (Built place p) (quantified granted pattern ignore_case alternation r) _ _
            (λ t. λ e. cc) (λ f. b)

  bounded-Built :
      {at root : ℕ} (p q : Parser) (bounds : Option (ℕ × ℕ))
      → Built at p root q
      → Ends (Built at p) (bounded granted pattern ignore_case alternation root bounds q)
  unfolding bounded
  bounded-Built p q none one = one
  bounded-Built {at} {root} p q (some (low, high)) one =
      wrap-Built Kind.repeat (λ n. record n { a = root; rep_min = low; rep_max = high }) p q one
        one.inside one.moved

  braced-Built :
      {at root : ℕ} (p q : Parser)
      → Built at p root q
      → Ends (Built at p) (braced granted pattern ignore_case alternation root q)
  unfolding braced
  braced-Built {at} p q one =
      >>=-Ends (λ _ r. Reads q.pos q r) (Built at p) (parse_braces pattern q) _
        (parse_braces-Ends pattern q)
        λ bounds r read. bounded-Built p r bounds (Built-Reads p q r one read (omega arith))

  quantifier-Built :
      {at root : ℕ} (p q : Parser)
      → Built at p root q
      → Ends (Built at p) (quantifier granted pattern ignore_case alternation root q)
  unfolding quantifier
  quantifier-Built {at} {root} p q one =
      let c = here pattern q in
      let next : Built at p root (advance 1 q) =
        Built-Reads p q (advance 1 q) one (stepped 1 q) (omega arith) in
      if-Ends (Built at p) (not (more pattern q)) _ _ (λ t. one)
        λ _.
          if-Ends (Built at p) (c == b'*') _ _
            (λ t.
              wrap-Built Kind.star (λ n. record n { a = root }) p (advance 1 q) next next.inside
                next.moved)
            λ _.
              if-Ends (Built at p) (c == b'+') _ _
                (λ t.
                  wrap-Built Kind.plus (λ n. record n { a = root }) p (advance 1 q) next next.inside
                    next.moved)
                λ _.
                  if-Ends (Built at p) (c == b'?') _ _
                    (λ t.
                      wrap-Built Kind.quest (λ n. record n { a = root }) p (advance 1 q) next
                        next.inside next.moved)
                    λ _. if-Ends (Built at p) (c == b'{') _ _ (λ t. braced-Built p q one) (λ f. one)

  pub parse_repeat-Built :
      (levels : ℕ)
      → ((p : Parser) → Ready levels p → Ends (Built p.pos p) (alternation p))
      → (p : Parser) → Ready (suc levels) p
      → Ends (Built (p.pos + 1) p) (parse_repeat granted pattern ignore_case alternation p)
  unfolding parse_repeat
  parse_repeat-Built levels descends p ready =
      >>=-Ends (Built (p.pos + 1) p) (Built (p.pos + 1) p)
        (parse_atom granted pattern ignore_case alternation p) _
        (parse_atom-Built granted pattern ignore_case alternation levels descends p ready)
        λ atom q one. quantifier-Built p q one
