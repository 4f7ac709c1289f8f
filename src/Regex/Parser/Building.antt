-- ===== src/Regex/Parser/Building.antt =====
-- Parts of the recursive descent that keep the nodes linked, one after the other.
use Prim.Native.Nat.{◌<◌}
use vexspoke.Base.{ℕ, ◌+◌, ◌≤◌, ◌∙◌, ap, List, Bool, if◌then◌else◌, length, arith}
use vexspoke.Regex.NodeList.{Kind, Node, blank_node}
use vexspoke.Regex.Vm.{lower_byte}
use vexspoke.Regex.Parser.{Parser, Parsed, done, refused}
use vexspoke.Regex.Parser.Descent.{new_node, literal}
use vexspoke.Regex.Parser.Ends.{Ends, Reads}
use vexspoke.Regex.Parser.Linked.{LinksBelow, Linked, Built, new_node-Built}

-- A part that reads, before one that builds.
pub Built-after :
    {at : ℕ} (p q : Parser) (m : Parsed ℕ)
    → Reads at p q
    → (place : ℕ) → place ≤ at
    → Ends (Built q.pos q) m
    → Ends (Built place p) m
Built-after p q (done root r) one place h two = record {
  linked = two.linked;
  inside = two.inside;
  kept = omega (arith, two.kept, ap (λ (l : _). length l.nodes) one.nodes_same);
  depth_same = two.depth_same ∙ one.depth_same;
  moved = omega (arith, h, one.moved, two.moved);
}
Built-after p q (refused e) one place h two = two

pub Built-then :
    {at root : ℕ} (at' : ℕ) (p q : Parser) (m : Parsed ℕ)
    → Built at p root q
    → Ends (Built at' q) m
    → Ends (Built at' p) m
Built-then at' p q (done root r) one two = record {
  linked = two.linked;
  inside = two.inside;
  kept = omega (arith, one.kept, two.kept);
  depth_same = two.depth_same ∙ one.depth_same;
  moved = two.moved;
}
Built-then at' p q (refused e) one two = two

pub Built-le :
    {at at' : ℕ} (p : Parser) (m : Parsed ℕ) → at' ≤ at → Ends (Built at p) m → Ends (Built at' p) m
Built-le p (done root r) h two = record {
  linked = two.linked;
  inside = two.inside;
  kept = two.kept;
  depth_same = two.depth_same;
  moved = omega (arith, h, two.moved);
}
Built-le p (refused e) h two = two

-- A parser that has nodes in order, and levels left for the nesting that is allowed.
pub record Ready (levels : ℕ) (p : Parser) : Type 0 where
  pub linked : Linked p.nodes.nodes
  pub shallow : p.depth ≤ 128
  pub deep : 128 < levels + p.depth

pub Ready-Reads : {levels at : ℕ} (p q : Parser) → Ready levels p → Reads at p q → Ready levels q
Ready-Reads p q r one = record {
  linked = rw (ap (λ (l : _). l.nodes) one.nodes_same) r.linked;
  shallow = omega (arith, r.shallow, one.depth_same);
  deep = omega (arith, r.deep, one.depth_same);
}

pub Ready-Built :
    {levels at root : ℕ} (p q : Parser) → Ready levels p → Built at p root q → Ready levels q
Ready-Built p q r one = record {
  linked = one.linked;
  shallow = omega (arith, r.shallow, one.depth_same);
  deep = omega (arith, r.deep, one.depth_same);
}

module _ (granted : ℕ → Bool) (pattern : List ℕ) (ignore_case : Bool) where
  pub literal-Built :
      (byte : ℕ) (p : Parser)
      → Linked p.nodes.nodes
      → Ends (Built p.pos p) (literal granted pattern ignore_case byte p)
  unfolding literal
  literal-Built byte p all =
      new_node-Built granted pattern ignore_case Kind.char
        (λ n. record n { byte = if ignore_case then lower_byte byte else byte }) p all tt

  -- A new node behind a part that builds the child.
  pub above :
      {place at root : ℕ} (p q : Parser) (kind : Kind) (f : Node → Node)
      → Built at p root q
      → LinksBelow (length q.nodes.nodes) (f (blank_node kind)) (Node.kind (f (blank_node kind)))
      → place ≤ q.pos
      → Ends (Built place p) (new_node granted pattern ignore_case kind f q)
  above {place} p q kind f one below h =
      Built-then place p q (new_node granted pattern ignore_case kind f q) one (
        Built-le q (new_node granted pattern ignore_case kind f q) h
          (new_node-Built granted pattern ignore_case kind f q one.linked below))
