-- ===== src/Regex/Parser/Linked.antt =====
-- The nodes of a parser link to earlier nodes only, and so stand for trees.
use Prim.Native.Nat.{◌<◌}
use vexspoke.Base.{
  ℕ, zero, suc, ◌≤◌, ◌≡◌, refl, sym, ap, ◌⊎◌, inl, inr, List, [], ◌∷◌, ◌++◌, Bool, leb, length,
  length-append, get_elem?, get_or, set as set_elem, Option, none, some, Option-cases, arith,
}
use vexspoke.Regex.NodeList.{Kind, Node, NodeList, grow_to_one_more, add_node, blank_node}
use vexspoke.Regex.Program.Tree.{Ast, read_kind, read_tree, repeated}
use vexspoke.Regex.Parser.{Parser, Parsed, done, refused}
use vexspoke.Regex.Parser.Nodes.{edit_node, parser_node}
use vexspoke.Regex.Parser.Descent.{new_node}
use vexspoke.Regex.Parser.Ends.{Ends, >>=-Ends, if-Ends}

-- The links that a node of a kind uses lead below a place.
abbrev pub LinksBelow : ℕ → Node → Kind → Type 0
LinksBelow i n Kind.empty = Unit
LinksBelow i n Kind.char = Unit
LinksBelow i n Kind.any = Unit
LinksBelow i n Kind.class = Unit
LinksBelow i n Kind.bol = Unit
LinksBelow i n Kind.eol = Unit
LinksBelow i n Kind.concat = (n.a < i) × (n.b < i)
LinksBelow i n Kind.alt = (n.a < i) × (n.b < i)
LinksBelow i n Kind.star = n.a < i
LinksBelow i n Kind.plus = n.a < i
LinksBelow i n Kind.quest = n.a < i
LinksBelow i n Kind.repeat = n.a < i
LinksBelow i n Kind.group = n.a < i

abbrev pub Linked : List Node → Type 0
Linked nodes = (i : ℕ) (n : Node) → get_elem? nodes i ≡ some n → LinksBelow i n n.kind

some_inj : (m n : Node) → ◌≡◌ {A = Option Node} (some m) (some n) → m ≡ n
some_inj m n e = cc

none_ne : (n : Node) → ◌≡◌ {A = Option Node} none (some n) → ⊥
none_ne n e = cc

get_elem?-snoc_cases :
    (xs : List Node) (y : Node) (i : ℕ) (n : Node)
    → get_elem? (xs ++ y ∷ []) i ≡ some n
    → (get_elem? xs i ≡ some n) ⊎ ((i ≡ length xs) × (y ≡ n))
get_elem?-snoc_cases [] y zero n e = inr (refl, some_inj y n e)
get_elem?-snoc_cases [] y (suc i) n e = absurd (none_ne n e)
get_elem?-snoc_cases (x ∷ xs) y zero n e = inl e
get_elem?-snoc_cases (x ∷ xs) y (suc i) n e = elim (get_elem?-snoc_cases xs y i n e) [
  | inl t ↦ inl t
  | inr (q, q') ↦ inr (ap suc q, q')
]

pub Linked-snoc :
    (xs : List Node) (y : Node)
    → Linked xs
    → LinksBelow (length xs) y y.kind
    → Linked (xs ++ y ∷ [])
Linked-snoc xs y all one i n e = elim (get_elem?-snoc_cases xs y i n e) [
  | inl t ↦ all i n t
  | inr (q, q') ↦ rw (q, sym q') one
]

get_elem?-inside : (xs : List Node) (i : ℕ) → i < length xs → (n : Node) × (get_elem? xs i ≡ some n)
get_elem?-inside [] i h = absurd (omega (arith, h))
get_elem?-inside (x ∷ xs) zero h = (x, refl)
get_elem?-inside (x ∷ xs) (suc i) h = get_elem?-inside xs i (omega (arith, h))

-- A node whose children are read is read.
read_kind-some :
    (child : ℕ → Option Ast) (n : Node) (kind : Kind) (i : ℕ)
    → LinksBelow i n kind
    → ((j : ℕ) → j < i → (x : Ast) × (child j ≡ some x))
    → (x : Ast) × (read_kind child n kind ≡ some x)
unfolding read_kind
read_kind-some child n Kind.empty i below all = (Ast.empty, refl)
read_kind-some child n Kind.char i below all = (Ast.char n.byte, refl)
read_kind-some child n Kind.any i below all = (Ast.any, refl)
read_kind-some child n Kind.class i below all = (Ast.class n.cls_index, refl)
read_kind-some child n Kind.bol i below all = (Ast.bol, refl)
read_kind-some child n Kind.eol i below all = (Ast.eol, refl)
read_kind-some child n Kind.concat i below all =
    let (x, e) = all n.a below.0 in
    let (y, e') = all n.b below.1 in (Ast.concat x y, rw (e, e') refl)
read_kind-some child n Kind.alt i below all =
    let (x, e) = all n.a below.0 in let (y, e') = all n.b below.1 in (Ast.alt x y, rw (e, e') refl)
read_kind-some child n Kind.star i below all = let (x, e) = all n.a below in (Ast.star x, rw e refl)
read_kind-some child n Kind.plus i below all = let (x, e) = all n.a below in (Ast.plus x, rw e refl)
read_kind-some child n Kind.quest i below all =
    let (x, e) = all n.a below in (Ast.quest x, rw e refl)
read_kind-some child n Kind.repeat i below all =
    let (x, e) = all n.a below in (repeated n.rep_min n.rep_max x, rw e refl)
read_kind-some child n Kind.group i below all =
    let (x, e) = all n.a below in (Ast.group n.group x, rw e refl)

-- A linked list of nodes stands for a tree at each of its places.
pub read_tree-some :
    (fuel : ℕ) (nodes : List Node) (i : ℕ)
    → Linked nodes
    → i < length nodes
    → i < fuel
    → (x : Ast) × (read_tree fuel nodes i ≡ some x)
unfolding read_tree
read_tree-some zero nodes i all inside h = absurd (omega (arith, h))
read_tree-some (suc fuel) nodes i all inside h =
    let (n, at) = get_elem?-inside nodes i inside in
    let (x, e) = read_kind-some (read_tree fuel nodes) n n.kind i (all i n at) (λ j below.
      read_tree-some fuel nodes j all (omega (arith, below, inside)) (omega (arith, below, h))) in
    (x, rw (read_tree, at) e)

set_elem-snoc : (xs : List Node) (y z : Node) → set_elem (xs ++ y ∷ []) (length xs) z ≡ xs ++ z ∷ []
set_elem-snoc [] y z = refl
set_elem-snoc (x ∷ xs) y z = ap (λ (ys : List Node). x ∷ ys) (set_elem-snoc xs y z)

get_or-snoc : (xs : List Node) (y d : Node) → get_or (xs ++ y ∷ []) (length xs) d ≡ y
get_or-snoc [] y d = refl
get_or-snoc (x ∷ xs) y d = get_or-snoc xs y d

-- A part of the parser that adds nodes: they stay linked, the root is one of them, the nesting is
-- as before, and the place is not before `at`.
pub record Built (at : ℕ) (before : Parser) (root : ℕ) (after : Parser) : Type 0 where
  pub linked : Linked after.nodes.nodes
  pub inside : root < length after.nodes.nodes
  pub kept : length before.nodes.nodes ≤ length after.nodes.nodes
  pub depth_same : after.depth ≡ before.depth
  pub moved : at ≤ after.pos

-- What parserNode does.
pub record Added (kind : Kind) (before : Parser) (index : ℕ) (after : Parser) : Type 0 where
  pub at_end : index ≡ length before.nodes.nodes
  pub one_more : after.nodes.nodes ≡ before.nodes.nodes ++ blank_node kind ∷ []
  pub depth_same : after.depth ≡ before.depth
  pub pos_same : after.pos ≡ before.pos

module _ (granted : ℕ → Bool) where
  grow-same :
      (list list' : NodeList)
      → grow_to_one_more granted list ≡ some list'
      → list'.nodes ≡ list.nodes
  unfolding grow_to_one_more
  grow-same list list' e = ground (arith, e)

  pub parser_node-Added :
      (kind : Kind) (p : Parser) → Ends (Added kind p) (parser_node granted kind p)
  unfolding parser_node add_node
  parser_node-Added kind p =
      if-Ends (Added kind p) (leb 8192 (length p.nodes.nodes)) _ _ (λ t. λ e. cc)
        λ f. elim (Option-cases (grow_to_one_more granted p.nodes)) [
          | inl n ↦ rw n (λ e. cc)
          | inr (list, e) ↦
              let same = grow-same p.nodes list e in
              rw e (record {
                at_end = ap length same;
                one_more = ap (λ (ns : List Node). ns ++ blank_node kind ∷ []) same;
                depth_same = refl;
                pos_same = refl;
              })
        ]

  pub parser_node-Built :
      (kind : Kind) (p : Parser)
      → Linked p.nodes.nodes
      → LinksBelow (length p.nodes.nodes) (blank_node kind) kind
      → Ends (Built p.pos p) (parser_node granted kind p)
  parser_node-Built kind p all below = built (parser_node granted kind p) (parser_node-Added kind p)
    where
      built : (m : Parsed ℕ) → Ends (Added kind p) m → Ends (Built p.pos p) m
      built (done index q) a = record {
        linked = rw a.one_more (Linked-snoc p.nodes.nodes (blank_node kind) all below);
        inside = omega (
          arith,
          a.at_end,
          ap length a.one_more,
          length-append p.nodes.nodes (blank_node kind ∷ []),
        );
        kept =
            omega (arith, ap length a.one_more, length-append p.nodes.nodes (blank_node kind ∷ []));
        depth_same = a.depth_same;
        moved = omega (arith, a.pos_same);
      }
      built (refused e) a = a

module _ (granted : ℕ → Bool) (pattern : List ℕ) (ignore_case : Bool) where
  pub new_node-Built :
      (kind : Kind) (f : Node → Node) (p : Parser)
      → Linked p.nodes.nodes
      → LinksBelow (length p.nodes.nodes) (f (blank_node kind)) (Node.kind (f (blank_node kind)))
      → Ends (Built p.pos p) (new_node granted pattern ignore_case kind f p)
  unfolding new_node
  new_node-Built kind f p all below =
      >>=-Ends (Added kind p) (Built p.pos p) (parser_node granted kind p)
        (λ index q. done index (edit_node index f q)) (parser_node-Added granted kind p)
        λ index q a.
          let nodes = p.nodes.nodes in
          let blank = blank_node kind in
          let written : set_elem q.nodes.nodes index
                (f (get_or q.nodes.nodes index (blank_node Kind.empty)))
              ≡ nodes ++ f blank ∷ [] =
            rw (a.at_end, a.one_more, get_or-snoc nodes blank (blank_node Kind.empty))
              (set_elem-snoc nodes blank (f blank)) in
          record {
            linked = rw written (Linked-snoc nodes (f blank) all below);
            inside = omega (arith, a.at_end, ap length written, length-append nodes (f blank ∷ []));
            kept = omega (arith, ap length written, length-append nodes (f blank ∷ []));
            depth_same = a.depth_same;
            moved = omega (arith, a.pos_same);
          }
