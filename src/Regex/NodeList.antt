-- ===== src/Regex/NodeList.antt =====
-- src/regex/nodelist.c: `RegexNodeList`, the syntax tree of a pattern as a flat array whose links
-- are indices. `count` is the length of the list of nodes; an index out of range reads `none`.
use vexspoke.Base.{
  ℕ, ◌*◌, ◌==◌, List, [], ◌∷◌, ◌++◌, Bool, ltb, if◌then◌else◌, length, get_elem?, u32, Option, none,
  some, ◌>>=◌,
}

-- RegexNodeKind.
pub data Kind : Type 0 where
  empty char any class bol eol concat alt star plus quest repeat group : Kind

pub record Node : Type 0 where
  pub kind : Kind
  pub byte : ℕ
  pub a : ℕ
  pub b : ℕ
  pub rep_min : ℕ
  pub rep_max : ℕ
  pub group : ℕ
  pub cls_index : ℕ

pub record NodeList : Type 0 where
  pub nodes : List Node
  pub capacity : ℕ

-- REGEX_REP_INF.
abbrev pub rep_inf : ℕ
rep_inf = 0xFFFFFFFF

-- RegexNodeList_0.
abbrev pub empty_list : NodeList
empty_list = record { nodes = []; capacity = 0 }

-- growToOneMore, where `granted` says whether the arena gives a block of so many bytes.
unfoldable pub grow_to_one_more : (ℕ → Bool) → NodeList → Option NodeList
grow_to_one_more granted list =
    if ltb (length list.nodes) list.capacity
    then some list
    else let next = if list.capacity == 0 then 64 else u32 (list.capacity * 2) in
      if granted (next * 28) then some (record list { capacity = next }) else none

-- A node of zeros, of a kind.
abbrev pub blank_node : Kind → Node
blank_node kind = record {
  kind = kind;
  byte = 0;
  a = 0;
  b = 0;
  rep_min = 0;
  rep_max = 0;
  group = 0;
  cls_index = 0;
}

-- RegexNodeList_add: the index of the new node, and the list.
unfoldable pub add_node : (ℕ → Bool) → NodeList → Kind → Option (ℕ × NodeList)
add_node granted list kind = grow_to_one_more granted list >>= λ grown.
    some (length grown.nodes, record grown { nodes = grown.nodes ++ blank_node kind ∷ [] })

-- RegexNodeList_at and RegexNodeList_get.
abbrev pub node_at : NodeList → ℕ → Option Node
node_at list index = get_elem? list.nodes index
