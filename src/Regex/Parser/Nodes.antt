-- ===== src/Regex/Parser/Nodes.antt =====
-- The parts of parser.c that add nodes and classes.
use vexspoke.Base.{
  ℕ, zero, suc, ◌+◌, ◌*◌, List, [], ◌∷◌, ◌++◌, Bool, true, false, not, ◌&&◌, ltb, leb, ◌==◌,
  if◌then◌else◌, length, get_or, set as set_elem, Option, none, some, u32,
}
use vexspoke.Regex.CharClass.{CharClass}
use vexspoke.Regex.CharClass as Bytes
use vexspoke.Regex.NodeList.{Kind, Node, add_node, blank_node}
use vexspoke.Regex.Parser.{
  Parser, Parsed, done, refused, ◌>>=◌, advance, byte_at, here, more, too_complex, out_of_memory,
  too_many_classes, class_in_range, bad_range, missing_bracket, stuck,
}
use vexspoke.Regex.Parser.Lexical.{parse_escape_byte}

-- What a write through RegexNodeList_get changes.
abbrev pub edit_node : ℕ → (Node → Node) → Parser → Parser
edit_node i f p =
    let nodes = p.nodes.nodes in
    let edited = set_elem nodes i (f (get_or nodes i (blank_node Kind.empty))) in
    record p { nodes = record p.nodes { nodes = edited } }

-- What a write to a class changes.
abbrev pub edit_class : ℕ → (CharClass → CharClass) → Parser → Parser
edit_class i f p = record p { classes = set_elem p.classes i (f (get_or p.classes i Bytes.clear)) }

module _ (granted : ℕ → Bool) where
  -- parserNode.
  unfoldable pub parser_node : Kind → Parser → Parsed ℕ
  parser_node kind p =
      if leb 8192 (length p.nodes.nodes)
      then refused too_complex
      else elim (add_node granted p.nodes kind) [
        | none ↦ refused out_of_memory
        | some (index, nodes) ↦ done index (record p { nodes = nodes })
      ]

  -- The capacity after parserAddClass, if memory is granted where it grows.
  unfoldable pub class_room : ℕ → ℕ → Option ℕ
  class_room count capacity =
      let doubled = if capacity == 0 then 8 else u32 (capacity * 2) in
      let next = if ltb 4096 doubled then 4096 else doubled in
      if count == capacity then (if granted (next * 32) then some next else none) else some capacity

  -- parserAddClass.
  unfoldable pub parser_add_class : Parser → Parsed ℕ
  parser_add_class p =
      if leb 4096 (length p.classes)
      then refused too_many_classes
      else elim (class_room (length p.classes) p.class_capacity) [
        | none ↦ refused out_of_memory
        | some capacity ↦
            done (length p.classes)
              (record p { classes = p.classes ++ Bytes.clear ∷ []; class_capacity = capacity })
      ]

module _ (pattern : List ℕ) (ignore_case : Bool) where
  -- A place with a letter of a predefined family.
  abbrev pub predefined : Parser → Bool
  predefined p = more pattern p && Bytes.is_predefined (here pattern p)

  -- The end of a range in parseClass.
  unfoldable pub class_end : Parser → Parsed ℕ
  class_end p =
      if here pattern p == b'\\'
      then (if predefined (advance 1 p)
          then refused class_in_range
          else parse_escape_byte pattern (advance 1 p))
      else done (here pattern p) (advance 1 p)

  -- A range of a class, behind its first byte.
  unfoldable pub class_range : ℕ → ℕ → Parser → Parsed (Unit {0})
  class_range index lo p = class_end p >>= λ hi p.
      if ltb hi lo
      then refused bad_range
      else done tt (edit_class index (λ cls. Bytes.add_range cls lo hi ignore_case) p)

  -- A byte of a class, or the range that begins with it.
  unfoldable pub range_or_byte : ℕ → ℕ → Parser → Parsed (Unit {0})
  range_or_byte index lo p =
      if ltb (p.pos + 1) (length pattern)
        && here pattern p == b'-'
        && not (byte_at pattern (p.pos + 1) == b']')
      then class_range index lo (advance 1 p)
      else done tt (edit_class index (λ cls. Bytes.add_byte cls lo ignore_case) p)

  -- A round of the loop of parseClass, at a byte that does not close the class.
  unfoldable pub class_item : ℕ → Parser → Parsed (Unit {0})
  class_item index p =
      let c = here pattern p in
      let next = advance 1 p in
      if c == b'\\'
      then (if predefined next
          then done tt (
              advance 1
                (edit_class index (λ cls. Bytes.add_predefined cls (here pattern next)) next))
          else parse_escape_byte pattern next >>= λ lo p. range_or_byte index lo p)
      else range_or_byte index c next

  -- The loop of parseClass: whether the class was closed.
  unfoldable pub class_loop : ℕ → ℕ → Bool → Parser → Parsed Bool
  class_loop zero index first p = refused stuck
  class_loop (suc fuel) index first p = elim (more pattern p) [
    | false ↦ done false p
    | true ↦ elim (here pattern p == b']' && not first) [
      | true ↦ done true (advance 1 p)
      | false ↦ class_item index p >>= λ _ p. class_loop fuel index false p
    ]
  ]

  -- The end of parseClass.
  unfoldable pub close_class : ℕ → Bool → Bool → Parser → Parsed ℕ
  close_class index negated closed p =
      if not closed
      then refused missing_bracket
      else if negated
      then done index (edit_class index Bytes.negate p)
      else done index p

  -- parseClass.
  unfoldable pub parse_class : (ℕ → Bool) → Parser → Parsed ℕ
  parse_class granted p =
      let inside = advance 1 p in
      let negated = more pattern inside && here pattern inside == b'^' in
      parser_add_class granted (if negated then advance 1 inside else inside) >>= λ index p.
      class_loop (suc (length pattern)) index true p >>= λ closed p.
      close_class index negated closed p
