-- ===== src/Regex/Parser/Atoms.antt =====
-- parseAtom keeps the nodes linked, over an alternation one level down.
use vexspoke.Base.{ℕ, suc, ◌+◌, List, Bool, ◌||◌, ◌==◌, arith}
use vexspoke.Regex.CharClass as Bytes
use vexspoke.Regex.NodeList.{Kind}
use vexspoke.Regex.Parser.{Parser, Parsed, advance, here}
use vexspoke.Regex.Parser.Lexical.{parse_escape_byte}
use vexspoke.Regex.Parser.Nodes.{edit_class, parser_add_class, predefined, parse_class}
use vexspoke.Regex.Parser.Descent.{
  new_node, literal, family_atom, byte_atom, class_atom, parse_atom,
}
use vexspoke.Regex.Parser.Ends.{Ends, >>=-Ends, if-Ends, Reads}
use vexspoke.Regex.Parser.Reading.{stepped, parse_escape_byte-Ends}
use vexspoke.Regex.Parser.Classes.{parser_add_class-Ends, parse_class-Ends}
use vexspoke.Regex.Parser.Linked.{Built, parser_node-Built, new_node-Built}
use vexspoke.Regex.Parser.Building.{Built-after, Ready, Ready-Reads, literal-Built}
use vexspoke.Regex.Parser.Groups.{parse_group-Built}

module _ (granted : ℕ → Bool) (pattern : List ℕ) (ignore_case : Bool) where
  module _ (alternation : Parser → Parsed ℕ) (levels : ℕ)
      (descends : (p : Parser) → Ready levels p → Ends (Built p.pos p) (alternation p)) where
    family_atom-Built :
        (p : Parser)
        → Ready (suc levels) p
        → Ends (Built p.pos p) (family_atom granted pattern ignore_case alternation p)
    unfolding family_atom
    family_atom-Built p ready =
        >>=-Ends (λ _ q. Reads p.pos p q) (Built p.pos p) (parser_add_class granted p) _
          (parser_add_class-Ends granted p)
          λ index q one.
            let read =
              advance 1 (edit_class index (λ cls. Bytes.add_predefined cls (here pattern q)) q) in
            let r : Reads p.pos p read = record {
              nodes_same = one.nodes_same;
              depth_same = one.depth_same;
              moved = omega (arith, one.moved);
            } in
            Built-after p read
              (new_node granted pattern ignore_case Kind.class (λ n. record n { cls_index = index })
                read)
              r p.pos (omega arith)
              (new_node-Built granted pattern ignore_case Kind.class
                (λ n. record n { cls_index = index }) read (Ready-Reads p read ready r).linked tt)

    byte_atom-Built :
        (p : Parser)
        → Ready (suc levels) p
        → Ends (Built p.pos p) (byte_atom granted pattern ignore_case alternation p)
    unfolding byte_atom
    byte_atom-Built p ready =
        >>=-Ends (λ _ q. Reads (p.pos + 1) p q) (Built p.pos p) (parse_escape_byte pattern p) _
          (parse_escape_byte-Ends pattern p)
          λ byte q one.
            Built-after p q (literal granted pattern ignore_case byte q) one p.pos (omega arith)
              (literal-Built granted pattern ignore_case byte q (Ready-Reads p q ready one).linked)

    class_atom-Built :
        (p : Parser)
        → Ready (suc levels) p
        → Ends (Built (p.pos + 1) p) (class_atom granted pattern ignore_case alternation p)
    unfolding class_atom
    class_atom-Built p ready =
        >>=-Ends (λ _ q. Reads (p.pos + 1) p q) (Built (p.pos + 1) p)
          (parse_class pattern ignore_case granted p) _
          (parse_class-Ends pattern ignore_case granted p)
          λ index q one.
            Built-after p q
              (new_node granted pattern ignore_case Kind.class (λ n. record n { cls_index = index })
                q)
              one (p.pos + 1) (omega arith)
              (new_node-Built granted pattern ignore_case Kind.class
                (λ n. record n { cls_index = index }) q (Ready-Reads p q ready one).linked tt)

    -- A part of parseAtom behind the first byte.
    next_byte :
        (p : Parser) (m : Parsed ℕ)
        → Ends (Built (p.pos + 1) (advance 1 p)) m
        → Ends (Built (p.pos + 1) p) m
    next_byte p m h = Built-after p (advance 1 p) m (stepped 1 p) (p.pos + 1) (omega arith) h

    pub parse_atom-Built :
        (p : Parser)
        → Ready (suc levels) p
        → Ends (Built (p.pos + 1) p) (parse_atom granted pattern ignore_case alternation p)
    unfolding parse_atom
    parse_atom-Built p ready =
        let c = here pattern p in
        let Q = Built (p.pos + 1) p in
        let next : Ready (suc levels) (advance 1 p) =
          Ready-Reads p (advance 1 p) ready (stepped 1 p) in
        if-Ends Q (c == b'(') _ _
          (λ t. parse_group-Built granted pattern ignore_case alternation levels descends p ready)
          λ _.
            if-Ends Q (c == b'[') _ _ (λ t. class_atom-Built p ready)
              λ _.
                if-Ends Q (c == b'.') _ _
                  (λ t.
                    next_byte p _ (parser_node-Built granted Kind.any (advance 1 p) next.linked tt))
                  λ _.
                    if-Ends Q (c == b'^') _ _
                      (λ t.
                        next_byte p _
                          (parser_node-Built granted Kind.bol (advance 1 p) next.linked tt))
                      λ _.
                        if-Ends Q (c == b'$') _ _
                          (λ t.
                            next_byte p _
                              (parser_node-Built granted Kind.eol (advance 1 p) next.linked tt))
                          λ _.
                            if-Ends Q (c == b'\\') _ _
                              (λ t.
                                if-Ends Q (predefined pattern ignore_case (advance 1 p)) _ _
                                  (λ t. next_byte p _ (family_atom-Built (advance 1 p) next))
                                  (λ f. next_byte p _ (byte_atom-Built (advance 1 p) next)))
                              λ _.
                                if-Ends Q (c == b'*' || c == b'+' || c == b'?') _ _ (λ t. λ e. cc)
                                  λ _. next_byte p _ (
                                    literal-Built granted pattern ignore_case c (advance 1 p)
                                      next.linked)
