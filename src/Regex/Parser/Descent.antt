-- ===== src/Regex/Parser/Descent.antt =====
-- The recursive descent of parser.c.
use vexspoke.Base.{
  ℕ, zero, suc, ◌+◌, ◌-◌, List, Bool, true, false, not, ◌&&◌, ◌||◌, ltb, leb, ◌==◌, if◌then◌else◌,
  length, Option, none, some,
}
use vexspoke.Regex.NodeList.{Kind, Node}
use vexspoke.Regex.Vm.{lower_byte}
use vexspoke.Regex.CharClass as Bytes
use vexspoke.Regex.Parser.{
  Parser, Parsed, done, refused, ◌>>=◌, advance, byte_at, here, more, start, unsupported_group,
  too_deep, missing_paren, nothing_to_repeat, stacked, unexpected_paren, stuck,
}
use vexspoke.Regex.Parser.Lexical.{parse_escape_byte, parse_braces, digit_at}
use vexspoke.Regex.Parser.Nodes.{
  edit_node, edit_class, parser_node, parser_add_class, predefined, parse_class,
}

module _ (granted : ℕ → Bool) (pattern : List ℕ) (ignore_case : Bool) where
  -- A new node, with the fields that its maker writes.
  unfoldable pub new_node : Kind → (Node → Node) → Parser → Parsed ℕ
  new_node kind f p = parser_node granted kind p >>= λ index p. done index (edit_node index f p)

  -- A node for a literal byte.
  unfoldable pub literal : ℕ → Parser → Parsed ℕ
  literal byte p =
      new_node Kind.char (λ n. record n { byte = if ignore_case then lower_byte byte else byte }) p

  -- The end of parseGroup, behind the body.
  unfoldable pub close_group : Bool → ℕ → ℕ → Parser → Parsed ℕ
  close_group capturing group body p =
      let out = record p { depth = p.depth - 1 } in
      if not (more pattern out && here pattern out == b')')
      then refused missing_paren
      else if capturing
      then new_node Kind.group (λ n. record n { a = body; group = group }) (advance 1 out)
      else done body (advance 1 out)

  module _ (alternation : Parser → Parsed ℕ) where
    -- The middle of parseGroup: the body, where the nesting allows it.
    unfoldable pub group_body : Bool → ℕ → Parser → Parsed ℕ
    group_body capturing group p =
        if leb 128 p.depth
        then refused too_deep
        else alternation (record p { depth = p.depth + 1 }) >>= λ body p.
            close_group capturing group body p

    -- parseGroup.
    unfoldable pub parse_group : Parser → Parsed ℕ
    parse_group p =
        let inside = advance 1 p in
        if ltb (inside.pos + 1) (length pattern)
          && here pattern inside == b'?'
          && byte_at pattern (inside.pos + 1) == b':'
        then group_body false 0 (advance 2 inside)
        else if more pattern inside && here pattern inside == b'?'
        then refused unsupported_group
        else group_body true (inside.group_count + 1)
            (record inside { group_count = inside.group_count + 1 })

    -- A predefined family of parseAtom, behind the backslash.
    unfoldable pub family_atom : Parser → Parsed ℕ
    family_atom p = parser_add_class granted p >>= λ index p.
        new_node Kind.class (λ n. record n { cls_index = index })
          (advance 1 (edit_class index (λ cls. Bytes.add_predefined cls (here pattern p)) p))

    -- An escaped byte of parseAtom, behind the backslash.
    unfoldable pub byte_atom : Parser → Parsed ℕ
    byte_atom p = parse_escape_byte pattern p >>= λ byte p. literal byte p

    -- The case '[' of parseAtom.
    unfoldable pub class_atom : Parser → Parsed ℕ
    class_atom p = parse_class pattern ignore_case granted p >>= λ index p.
        new_node Kind.class (λ n. record n { cls_index = index }) p

    -- parseAtom.
    unfoldable pub parse_atom : Parser → Parsed ℕ
    parse_atom p =
        let c = here pattern p in
        if c == b'('
        then parse_group p
        else if c == b'['
        then class_atom p
        else if c == b'.'
        then parser_node granted Kind.any (advance 1 p)
        else if c == b'^'
        then parser_node granted Kind.bol (advance 1 p)
        else if c == b'$'
        then parser_node granted Kind.eol (advance 1 p)
        else if c == b'\\'
        then (if predefined pattern ignore_case (advance 1 p)
            then family_atom (advance 1 p)
            else byte_atom (advance 1 p))
        else if c == b'*' || c == b'+' || c == b'?'
        then refused nothing_to_repeat
        else literal c (advance 1 p)

    -- The test for a second quantifier in parseRepeat.
    unfoldable pub quantified : Parser → Bool
    quantified p =
        let c = here pattern p in
        more pattern p
        && (c == b'*' || c == b'+' || c == b'?' || c == b'{' && digit_at pattern (p.pos + 1))

    -- The node of a quantifier around an atom.
    unfoldable pub wrap : Kind → (Node → Node) → Parser → Parsed ℕ
    wrap kind f p =
        new_node kind f p >>= λ index p. if quantified p then refused stacked else done index p

    -- The node of a repetition with bounds, where the brace is not a literal one.
    unfoldable pub bounded : ℕ → Option (ℕ × ℕ) → Parser → Parsed ℕ
    bounded atom none p = done atom p
    bounded atom (some (low, high)) p =
        wrap Kind.repeat (λ n. record n { a = atom; rep_min = low; rep_max = high }) p

    unfoldable pub braced : ℕ → Parser → Parsed ℕ
    braced atom p = parse_braces pattern p >>= λ bounds p. bounded atom bounds p

    -- The loop of parseRepeat, which ends after one round.
    unfoldable pub quantifier : ℕ → Parser → Parsed ℕ
    quantifier atom p =
        let c = here pattern p in
        if not (more pattern p)
        then done atom p
        else if c == b'*'
        then wrap Kind.star (λ n. record n { a = atom }) (advance 1 p)
        else if c == b'+'
        then wrap Kind.plus (λ n. record n { a = atom }) (advance 1 p)
        else if c == b'?'
        then wrap Kind.quest (λ n. record n { a = atom }) (advance 1 p)
        else if c == b'{'
        then braced atom p
        else done atom p

    -- parseRepeat.
    unfoldable pub parse_repeat : Parser → Parsed ℕ
    parse_repeat p = parse_atom p >>= λ atom p. quantifier atom p

    -- A piece behind the head of a concatenation.
    unfoldable pub join : Option ℕ → ℕ → Parser → Parsed ℕ
    join none piece p = done piece p
    join (some head) piece p = new_node Kind.concat (λ n. record n { a = head; b = piece }) p

    -- The end of parseConcat.
    unfoldable pub finish : Option ℕ → Parser → Parsed ℕ
    finish none p = parser_node granted Kind.empty p
    finish (some head) p = done head p

    -- The loop of parseConcat.
    unfoldable pub concat_loop : ℕ → Option ℕ → Parser → Parsed ℕ
    concat_loop zero head p = refused stuck
    concat_loop (suc fuel) head p =
        elim (more pattern p && not (here pattern p == b'|' || here pattern p == b')')) [
          | false ↦ finish head p
          | true ↦ parse_repeat p >>= λ piece p.
              join head piece p >>= λ head p. concat_loop fuel (some head) p
        ]

    -- parseConcat.
    unfoldable pub parse_concat : Parser → Parsed ℕ
    parse_concat p = concat_loop (suc (length pattern)) none p

    -- The loop of parseAlternation.
    unfoldable pub alt_loop : ℕ → ℕ → Parser → Parsed ℕ
    alt_loop zero left p = refused stuck
    alt_loop (suc fuel) left p = elim (more pattern p && here pattern p == b'|') [
      | false ↦ done left p
      | true ↦ parse_concat (advance 1 p) >>= λ right p.
          new_node Kind.alt (λ n. record n { a = left; b = right }) p >>= λ left p.
          alt_loop fuel left p
    ]

    unfoldable pub alternation_of : Parser → Parsed ℕ
    alternation_of p = parse_concat p >>= λ left p. alt_loop (suc (length pattern)) left p

  -- parseAlternation, to so many levels of nesting.
  unfoldable pub parse_alternation : ℕ → Parser → Parsed ℕ
  parse_alternation zero p = refused stuck
  parse_alternation (suc levels) p = alternation_of (parse_alternation levels) p

  -- RegexParser_parse, of a new parser.
  unfoldable pub parse : Parsed ℕ
  parse = parse_alternation 130 start >>= λ root p.
      if not (length pattern == 0) && not (p.pos == length pattern)
      then refused unexpected_paren
      else done root p
