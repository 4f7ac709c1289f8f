-- ===== src/Regex/Parser/Classes.antt =====
-- parseClass: it adds no nodes, moves on, and is never stuck.
use Prim.Native.Nat.{◌<◌}
use vexspoke.Base.{
  ℕ, zero, suc, ◌+◌, ◌-◌, ◌≤◌, refl, inl, inr, List, Bool, true, false, not, ◌&&◌, ltb, leb, ◌==◌,
  length, Option-cases, Bool-cases, arith,
}
use vexspoke.Regex.CharClass as Bytes
use vexspoke.Regex.Parser.{Parser, Parsed, done, refused, ◌>>=◌, advance, byte_at, here, more}
use vexspoke.Regex.Parser.Lexical.{parse_escape_byte}
use vexspoke.Regex.Parser.Nodes.{
  edit_class, class_room, parser_add_class, predefined, class_end, class_range, range_or_byte,
  class_item, class_loop, close_class, parse_class,
}
use vexspoke.Regex.Parser.Ends.{Ends, >>=-Ends, if-Ends, Reads, Reads-trans, Reads-le}
use vexspoke.Regex.Parser.Reading.{at_rest, stepped, parse_escape_byte-Ends}

-- A result that begins from a parser further on.
pub Ends-from :
    {A : Type 0} (at at' : ℕ) (p q : Parser) (m : Parsed A)
    → Reads at p q
    → Ends (λ _ r. Reads at' q r) m
    → Ends (λ _ r. Reads at' p r) m
Ends-from at at' p q (done a r) one two = Reads-trans p q r one two
Ends-from at at' p q (refused e) one two = two

Ends-le :
    {A : Type 0} (at at' : ℕ) (p : Parser) (m : Parsed A)
    → at' ≤ at
    → Ends (λ _ r. Reads at p r) m
    → Ends (λ _ r. Reads at' p r) m
Ends-le at at' p (done a r) h two = Reads-le p r h two
Ends-le at at' p (refused e) h two = two

edited :
    (at index : ℕ) (f : Bytes.CharClass → Bytes.CharClass) (p q : Parser)
    → Reads at p q
    → Reads at p (edit_class index f q)
edited at index f p q r = record {
  nodes_same = r.nodes_same;
  depth_same = r.depth_same;
  moved = r.moved;
}

module _ (granted : ℕ → Bool) where
  pub parser_add_class-Ends :
      (p : Parser) → Ends (λ _ q. Reads p.pos p q) (parser_add_class granted p)
  unfolding parser_add_class
  parser_add_class-Ends p =
      if-Ends (λ _ q. Reads p.pos p q) (leb 4096 (length p.classes)) _ _ (λ t. λ e. cc)
        λ f. elim (Option-cases (class_room granted (length p.classes) p.class_capacity)) [
          | inl n ↦ rw n (λ e. cc)
          | inr (c, e) ↦ rw e (record { nodes_same = refl; depth_same = refl; moved = omega arith })
        ]

module _ (pattern : List ℕ) (ignore_case : Bool) where
  class_end-Ends :
      (p : Parser) → Ends (λ _ q. Reads (p.pos + 1) p q) (class_end pattern ignore_case p)
  unfolding class_end
  class_end-Ends p =
      if-Ends (λ _ q. Reads (p.pos + 1) p q) (here pattern p == b'\\') _ _
        (λ t.
          if-Ends (λ _ q. Reads (p.pos + 1) p q) (predefined pattern ignore_case (advance 1 p)) _ _
            (λ t. λ e. cc)
            λ f.
              Ends-from (p.pos + 1) (p.pos + 1) p (advance 1 p)
                (parse_escape_byte pattern (advance 1 p)) (stepped 1 p)
                (Ends-le (p.pos + 1 + 1) (p.pos + 1) (advance 1 p)
                  (parse_escape_byte pattern (advance 1 p)) (omega arith)
                  (parse_escape_byte-Ends pattern (advance 1 p))))
        (λ f. stepped 1 p)

  range_or_byte-Ends :
      (index lo : ℕ) (p : Parser)
      → Ends (λ _ q. Reads p.pos p q) (range_or_byte pattern ignore_case index lo p)
  unfolding range_or_byte class_range
  range_or_byte-Ends index lo p =
      if-Ends (λ _ q. Reads p.pos p q)
        (ltb (p.pos + 1) (length pattern)
          && here pattern p == b'-'
          && not (byte_at pattern (p.pos + 1) == b']'))
        _ _
        (λ t.
          >>=-Ends (λ _ q. Reads (p.pos + 1 + 1) (advance 1 p) q) (λ _ q. Reads p.pos p q)
            (class_end pattern ignore_case (advance 1 p)) _ (class_end-Ends (advance 1 p))
            λ hi q r.
              if-Ends (λ _ q. Reads p.pos p q) (ltb hi lo) _ _ (λ t. λ e. cc)
                λ f.
                  edited p.pos index (λ cls. Bytes.add_range cls lo hi ignore_case) p q
                    (Reads-le p q (omega arith) (Reads-trans p (advance 1 p) q (stepped 1 p) r)))
        (λ f. edited p.pos index (λ cls. Bytes.add_byte cls lo ignore_case) p p (at_rest p))

  class_item-Ends :
      (index : ℕ) (p : Parser)
      → Ends (λ _ q. Reads (p.pos + 1) p q) (class_item pattern ignore_case index p)
  unfolding class_item
  class_item-Ends index p =
      let next = advance 1 p in
      if-Ends (λ _ q. Reads (p.pos + 1) p q) (here pattern p == b'\\') _ _
        (λ t.
          if-Ends (λ _ q. Reads (p.pos + 1) p q) (predefined pattern ignore_case next) _ _
            (λ t.
              let family =
                edit_class index (λ cls. Bytes.add_predefined cls (here pattern next)) next in
              Reads-le p (advance 1 family) (omega arith) (
                Reads-trans p family (advance 1 family)
                  (edited (p.pos + 1) index (λ cls. Bytes.add_predefined cls (here pattern next)) p
                    next (stepped 1 p))
                  (stepped 1 family)))
            (λ f. Ends-from (p.pos + 1) (p.pos + 1) p next _ (stepped 1 p) (
              >>=-Ends (λ _ q. Reads (p.pos + 1 + 1) next q) (λ _ q. Reads (p.pos + 1) next q)
                (parse_escape_byte pattern next) _ (parse_escape_byte-Ends pattern next)
                λ lo q r.
                  Ends-from (p.pos + 1 + 1) (p.pos + 1) next q
                    (range_or_byte pattern ignore_case index lo q) r
                    (Ends-le q.pos (p.pos + 1) q (range_or_byte pattern ignore_case index lo q)
                      (omega (arith, r.moved)) (range_or_byte-Ends index lo q)))))
        (λ f.
          Ends-from (p.pos + 1) (p.pos + 1) p next
            (range_or_byte pattern ignore_case index (here pattern p) next) (stepped 1 p)
            (range_or_byte-Ends index (here pattern p) next))

  class_loop-Ends :
      (fuel index : ℕ) (first : Bool) (p : Parser)
      → length pattern - p.pos < fuel
      → Ends (λ _ q. Reads p.pos p q) (class_loop pattern ignore_case fuel index first p)
  unfolding class_loop
  class_loop-Ends zero index first p h = absurd (omega (arith, h))
  class_loop-Ends (suc fuel) index first p h = elim (Bool-cases (more pattern p)) [
    | inr f ↦ rw (class_loop, f) (at_rest p)
    | inl t ↦ elim (Bool-cases (here pattern p == b']' && not first)) [
      | inl closes ↦
          rw (class_loop, t, closes) (Reads-le p (advance 1 p) (omega arith) (stepped 1 p))
      | inr goes ↦
          let inside : p.pos < length pattern = ground (arith, t) in
          rw (class_loop, t, goes)
            (>>=-Ends (λ _ q. Reads (p.pos + 1) p q) (λ _ q. Reads p.pos p q)
              (class_item pattern ignore_case index p)
              (λ _ q. class_loop pattern ignore_case fuel index false q) (class_item-Ends index p)
              λ _ q r. Ends-from (p.pos + 1) p.pos p q _ r (
                Ends-le q.pos p.pos q (class_loop pattern ignore_case fuel index false q)
                  (omega (arith, r.moved))
                  (class_loop-Ends fuel index false q (omega (arith, h, inside, r.moved)))))
    ]
  ]

  pub parse_class-Ends :
      (granted : ℕ → Bool) (p : Parser)
      → Ends (λ _ q. Reads (p.pos + 1) p q) (parse_class pattern ignore_case granted p)
  unfolding parse_class close_class
  parse_class-Ends granted p =
      let inside = advance 1 p in
      let negated = more pattern inside && here pattern inside == b'^' in
      elim (Bool-cases negated) [
        | inl t ↦ rw t (
            from_inside true (advance 1 inside) (
              Reads-le p (advance 1 inside) (omega arith)
                (Reads-trans p inside (advance 1 inside) (stepped 1 p) (stepped 1 inside))))
        | inr f ↦ rw f (from_inside false inside (stepped 1 p))
      ]
    where
      from_inside :
          (negated : Bool) (q : Parser)
          → Reads (p.pos + 1) p q
          → Ends
              (λ _ r. Reads (p.pos + 1) p r)
              (parser_add_class granted q >>= λ index r.
                class_loop pattern ignore_case (suc (length pattern)) index true r >>= λ closed s.
                close_class pattern ignore_case index negated closed s)
      from_inside negated q start =
          >>=-Ends (λ _ r. Reads q.pos q r) (λ _ r. Reads (p.pos + 1) p r)
            (parser_add_class granted q) _ (parser_add_class-Ends granted q)
            λ index r one.
              >>=-Ends (λ _ s. Reads r.pos r s) (λ _ s. Reads (p.pos + 1) p s)
                (class_loop pattern ignore_case (suc (length pattern)) index true r) _
                (class_loop-Ends (suc (length pattern)) index true r (omega arith))
                λ closed s two.
                  let whole : Reads (p.pos + 1) p s =
                    Reads-le p s (omega (arith, one.moved, start.moved))
                      (Reads-trans p q s start (Reads-trans q r s one two)) in
                  if-Ends (λ _ s. Reads (p.pos + 1) p s) (not closed) _ _ (λ t. λ e. cc)
                    λ f.
                      if-Ends (λ _ s. Reads (p.pos + 1) p s) negated _ _
                        (λ t. edited (p.pos + 1) index Bytes.negate p s whole) (λ f. whole)
