-- ===== src/Regex/Parser/Groups.antt =====
-- parseGroup keeps the nodes linked, over an alternation one level down.
use Prim.Native.Nat.{◌<◌}
use vexspoke.Base.{
  ℕ, suc, ◌+◌, ◌-◌, ◌≡◌, refl, List, Bool, true, false, not, ◌&&◌, ltb, leb, ◌==◌, length, arith,
}
use vexspoke.Regex.NodeList.{Kind}
use vexspoke.Regex.Parser.{Parser, Parsed, advance, byte_at, here, more}
use vexspoke.Regex.Parser.Descent.{close_group, group_body, parse_group}
use vexspoke.Regex.Parser.Ends.{Ends, >>=-Ends, if-Ends, Reads, Reads-trans, Reads-le}
use vexspoke.Regex.Parser.Reading.{stepped}
use vexspoke.Regex.Parser.Linked.{Built}
use vexspoke.Regex.Parser.Building.{Built-after, Ready, Ready-Reads, above}

module _ (granted : ℕ → Bool) (pattern : List ℕ) (ignore_case : Bool) where
  module _ (alternation : Parser → Parsed ℕ) (levels : ℕ)
      (descends : (p : Parser) → Ready levels p → Ends (Built p.pos p) (alternation p)) where
    close_group-Built :
        {root at : ℕ} (capturing : Bool) (group : ℕ) (p q : Parser)
        → Built at (record p { depth = p.depth + 1 }) root q
        → Ends (Built at p) (close_group granted pattern ignore_case capturing group root q)
    unfolding close_group
    close_group-Built {root} {at} capturing group p q one =
        let out = record q { depth = q.depth - 1 } in
        let back : out.depth ≡ p.depth = omega (arith, one.depth_same) in
        let left : Built at p root (advance 1 out) = record {
          linked = one.linked;
          inside = one.inside;
          kept = one.kept;
          depth_same = back;
          moved = omega (arith, one.moved);
        } in
        if-Ends (Built at p) (not (more pattern out && here pattern out == b')')) _ _ (λ t. λ e. cc)
          λ f.
            if-Ends (Built at p) capturing _ _
              (λ t.
                above granted pattern ignore_case p (advance 1 out) Kind.group
                  (λ n. record n { a = root; group = group }) left one.inside
                  (omega (arith, one.moved)))
              (λ f. left)

    group_body-Built :
        (capturing : Bool) (group : ℕ) (p : Parser)
        → Ready (suc levels) p
        → Ends
            (Built p.pos p)
            (group_body granted pattern ignore_case alternation capturing group p)
    unfolding group_body
    group_body-Built capturing group p ready =
        if-Ends (Built p.pos p) (leb 128 p.depth) _ _ (λ t. λ e. cc)
          λ f.
            let deeper = record p { depth = p.depth + 1 } in
            let low : p.depth < 128 = ground (arith, f) in
            >>=-Ends (Built p.pos deeper) (Built p.pos p) (alternation deeper)
              (λ body q. close_group granted pattern ignore_case capturing group body q)
              (descends deeper (record {
                linked = ready.linked;
                shallow = omega (arith, low);
                deep = omega (arith, ready.deep);
              }))
              λ root q one. close_group-Built capturing group p q one

    pub parse_group-Built :
        (p : Parser)
        → Ready (suc levels) p
        → Ends (Built (p.pos + 1) p) (parse_group granted pattern ignore_case alternation p)
    unfolding parse_group
    parse_group-Built p ready =
        let inside = advance 1 p in
        if-Ends (Built (p.pos + 1) p)
          (ltb (inside.pos + 1) (length pattern)
            && here pattern inside == b'?'
            && byte_at pattern (inside.pos + 1) == b':')
          _ _
          (λ t. from (advance 2 inside) false 0 (
            Reads-le p (advance 2 inside) (omega arith)
              (Reads-trans p inside (advance 2 inside) (stepped 1 p) (stepped 2 inside))))
          λ f.
            if-Ends (Built (p.pos + 1) p) (more pattern inside && here pattern inside == b'?') _ _
              (λ t. λ e. cc)
              (λ f.
                from (record inside { group_count = inside.group_count + 1 }) true
                  (inside.group_count + 1)
                  (record { nodes_same = refl; depth_same = refl; moved = omega arith }))
      where
        from :
            (q : Parser) (capturing : Bool) (group : ℕ)
            → Reads (p.pos + 1) p q
            → Ends
                (Built (p.pos + 1) p)
                (group_body granted pattern ignore_case alternation capturing group q)
        from q capturing group one =
            Built-after p q (group_body granted pattern ignore_case alternation capturing group q)
              one (p.pos + 1) (omega arith)
              (group_body-Built capturing group q (Ready-Reads p q ready one))
