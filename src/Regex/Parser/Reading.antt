-- ===== src/Regex/Parser/Reading.antt =====
-- Escapes, repetition counts and classes: they add no nodes, move on, and are never stuck.
use Prim.Native.Nat.{◌<◌}
use vexspoke.Base.{
  ℕ, zero, suc, ◌+◌, ◌-◌, ◌*◌, ◌≤◌, ◌≡◌, refl, inl, inr, List, not, ◌&&◌, ltb, leb, ◌==◌, length,
  Option-cases, Bool-cases, arith,
}
use vexspoke.Regex.Parser.{Parser, Parsed, done, refused, advance, byte_at, here, more}
use vexspoke.Regex.Parser.Lexical.{
  hex_digit, parse_hex, escape_of, is_reserved, parse_escape_byte, digit_at, digit_run, upper_bound,
  check_bounds, read_bounds, parse_braces,
}
use vexspoke.Regex.Parser.Ends.{Ends, >>=-Ends, if-Ends, Reads, Reads-trans, Reads-le}

pub at_rest : (p : Parser) → Reads p.pos p p
at_rest p = record { nodes_same = refl; depth_same = refl; moved = omega arith }

pub stepped : (n : ℕ) (p : Parser) → Reads (p.pos + n) p (advance n p)
stepped n p = record { nodes_same = refl; depth_same = refl; moved = omega arith }

module _ (pattern : List ℕ) where
  hex_Ends : (p : Parser) → Ends (λ _ q. Reads p.pos p q) (parse_hex pattern p)
  unfolding parse_hex
  hex_Ends p =
      if-Ends _ (leb (length pattern) (p.pos + 1)) _ _ (λ t. λ e. cc)
        λ f. elim (Option-cases (hex_digit (here pattern p))) [
          | inl n ↦ rw n (λ e. cc)
          | inr (hi, e) ↦ elim (Option-cases (hex_digit (byte_at pattern (p.pos + 1)))) [
            | inl n ↦ rw (e, n) (λ e. cc)
            | inr (lo, e') ↦ rw (e, e') (Reads-le p (advance 2 p) (omega arith) (stepped 2 p))
          ]
        ]

  escape_Ends : (c : ℕ) (p : Parser) → Ends (λ _ q. Reads p.pos p q) (escape_of pattern c p)
  unfolding escape_of
  escape_Ends c p =
      let rest = at_rest p in
      if-Ends _ (c == b'n') _ _ (λ t. rest)
        λ _.
          if-Ends _ (c == b'r') _ _ (λ t. rest)
            λ _.
              if-Ends _ (c == b't') _ _ (λ t. rest)
                λ _.
                  if-Ends _ (c == b'f') _ _ (λ t. rest)
                    λ _.
                      if-Ends _ (c == b'v') _ _ (λ t. rest)
                        λ _.
                          if-Ends _ (c == b'0') _ _ (λ t. rest)
                            λ _.
                              if-Ends _ (c == b'x') _ _ (λ t. hex_Ends p)
                                λ _.
                                  if-Ends _ (is_reserved pattern c) _ _ (λ t. λ e. cc) (λ f. rest)

  pub parse_escape_byte-Ends :
      (p : Parser) → Ends (λ _ q. Reads (p.pos + 1) p q) (parse_escape_byte pattern p)
  unfolding parse_escape_byte
  parse_escape_byte-Ends p =
      if-Ends _ (more pattern p) _ _
        (λ t.
          mono (escape_of pattern (here pattern p) (advance 1 p))
            (escape_Ends (here pattern p) (advance 1 p)))
        (λ f. λ e. cc)
    where
      mono :
          (m : Parsed ℕ)
          → Ends (λ _ q. Reads (p.pos + 1) (advance 1 p) q) m
          → Ends (λ _ q. Reads (p.pos + 1) p q) m
      mono (done a q) h = Reads-trans p (advance 1 p) q (stepped 1 p) h
      mono (refused e) h = h

  -- What the loops over digits return: a place that is no earlier, and the parser as it was.
  abbrev Counted : ℕ → Parser → ℕ × ℕ → Parser → Type 0
  Counted i p r q = (q ≡ p) × (i ≤ r.1)

  digit_run-Ends :
      (fuel i count : ℕ) (p : Parser)
      → length pattern - i < fuel
      → Ends (Counted i p) (digit_run pattern fuel i count p)
  unfolding digit_run
  digit_run-Ends zero i count p h = absurd (omega (arith, h))
  digit_run-Ends (suc fuel) i count p h = elim (Bool-cases (digit_at pattern i)) [
    | inr f ↦ rw (digit_run, f) (refl, omega arith)
    | inl t ↦
        let count' = count * 10 + (byte_at pattern i - b'0') in
        elim (Bool-cases (ltb 1000 count')) [
          | inl big ↦ rw (digit_run, t, big) (λ e. cc)
          | inr small ↦
              let inside : i < length pattern = ground (arith, t) in
              rw (digit_run, t, small)
                (further (digit_run pattern fuel (i + 1) count' p)
                  (digit_run-Ends fuel (i + 1) count' p (omega (arith, h, inside))))
        ]
  ]
    where
      further : (m : Parsed (ℕ × ℕ)) → Ends (Counted (i + 1) p) m → Ends (Counted i p) m
      further (done a q) r = (r.0, omega (arith, r.1))
      further (refused e) r = r

  upper_bound-Ends : (low i : ℕ) (p : Parser) → Ends (Counted i p) (upper_bound pattern low i p)
  unfolding upper_bound
  upper_bound-Ends low i p =
      if-Ends (Counted i p) (ltb i (length pattern) && byte_at pattern i == b',') _ _
        (λ t.
          if-Ends (Counted i p) (digit_at pattern (i + 1)) _ _
            (λ t'.
              further (digit_run pattern (suc (length pattern)) (i + 1) 0 p)
                (digit_run-Ends (suc (length pattern)) (i + 1) 0 p (omega arith)))
            (λ f. (refl, omega arith)))
        (λ f. (refl, omega arith))
    where
      further : (m : Parsed (ℕ × ℕ)) → Ends (Counted (i + 1) p) m → Ends (Counted i p) m
      further (done a q) r = (r.0, omega (arith, r.1))
      further (refused e) r = r

  check_bounds-Ends :
      (lower upper : ℕ × ℕ) (p : Parser)
      → p.pos ≤ upper.1
      → Ends (λ _ q. Reads p.pos p q) (check_bounds pattern lower upper p)
  unfolding check_bounds
  check_bounds-Ends lower upper p h =
      if-Ends _ (not (ltb upper.1 (length pattern) && byte_at pattern upper.1 == b'}')) _ _
        (λ t. λ e. cc)
        λ _.
          if-Ends _ (ltb upper.0 lower.0) _ _ (λ t. λ e. cc)
            λ _. record { nodes_same = refl; depth_same = refl; moved = omega (arith, h) }

  pub parse_braces-Ends : (p : Parser) → Ends (λ _ q. Reads p.pos p q) (parse_braces pattern p)
  unfolding parse_braces read_bounds
  parse_braces-Ends p =
      if-Ends (λ _ q. Reads p.pos p q) (digit_at pattern (p.pos + 1)) _ _
        (λ t.
          >>=-Ends (Counted (p.pos + 1) p) (λ _ q. Reads p.pos p q)
            (digit_run pattern (suc (length pattern)) (p.pos + 1) 0 p) _
            (digit_run-Ends (suc (length pattern)) (p.pos + 1) 0 p (omega arith))
            λ lower p' c.
              >>=-Ends (Counted lower.1 p') (λ _ q. Reads p.pos p q)
                (upper_bound pattern lower.0 lower.1 p') _ (upper_bound-Ends lower.0 lower.1 p')
                λ upper q c'.
                  rw (c'.0, c.0) (check_bounds-Ends lower upper p (omega (arith, c.1, c'.1))))
        (λ f. at_rest p)
