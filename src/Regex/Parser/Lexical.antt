-- ===== src/Regex/Parser/Lexical.antt =====
-- The parts of parser.c that read bytes only: escapes and repetition counts.
use Prim.Native.Nat.{bit_or}
use vexspoke.Base.{
  ℕ, zero, suc, ◌+◌, ◌-◌, ◌*◌, List, Bool, true, false, not, ◌&&◌, ◌||◌, ltb, leb, ◌==◌,
  if◌then◌else◌, length, Option, none, some,
}
use vexspoke.Regex.CharClass.{is_digit}
use vexspoke.Regex.NodeList.{rep_inf}
use vexspoke.Regex.Parser.{
  Parser, Parsed, done, refused, ◌>>=◌, advance, byte_at, here, more, trailing_backslash,
  malformed_hex, unsupported_escape, count_too_large, malformed_repetition, bad_repetition, stuck,
}

-- A hexadecimal digit of an escape.
unfoldable pub hex_digit : ℕ → Option ℕ
hex_digit c =
    if leb b'0' c && leb c b'9'
    then some (c - b'0')
    else if leb b'a' c && leb c b'f'
    then some (c - b'a' + 10)
    else if leb b'A' c && leb c b'F'
    then some (c - b'A' + 10)
    else none

module _ (pattern : List ℕ) where
  -- The case 'x' of parseEscapeByte.
  unfoldable pub parse_hex : Parser → Parsed ℕ
  parse_hex p =
      if leb (length pattern) (p.pos + 1)
      then refused malformed_hex
      else elim (hex_digit (here pattern p)) [
        | none ↦ refused malformed_hex
        | some hi ↦ elim (hex_digit (byte_at pattern (p.pos + 1))) [
          | none ↦ refused malformed_hex
          | some lo ↦ done (bit_or (hi * 16) lo) (advance 2 p)
        ]
      ]

  -- The letters that parseEscapeByte refuses.
  abbrev pub is_reserved : ℕ → Bool
  is_reserved c = leb b'a' c && leb c b'z' || leb b'A' c && leb c b'Z' || leb b'1' c && leb c b'9'

  -- The switch of parseEscapeByte.
  unfoldable pub escape_of : ℕ → Parser → Parsed ℕ
  escape_of c p =
      if c == b'n'
      then done 10 p
      else if c == b'r'
      then done 13 p
      else if c == b't'
      then done 9 p
      else if c == b'f'
      then done 12 p
      else if c == b'v'
      then done 11 p
      else if c == b'0'
      then done 0 p
      else if c == b'x'
      then parse_hex p
      else if is_reserved c
      then refused unsupported_escape
      else done c p

  -- parseEscapeByte.
  unfoldable pub parse_escape_byte : Parser → Parsed ℕ
  parse_escape_byte p =
      if more pattern p
      then escape_of (here pattern p) (advance 1 p)
      else refused trailing_backslash

  -- A place with a digit.
  abbrev pub digit_at : ℕ → Bool
  digit_at i = ltb i (length pattern) && is_digit (byte_at pattern i)

  -- The two loops over digits of parseBraces: the count, and the place behind it.
  unfoldable pub digit_run : ℕ → ℕ → ℕ → Parser → Parsed (ℕ × ℕ)
  digit_run zero i count p = refused stuck
  digit_run (suc fuel) i count p = elim (digit_at i) [
    | false ↦ done (count, i) p
    | true ↦
        let count' = count * 10 + (byte_at pattern i - b'0') in
        elim (ltb 1000 count') [
          | true ↦ refused count_too_large
          | false ↦ digit_run fuel (i + 1) count' p
        ]
  ]

  abbrev pub fuel : ℕ
  fuel = suc (length pattern)

  -- The upper bound of parseBraces, for a lower bound that ends at a place.
  unfoldable pub upper_bound : ℕ → ℕ → Parser → Parsed (ℕ × ℕ)
  upper_bound low i p =
      if ltb i (length pattern) && byte_at pattern i == b','
      then (if digit_at (i + 1) then digit_run fuel (i + 1) 0 p else done (rep_inf, i + 1) p)
      else done (low, i) p

  -- The checks at the end of parseBraces.
  unfoldable pub check_bounds : ℕ × ℕ → ℕ × ℕ → Parser → Parsed (Option (ℕ × ℕ))
  check_bounds lower upper p =
      if not (ltb upper.1 (length pattern) && byte_at pattern upper.1 == b'}')
      then refused malformed_repetition
      else if ltb upper.0 lower.0
      then refused bad_repetition
      else done (some (lower.0, upper.0)) (record p { pos = upper.1 + 1 })

  unfoldable pub read_bounds : Parser → Parsed (Option (ℕ × ℕ))
  read_bounds p = digit_run fuel (p.pos + 1) 0 p >>= λ lower p.
      upper_bound lower.0 lower.1 p >>= λ upper p. check_bounds lower upper p

  -- parseBraces: the bounds, or `none` for a literal brace.
  unfoldable pub parse_braces : Parser → Parsed (Option (ℕ × ℕ))
  parse_braces p = if digit_at (p.pos + 1) then read_bounds p else done none p
