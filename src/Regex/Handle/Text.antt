-- ===== src/Regex/Handle/Text.antt =====
-- The string projections of regex.c, into a buffer of the caller. `printed` is what vsnprintf makes
-- of a format, or `none` for an error; its result is a parameter.
pub mod Fits
use vexspoke.Base.{
  ℕ, zero, suc, ◌+◌, ◌-◌, List, [], ◌∷◌, ◌++◌, Bool, true, false, not, ltb, leb, ◌==◌,
  if◌then◌else◌, length, take, Option, none, some,
}
use vexspoke.Regex.Program.{count}
use vexspoke.Regex.Handle.{Regex, has_flag, case_insensitive, dot_all, multi_line}

-- RegexText, but for its capacity: the bytes that are written, without the NUL.
pub record RegexText : Type 0 where
  pub written : List ℕ
  pub truncated : Bool

abbrev pub no_text : RegexText
no_text = record { written = []; truncated = false }

-- The formats that textPrintf is called with.
pub data Format : Type 0 where
  groups_insts : ℕ → ℕ → Format
  plain group_count inst_count class_count : ℕ → Format
  string : List ℕ → Format

-- copyText, where there is a buffer.
unfoldable pub copy_text : List ℕ → ℕ → RegexText
copy_text text cap =
    let room = cap - 1 in
    if ltb room (length text)
    then record { written = take room text; truncated = true }
    else record { written = text; truncated = false }

module _ (cap : ℕ) where
  -- textAppend.
  unfoldable pub text_append : List ℕ → RegexText → RegexText
  text_append s text =
      let used = length text.written in
      let room = if ltb (used + 1) cap then cap - used - 1 else 0 in
      if leb cap (used + length s)
      then record { written = text.written ++ take room s; truncated = true }
      else record text { written = text.written ++ s }

  -- textAppend under a test of a flag.
  abbrev pub append_if : Bool → List ℕ → RegexText → RegexText
  append_if true s text = text_append s text
  append_if false s text = text

  -- textPrintf, whose buffer has 256 bytes.
  abbrev pub text_printf : Option (List ℕ) → RegexText → RegexText
  text_printf none text = text
  text_printf (some s) text = text_append (take 255 s) text

abbrev pub slash : List ℕ
slash = b'/' ∷ []

abbrev opening_label : List ℕ
opening_label =
    b'R' ∷ b'e' ∷ b'g' ∷ b'e' ∷ b'x' ∷ b' ' ∷ b'{' ∷ b' ' ∷ b'p' ∷ b'a' ∷ b't' ∷ b't' ∷ b'e' ∷ b'r'
    ∷ b'n' ∷ b'=' ∷ b'"' ∷ []

abbrev flags_label : List ℕ
flags_label = b'"' ∷ b',' ∷ b' ' ∷ b'f' ∷ b'l' ∷ b'a' ∷ b'g' ∷ b's' ∷ b'=' ∷ []

abbrev program_label : List ℕ
program_label = b',' ∷ b' ' ∷ b'p' ∷ b'r' ∷ b'o' ∷ b'g' ∷ b'r' ∷ b'a' ∷ b'm' ∷ b'=' ∷ []

abbrev classes_label : List ℕ
classes_label = b',' ∷ b' ' ∷ b'c' ∷ b'l' ∷ b'a' ∷ b's' ∷ b's' ∷ b'e' ∷ b's' ∷ b'=' ∷ []

abbrev closing_label : List ℕ
closing_label = b' ' ∷ b'}' ∷ []

abbrev null_pointer : List ℕ
null_pointer = b'n' ∷ b'u' ∷ b'l' ∷ b'l' ∷ b'p' ∷ b't' ∷ b'r' ∷ []

abbrev set_or_null : Bool → List ℕ
set_or_null b = if b then b's' ∷ b'e' ∷ b't' ∷ [] else b'n' ∷ b'u' ∷ b'l' ∷ b'l' ∷ []

-- A handle without instructions, or without classes, has no block for them.
abbrev pub has_block : {A : Type 0} → List A → Bool
has_block xs = not (length xs == 0)

module _ (printed : Format → Option (List ℕ)) (cap : ℕ) where
  -- Regex_toString: what is written, where there is a buffer. Its result is that nothing was cut.
  pub regex_to_string : Option Regex → Option RegexText
  regex_to_string none = if cap == 0 then none else some (copy_text null_pointer cap)
  regex_to_string (some r) =
      let head =
        text_append cap slash (text_append cap r.pattern (text_append cap slash no_text)) in
      let i = append_if cap (has_flag r.flags case_insensitive) (b'i' ∷ []) head in
      let is = append_if cap (has_flag r.flags dot_all) (b's' ∷ []) i in
      let ism = append_if cap (has_flag r.flags multi_line) (b'm' ∷ []) is in
      if cap == 0
      then none
      else some (text_printf cap (printed (groups_insts r.group_count (count r.program))) ism)

  -- Regex_toStringStruct.
  pub regex_to_string_struct : Option Regex → Option RegexText
  regex_to_string_struct none = if cap == 0 then none else some (copy_text null_pointer cap)
  regex_to_string_struct (some r) =
      let head =
        text_append cap flags_label
          (text_append cap r.pattern (text_append cap opening_label no_text)) in
      let flags = text_printf cap (printed (plain r.flags)) head in
      let groups = text_printf cap (printed (group_count r.group_count)) flags in
      let insts = text_printf cap (printed (inst_count (count r.program))) groups in
      let classes = text_printf cap (printed (class_count (length r.classes))) insts in
      let program = text_append cap program_label classes in
      let shown =
        text_printf cap (printed (string (set_or_null (has_block r.program.insts)))) program in
      let label = text_append cap classes_label shown in
      let last = text_printf cap (printed (string (set_or_null (has_block r.classes)))) label in
      if cap == 0 then none else some (text_append cap closing_label last)
