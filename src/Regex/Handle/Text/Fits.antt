-- ===== src/Regex/Handle/Text/Fits.antt =====
-- What the projections write is the start of the whole text that fits into the buffer.
use Prim.Native.Nat.{◌<◌, min}
use vexspoke.Base.{
  ℕ, zero, suc, ◌+◌, ◌-◌, ◌≤◌, ◌≡◌, ◌∙◌, refl, sym, ap, inl, inr, List, [], ◌∷◌, ◌++◌, Bool, true,
  false, ltb, leb, ◌==◌, if◌then◌else◌, length, length-append, length-take, take, Option, none,
  some, Bool-cases, arith, append-nil,
}
use vexspoke.Regex.Program.{count}
use vexspoke.Regex.Handle.{Regex, has_flag, case_insensitive, dot_all, multi_line}
use vexspoke.Regex.Handle.Text.{
  RegexText, no_text, Format, groups_insts, text_append, append_if, text_printf, regex_to_string,
  slash,
}

take_all : (n : ℕ) (xs : List ℕ) → length xs ≤ n → take n xs ≡ xs
take_all zero [] h = refl
take_all zero (x ∷ xs) h = absurd (omega (arith, h))
take_all (suc n) [] h = refl
take_all (suc n) (x ∷ xs) h = ap (λ (ys : List ℕ). x ∷ ys) (take_all n xs (omega (arith, h)))

take_nothing : (n : ℕ) → ◌≡◌ {A = List ℕ} (take n []) []
take_nothing zero = refl
take_nothing (suc n) = refl

take-append : (n : ℕ) (xs ys : List ℕ) → take n (xs ++ ys) ≡ take n xs ++ take (n - length xs) ys
take-append n [] ys = let e : n - 0 ≡ n = omega arith in rw (e, take_nothing n) refl
take-append zero (x ∷ xs) ys = let e : 0 - length (x ∷ xs) ≡ 0 = omega arith in rw e refl
take-append (suc n) (x ∷ xs) ys =
    let e : suc n - length (x ∷ xs) ≡ n - length xs = omega arith in
    rw e (ap (λ (zs : List ℕ). x ∷ zs) (take-append n xs ys))

-- What textPrintf takes of a result of vsnprintf.
abbrev pub shown : Option (List ℕ) → List ℕ
shown none = []
shown (some s) = take 255 s

-- The text of a compiled pattern: the pattern between slashes, the letters of its flags, and what
-- vsnprintf makes of its counts.
abbrev pub whole_text : (Format → Option (List ℕ)) → Regex → List ℕ
whole_text printed r =
    (((((slash ++ r.pattern) ++ slash)
          ++ (if has_flag r.flags case_insensitive then b'i' ∷ [] else []))
        ++ (if has_flag r.flags dot_all then b's' ∷ [] else []))
      ++ (if has_flag r.flags multi_line then b'm' ∷ [] else []))
    ++ shown (printed (groups_insts r.group_count (count r.program)))

-- A buffer holds the start of a text, and says whether the text was cut.
pub record Holds (cap : ℕ) (whole : List ℕ) (text : RegexText) : Type 0 where
  pub start : text.written ≡ take (cap - 1) whole
  pub cut : text.truncated ≡ leb cap (length whole)

module _ (cap : ℕ) (roomy : 0 < cap) where
  Holds-nothing : Holds cap [] no_text
  Holds-nothing = record { start = sym (take_nothing (cap - 1)); cut = ground arith }

  room_is : (used : ℕ) → (if ltb (used + 1) cap then cap - used - 1 else 0) ≡ cap - 1 - used
  room_is used = ground arith

  appended :
      (s : List ℕ) (text : RegexText)
      → (text_append cap s text).written ≡ text.written ++ take (cap - 1 - length text.written) s
  unfolding text_append
  appended s text = elim (Bool-cases (leb cap (length text.written + length s))) [
    | inl t ↦ rw (text_append, t, room_is (length text.written)) refl
    | inr f ↦
        rw (text_append, f, take_all (cap - 1 - length text.written) s (ground (arith, f))) refl
  ]

  still_cut :
      (used len n : ℕ)
      → used ≡ min (cap - 1) n
      → (if leb cap (used + len) then true else leb cap n) ≡ leb cap (n + len)
  still_cut used len n e = ground (arith, e, roomy)

  cut_of :
      (s : List ℕ) (text : RegexText)
      → (text_append cap s text).truncated
        ≡ (if leb cap (length text.written + length s) then true else text.truncated)
  unfolding text_append
  cut_of s text = elim (Bool-cases (leb cap (length text.written + length s))) [
    | inl t ↦ rw (text_append, t) refl
    | inr f ↦ rw (text_append, f) refl
  ]

  -- textAppend continues the text.
  pub text_append-Holds :
      (s whole : List ℕ) (text : RegexText)
      → Holds cap whole text
      → Holds cap (whole ++ s) (text_append cap s text)
  text_append-Holds s whole text one =
      let used : length text.written ≡ min (cap - 1) (length whole) =
        ap length one.start ∙ length-take (cap - 1) whole in
      let left : cap - 1 - length whole ≡ cap - 1 - length text.written = omega (arith, used) in
      record {
        start = appended s text ∙ rw (take-append (cap - 1) whole s, left, one.start) refl;
        cut =
            cut_of s text
            ∙ rw (one.cut, length-append whole s)
                (still_cut (length text.written) (length s) (length whole) used);
      }

  append_if-Holds :
      (b : Bool) (s whole : List ℕ) (text : RegexText)
      → Holds cap whole text
      → Holds cap (whole ++ (if b then s else [])) (append_if cap b s text)
  append_if-Holds true s whole text one = text_append-Holds s whole text one
  append_if-Holds false s whole text one = rw append-nil one

  text_printf-Holds :
      (s : Option (List ℕ)) (whole : List ℕ) (text : RegexText)
      → Holds cap whole text
      → Holds cap (whole ++ shown s) (text_printf cap s text)
  text_printf-Holds none whole text one = rw append-nil one
  text_printf-Holds (some s) whole text one = text_append-Holds (take 255 s) whole text one

-- Regex_toString, of a pattern and into a buffer of at least one byte, writes the start of the whole
-- text that fits beside the NUL, and reports a cut exactly where the whole text does not fit.
pub regex_to_string-Holds :
    (printed : Format → Option (List ℕ)) (cap : ℕ) (r : Regex)
    → 0 < cap
    → (text : RegexText) × (regex_to_string printed cap (some r) ≡ some text)
      × (text.written ≡ take (cap - 1) (whole_text printed r))
      × (text.truncated ≡ leb cap (length (whole_text printed r)))
unfolding regex_to_string
regex_to_string-Holds printed cap r roomy =
    let f : (cap == 0) ≡ false = ground arith in
    let head = text_append-Holds cap roomy slash _ _ (
      text_append-Holds cap roomy r.pattern _ _
        (text_append-Holds cap roomy slash _ _ (Holds-nothing cap roomy))) in
    let ism = append_if-Holds cap roomy (has_flag r.flags multi_line) (b'm' ∷ []) _ _ (
      append_if-Holds cap roomy (has_flag r.flags dot_all) (b's' ∷ []) _ _
        (append_if-Holds cap roomy (has_flag r.flags case_insensitive) (b'i' ∷ []) _ _ head)) in
    let all =
      text_printf-Holds cap roomy (printed (groups_insts r.group_count (count r.program))) _ _
        ism in
    (_, rw f refl, all.start, all.cut)
