-- ===== src/Search/Find.antt =====
-- src/search/find.c: substring search with word boundaries, and SQL wildcards. A string is the
-- list of its bytes before the NUL; the branches on a null string are not modelled. `tolower` and
-- `isalnum` belong to the C library and are parameters. The casts to `int` are exact below 2^31.
pub mod First
mod Tests
use vexspoke.Base.{
  ℕ, zero, suc, ◌+◌, ◌-◌, ◌/◌, ◌%◌, List, [], ◌∷◌, Bool, true, false, not, ◌&&◌, ◌||◌, ◌==◌, ltb,
  leb, if◌then◌else◌, get_or, length, Option, none, some,
}

-- Whether bit `k` of the flags is set: the tests `flags & FIND_…`.
abbrev pub has_flag : ℕ → ℕ → Bool
has_flag flags bit = flags / bit % 2 == 1

module _ (tolower : ℕ → ℕ) (isalnum : ℕ → Bool) where
  pub normalize_char : ℕ → Bool → ℕ
  normalize_char c case_sensitive = if case_sensitive then c else tolower c

  pub is_word_boundary : ℕ → Bool
  is_word_boundary c = not (isalnum c) && not (c == b'_')

  -- The end of match_like: the text is used up.
  pub only_stars : List ℕ → Bool
  only_stars [] = true
  only_stars (c ∷ pattern) = if c == b'%' then only_stars pattern else false

  -- Where match_like goes back to: the pattern after the last `%`, and one byte less of the text
  -- that it was last tried on.
  pub go_back : Option (List ℕ × List ℕ) → Option (List ℕ × List ℕ)
  go_back none = none
  go_back (some (pattern, [])) = none
  go_back (some (pattern, c ∷ text)) = some (pattern, text)

  -- match_like. `saved` holds the pattern after the last `%` and the text it was last tried on;
  -- `none` is a run that the fuel does not cover.
  pub match_like : ℕ → Bool → List ℕ → List ℕ → Option (List ℕ × List ℕ) → Option Bool
  match_like zero sensitive text pattern saved = none
  match_like (suc fuel) sensitive [] pattern saved = some (only_stars pattern)
  match_like (suc fuel) sensitive (c ∷ text) [] saved = elim (go_back saved) [
    | none ↦ some false
    | some (pattern', text') ↦ match_like fuel sensitive text' pattern' (some (pattern', text'))
  ]
  match_like (suc fuel) sensitive (c ∷ text) (p ∷ pattern) saved = elim (p == b'%') [
    | true ↦ match_like fuel sensitive (c ∷ text) pattern (some (pattern, c ∷ text))
    | false ↦ elim (p == b'_' || normalize_char c sensitive == normalize_char p sensitive) [
      | true ↦ match_like fuel sensitive text pattern saved
      | false ↦ elim (go_back saved) [
        | none ↦ some false
        | some (pattern', text') ↦ match_like fuel sensitive text' pattern' (some (pattern', text'))
      ]
    ]
  ]

  -- The inner loop of find_substring: the first `n` bytes of the pattern, from `j` on.
  pub matches_at : Bool → List ℕ → List ℕ → ℕ → ℕ → ℕ → Bool
  matches_at sensitive text pattern i zero j = true
  matches_at sensitive text pattern i (suc n) j =
      if normalize_char (get_or text (i + j) 0) sensitive
        == normalize_char (get_or pattern j 0) sensitive
      then matches_at sensitive text pattern i n (suc j)
      else false

  -- The test of the word boundaries round a match at `i`.
  pub is_bounded : List ℕ → ℕ → ℕ → Bool
  is_bounded text plen i =
      let left_ok = i == 0 || is_word_boundary (get_or text (i - 1) 0) in
      let right_ok = i + plen == length text || is_word_boundary (get_or text (i + plen) 0) in
      left_ok && right_ok

  -- Whether find_substring stops at `i`.
  pub accepts : Bool → Bool → List ℕ → List ℕ → ℕ → Bool
  accepts sensitive exact_word text pattern i =
      matches_at sensitive text pattern i (length pattern) 0
      && (not exact_word || is_bounded text (length pattern) i)

  -- The outer loop, over `n` places from `i` on.
  pub scan : Bool → Bool → List ℕ → List ℕ → ℕ → ℕ → Option ℕ
  scan sensitive exact_word text pattern zero i = none
  scan sensitive exact_word text pattern (suc n) i =
      elim (accepts sensitive exact_word text pattern i) [
        | true ↦ some i
        | false ↦ scan sensitive exact_word text pattern n (suc i)
      ]

  -- find_substring, where `none` is -1.
  pub find_substring : List ℕ → List ℕ → Bool → Bool → Option ℕ
  find_substring text pattern sensitive exact_word =
      if length pattern == 0
      then some 0
      else if ltb (length text) (length pattern)
      then none
      else scan sensitive exact_word text pattern (length text - length pattern + 1) 0

  abbrev pub is_found : Option ℕ → Bool
  is_found none = false
  is_found (some i) = true

  -- The exported functions; `fuel` is that of match_like.
  pub search_like : ℕ → List ℕ → List ℕ → Bool → Option Bool
  search_like fuel text pattern sensitive = match_like fuel sensitive text pattern none

  pub search_exact_word : List ℕ → List ℕ → Bool → Bool
  search_exact_word text word sensitive = is_found (find_substring text word sensitive true)

  pub search_find_first : List ℕ → List ℕ → ℕ → Option ℕ
  search_find_first text pattern flags =
      find_substring text pattern (has_flag flags 1) (has_flag flags 2)

  pub search_match : ℕ → List ℕ → List ℕ → ℕ → Option Bool
  search_match fuel text pattern flags =
      if has_flag flags 4
      then match_like fuel (has_flag flags 1) text pattern none
      else some (is_found (find_substring text pattern (has_flag flags 1) (has_flag flags 2)))
