-- ===== src/Search/Find/First.antt =====
-- find_substring finds the first place.
use vexspoke.Base.{
  ℕ, ◌+◌, ◌-◌, ◌≤◌, ◌<◌, ◌≡◌, refl, List, Bool, true, false, ◌==◌, arith, length, Option, none,
  some, get_or, ◌-◌, ◌⊎◌, inl, inr, ◌&&◌, ◌||◌, Bool-cases,
}
use vexspoke.Search.Find.{is_bounded, is_word_boundary, accepts}

-- What is found among the places from `low` to `high`: the first that is accepted, or none.
pub IsFirst : (ℕ → Bool) → ℕ → ℕ → Option ℕ → Type 0
IsFirst accept low high none = (k : ℕ) → low ≤ k → k < high → accept k ≡ false
IsFirst accept low high (some i) =
    (low ≤ i) × (i < high) × (accept i ≡ true) × ((k : ℕ) → low ≤ k → k < i → accept k ≡ false)

module _ (tolower : ℕ → ℕ) (isalnum : ℕ → Bool) where
  module _ (sensitive exact_word : Bool) (text pattern : List ℕ) where
    abbrev accept : ℕ → Bool
    accept = accepts tolower isalnum sensitive exact_word text pattern

  -- A byte of a word.
  abbrev pub WordByte : ℕ → Type 0
  WordByte c = (isalnum c ≡ true) ⊎ (c ≡ 95)

  -- The pattern stands in the text at a place: each of its bytes does, as it is where the search is
  -- case-sensitive, and else after tolower; where whole words are looked for, there is no byte of a word
  -- before it nor behind it.
  pub record StandsAt (sensitive exact_word : Bool) (text pattern : List ℕ) (i : ℕ) : Type 0 where
    pub exactly :
        sensitive ≡ true → (k : ℕ) → k < length pattern → get_or text (i + k) 0 ≡ get_or pattern k 0
    pub folded :
        sensitive ≡ false
        → (k : ℕ) → k < length pattern
        → tolower (get_or text (i + k) 0) ≡ tolower (get_or pattern k 0)
    pub before : exact_word ≡ true → 0 < i → ¬ (WordByte (get_or text (i - 1) 0))
    pub behind :
        exact_word ≡ true
        → i + length pattern < length text
        → ¬ (WordByte (get_or text (i + length pattern) 0))

  -- What find_substring is to return: the first place where the pattern stands, or none.
  pub IsFound : Bool → Bool → List ℕ → List ℕ → Option ℕ → Type 0
  IsFound sensitive exact_word text pattern none =
      (k : ℕ) → k + length pattern ≤ length text → ¬ (StandsAt sensitive exact_word text pattern k)
  IsFound sensitive exact_word text pattern (some i) =
      (i + length pattern ≤ length text)
      × StandsAt sensitive exact_word text pattern i
      × ((k : ℕ) → k < i → ¬ (StandsAt sensitive exact_word text pattern k))

  WordByte-boundary : (c : ℕ) → ¬ (WordByte c) → is_word_boundary tolower isalnum c ≡ true
  unfolding is_word_boundary
  WordByte-boundary c free = elim (Bool-cases (isalnum c)) [
    | inl t ↦ absurd (free (inl t))
    | inr f ↦ elim (Bool-cases (c == 95)) [
      | inl t ↦ absurd (free (inr (ground (arith, t))))
      | inr g ↦ rw (is_word_boundary, f, g) refl
    ]
  ]

  module _ (sensitive exact_word : Bool) (text pattern : List ℕ) where
    bounded :
        (i : ℕ)
        → i + length pattern ≤ length text
        → (0 < i → ¬ (WordByte (get_or text (i - 1) 0)))
        → (i + length pattern < length text → ¬ (WordByte (get_or text (i + length pattern) 0)))
        → is_bounded tolower isalnum text (length pattern) i ≡ true
    unfolding is_bounded
    bounded i low before behind =
        both (i == 0) (is_word_boundary tolower isalnum (get_or text (i - 1) 0))
          (i + length pattern == length text) _
          (λ f. WordByte-boundary (get_or text (i - 1) 0) (before (ground (arith, f))))
          (λ f.
            WordByte-boundary (get_or text (i + length pattern) 0)
              (behind (ground (arith, f, low))))
      where
        both :
            (a b c d : Bool)
            → (a ≡ false → b ≡ true)
            → (c ≡ false → d ≡ true)
            → ((a || b) && (c || d)) ≡ true
        both true b true d h k = refl
        both true b false d h k = k refl
        both false b true d h k = rw (h refl) refl
        both false b false d h k = rw (h refl, k refl) refl
