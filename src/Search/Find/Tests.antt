-- ===== src/Search/Find/Tests.antt =====
-- The theorems on src/search/find.c at concrete texts.
use vexspoke.Base.{
  ℕ, ◌+◌, ◌≡◌, refl, List, [], ◌∷◌, Bool, true, ◌&&◌, leb, if◌then◌else◌, none, some,
}
use vexspoke.Search.Find.{match_like, matches_at, normalize_char}

-- The functions of the C locale.
abbrev lower : ℕ → ℕ
lower c = if leb b'A' c && leb c b'Z' then c + 32 else c

abbrev alnum : ℕ → Bool
alnum c = leb b'a' (lower c) && leb (lower c) b'z'

-- "a cat" and "CAT"
abbrev a_cat : List ℕ
a_cat = 97 ∷ 32 ∷ 99 ∷ 97 ∷ 116 ∷ []

abbrev cat : List ℕ
cat = 67 ∷ 65 ∷ 84 ∷ []

-- "%c_t" matches "a cat".
like_cat : match_like lower alnum 20 true a_cat (37 ∷ 99 ∷ 95 ∷ 116 ∷ []) none ≡ some true
unfolding match_like normalize_char vexspoke.Search.Find.go_back vexspoke.Search.Find.only_stars
like_cat = refl
