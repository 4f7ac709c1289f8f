-- ===== src/Regex/CharClass/Families.antt =====
-- Which bytes the predefined families add to a class.
use vexspoke.Base.{
  ℕ, zero, suc, ◌+◌, ◌≤◌, ◌<◌, ◌≡◌, inl, inr, refl, ap, Bool, true, false, not, ◌&&◌, ◌||◌, ◌==◌,
  ltb, leb, arith, if◌then◌else◌, Bool-cases,
}
use vexspoke.Regex.CharClass.{
  CharClass, set_bit, set_where, every, is_digit, is_word, is_space, add_predefined, test,
}
use vexspoke.Regex.CharClass.Members.{IsBitmap, Adds, set_bit-Adds, Adds-trans, Adds-ext}

at_start : (a b : ℕ) (p : ℕ → Bool) → (a == b) ≡ true → p a ≡ p b
at_start a b p h = ap p (ground arith)

set_where-Adds :
    (p : ℕ → Bool) (lo n : ℕ) {cls : CharClass}
    → IsBitmap cls
    → lo + n ≤ 256
    → Adds cls (λ c. leb lo c && (ltb c (lo + n) && p c)) (set_where p cls lo n)
unfolding set_where
set_where-Adds p lo zero v h = record { valid = v; holds = λ c hc. ground arith }
set_where-Adds p lo (suc n) {cls} v h = elim (Bool-cases (p lo)) [
  | inl member ↦
      let first = set_bit-Adds {cls = cls} lo v (omega arith) in
      rw member (
        Adds-ext _ _ (λ c hc. ground (arith, at_start lo c p))
          (Adds-trans _ _ first (set_where-Adds p (lo + 1) n first.valid (omega arith))))
  | inr skipped ↦ rw skipped (
      Adds-ext _ _ (λ c hc. ground (arith, at_start lo c p))
        (set_where-Adds p (lo + 1) n v (omega arith)))
]

-- The bytes of a family, by its letter.
abbrev pub family : ℕ → ℕ → Bool
family letter c =
    if letter == b'd'
    then is_digit c
    else if letter == b'D'
    then not (is_digit c)
    else if letter == b'w'
    then is_word c
    else if letter == b'W'
    then not (is_word c)
    else if letter == b's'
    then is_space c
    else if letter == b'S'
    then not (is_space c)
    else false

run-Adds :
    {cls : CharClass} (lo n : ℕ)
    → IsBitmap cls
    → lo + n ≤ 256
    → Adds cls (λ c. leb lo c && ltb c (lo + n)) (set_where every cls lo n)
run-Adds lo n v h = Adds-ext _ _ (λ c hc. ground arith) (set_where-Adds every lo n v h)

all-Adds : (p : ℕ → Bool) {cls : CharClass} → IsBitmap cls → Adds cls p (set_where p cls 0 256)
all-Adds p v = Adds-ext _ _ (λ c hc. ground arith) (set_where-Adds p 0 256 v (omega arith))

word-Adds :
    {cls : CharClass}
    → IsBitmap cls
    → Adds cls is_word (
        set_bit
          (set_where every (set_where every (set_where every cls b'0' 10) b'A' 26) b'a' 26)
          b'_')
word-Adds v =
    let digits = run-Adds b'0' 10 v (omega arith) in
    let uppers = run-Adds b'A' 26 digits.valid (omega arith) in
    let lowers = run-Adds b'a' 26 uppers.valid (omega arith) in
    let line = set_bit-Adds b'_' lowers.valid (omega arith) in
    Adds-ext _ _ (λ c hc. ground arith)
      (Adds-trans _ _ digits (Adds-trans _ _ uppers (Adds-trans _ _ lowers line)))

space-Adds :
    {cls : CharClass}
    → IsBitmap cls
    → Adds cls is_space
        (set_bit (set_bit (set_bit (set_bit (set_bit (set_bit cls 32) 9) 10) 13) 12) 11)
space-Adds v =
    let a = set_bit-Adds 32 v (omega arith) in
    let b = set_bit-Adds 9 a.valid (omega arith) in
    let c = set_bit-Adds 10 b.valid (omega arith) in
    let d = set_bit-Adds 13 c.valid (omega arith) in
    let e = set_bit-Adds 12 d.valid (omega arith) in
    let f = set_bit-Adds 11 e.valid (omega arith) in
    Adds-ext _ _ (λ x hx. ground arith)
      (Adds-trans _ _ a
        (Adds-trans _ _ b (Adds-trans _ _ c (Adds-trans _ _ d (Adds-trans _ _ e f)))))

add_predefined-Adds :
    {cls : CharClass} (letter : ℕ)
    → IsBitmap cls
    → Adds cls (family letter) (add_predefined cls letter)
unfolding add_predefined
add_predefined-Adds letter v = elim (Bool-cases (letter == b'd')) [
  | inl h ↦ rw (h) (
      Adds-ext is_digit (family letter) (λ c hc. rw (h))
        (Adds-ext _ is_digit (λ c hc. ground arith) (run-Adds b'0' 10 v (omega arith))))
  | inr n0 ↦ elim (Bool-cases (letter == b'D')) [
    | inl h ↦
        rw (n0, h)
          (Adds-ext (λ c. not (is_digit c)) (family letter) (λ c hc. rw (n0, h))
            (all-Adds (λ c. not (is_digit c)) v))
    | inr n1 ↦ elim (Bool-cases (letter == b'w')) [
      | inl h ↦
          rw (n0, n1, h) (Adds-ext is_word (family letter) (λ c hc. rw (n0, n1, h)) (word-Adds v))
      | inr n2 ↦ elim (Bool-cases (letter == b'W')) [
        | inl h ↦
            rw (n0, n1, n2, h)
              (Adds-ext (λ c. not (is_word c)) (family letter) (λ c hc. rw (n0, n1, n2, h))
                (all-Adds (λ c. not (is_word c)) v))
        | inr n3 ↦ elim (Bool-cases (letter == b's')) [
          | inl h ↦
              rw (n0, n1, n2, n3, h)
                (Adds-ext is_space (family letter) (λ c hc. rw (n0, n1, n2, n3, h)) (space-Adds v))
          | inr n4 ↦ elim (Bool-cases (letter == b'S')) [
            | inl h ↦
                rw (n0, n1, n2, n3, n4, h)
                  (Adds-ext (λ c. not (is_space c)) (family letter)
                    (λ c hc. rw (n0, n1, n2, n3, n4, h)) (all-Adds (λ c. not (is_space c)) v))
            | inr n5 ↦
                rw (n0, n1, n2, n3, n4, n5)
                  (Adds-ext (λ c. false) (family letter) (λ c hc. rw (n0, n1, n2, n3, n4, n5))
                    (record { valid = v; holds = λ c hc. refl }))
          ]
        ]
      ]
    ]
  ]
]

-- Adding a predefined family adds exactly its bytes: the digits, the word bytes or the white space
-- for a small letter, all others for a capital, and nothing for any other letter.
pub test-add_predefined :
    {cls : CharClass} (letter c : ℕ)
    → IsBitmap cls
    → c < 256
    → test (add_predefined cls letter) c ≡ (family letter c || test cls c)
test-add_predefined letter c v h = (add_predefined-Adds letter v).holds c h
