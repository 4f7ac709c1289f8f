-- ===== src/Regex/Parser/Ends.antt =====
-- What holds of the result of a part of the parser, where it has one; a run that is refused is not
-- stuck.
use vexspoke.Base.{ℕ, ◌≤◌, ◌≡◌, ◌≢◌, refl, ◌∙◌, Bool, true, false, if◌then◌else◌, arith}
use vexspoke.Regex.Parser.{Parser, Parsed, done, refused, ◌>>=◌, stuck}

abbrev pub Ends : {A : Type 0} → (A → Parser → Type 0) → Parsed A → Type 0
Ends Q (done a p) = Q a p
Ends Q (refused e) = e ≢ stuck

pub >>=-Ends :
    {A B : Type 0} (Q : A → Parser → Type 0) (R : B → Parser → Type 0) (m : Parsed A)
    (f : A → Parser → Parsed B)
    → Ends Q m
    → ((a : A) (p : Parser) → Q a p → Ends R (f a p))
    → Ends R (m >>= f)
>>=-Ends Q R (done a p) f h k = k a p h
>>=-Ends Q R (refused e) f h k = h

pub if-Ends :
    {A : Type 0} (Q : A → Parser → Type 0) (b : Bool) (m m' : Parsed A)
    → (b ≡ true → Ends Q m)
    → (b ≡ false → Ends Q m')
    → Ends Q (if b then m else m')
if-Ends Q true m m' h k = h refl
if-Ends Q false m m' h k = k refl

-- A part of the parser that leaves the nodes and the nesting alone, and ends at a place or behind it.
pub record Reads (at : ℕ) (before after : Parser) : Type 0 where
  pub nodes_same : after.nodes ≡ before.nodes
  pub depth_same : after.depth ≡ before.depth
  pub moved : at ≤ after.pos

pub Reads-trans : {at at' : ℕ} (p q r : Parser) → Reads at p q → Reads at' q r → Reads at' p r
Reads-trans p q r one two = record {
  nodes_same = two.nodes_same ∙ one.nodes_same;
  depth_same = two.depth_same ∙ one.depth_same;
  moved = two.moved;
}

pub Reads-le : {at at' : ℕ} (p q : Parser) → at' ≤ at → Reads at p q → Reads at' p q
Reads-le p q h one = record {
  nodes_same = one.nodes_same;
  depth_same = one.depth_same;
  moved = omega (arith, h, one.moved);
}
