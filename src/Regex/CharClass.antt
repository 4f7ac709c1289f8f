-- ===== src/Regex/CharClass.antt =====
-- src/regex/charclass.c: the set of bytes of a bracket expression, a bitmap of 32 bytes.
pub mod Bits
pub mod Members
pub mod Families
mod Tests
use Prim.Native.Nat.{bit_and, bit_or}
use vexspoke.Base.{
  ℕ, zero, suc, ◌+◌, ◌-◌, ◌*◌, ◌/◌, ◌%◌, ◌^◌, List, [], ◌∷◌, Bool, true, false, not, ◌&&◌, ◌||◌,
  ◌==◌, ltb, leb, if◌then◌else◌, get_or, set, replicate, map,
}

-- `RegexCharClass`, by its field `bits`.
pub record CharClass : Type 0 where
  pub bits : List ℕ

-- setBit. The bits below the third place of a byte are its remainder by 8.
pub set_bit : CharClass → ℕ → CharClass
set_bit cls byte = record {
  bits = set cls.bits (byte / 8) (bit_or (get_or cls.bits (byte / 8) 0) (2 ^ (byte % 8)));
}

-- addFoldedByte.
pub add_folded_byte : CharClass → ℕ → Bool → CharClass
add_folded_byte cls byte insensitive =
    let cls' = set_bit cls byte in
    if not insensitive
    then cls'
    else if leb b'A' byte && leb byte b'Z'
    then set_bit cls' (byte + 32)
    else if leb b'a' byte && leb byte b'z'
    then set_bit cls' (byte - 32)
    else cls'

-- RegexCharClass_clear: 32 bytes are cleared.
pub clear : CharClass
clear = record { bits = replicate 32 0 }

-- RegexCharClass_addByte.
pub add_byte : CharClass → ℕ → Bool → CharClass
add_byte = add_folded_byte

-- The loop of RegexCharClass_addRange, for `n` bytes from `c` on.
pub add_run : CharClass → ℕ → ℕ → Bool → CharClass
add_run cls c zero insensitive = cls
add_run cls c (suc n) insensitive =
    add_run (add_folded_byte cls c insensitive) (c + 1) n insensitive

-- RegexCharClass_addRange.
pub add_range : CharClass → ℕ → ℕ → Bool → CharClass
add_range cls lo hi insensitive =
    if ltb hi lo then cls else add_run cls lo (hi + 1 - lo) insensitive

-- A loop of setBit over the `n` bytes from `c` on that pass a test.
pub set_where : (ℕ → Bool) → CharClass → ℕ → ℕ → CharClass
set_where p cls c zero = cls
set_where p cls c (suc n) = set_where p (if p c then set_bit cls c else cls) (c + 1) n

-- The tests that the families use.
abbrev pub is_digit : ℕ → Bool
is_digit c = leb b'0' c && leb c b'9'

abbrev pub is_word : ℕ → Bool
is_word c =
    leb b'0' c && leb c b'9' || leb b'A' c && leb c b'Z' || leb b'a' c && leb c b'z' || c == b'_'

-- The space, \t, \n, \r, \f and \v.
abbrev pub is_space : ℕ → Bool
is_space c = c == 32 || c == 9 || c == 10 || c == 13 || c == 12 || c == 11

abbrev every : ℕ → Bool
every c = true

-- RegexCharClass_isPredefined.
pub is_predefined : ℕ → Bool
is_predefined letter =
    letter == b'd'
    || letter == b'D'
    || letter == b'w'
    || letter == b'W'
    || letter == b's'
    || letter == b'S'

-- RegexCharClass_addPredefined.
pub add_predefined : CharClass → ℕ → CharClass
add_predefined cls letter =
    if letter == b'd'
    then set_where every cls b'0' 10
    else if letter == b'D'
    then set_where (λ c. not (is_digit c)) cls 0 256
    else if letter == b'w'
    then set_bit (set_where every (set_where every (set_where every cls b'0' 10) b'A' 26) b'a' 26)
        b'_'
    else if letter == b'W'
    then set_where (λ c. not (is_word c)) cls 0 256
    else if letter == b's'
    then set_bit (set_bit (set_bit (set_bit (set_bit (set_bit cls 32) 9) 10) 13) 12) 11
    else if letter == b'S'
    then set_where (λ c. not (is_space c)) cls 0 256
    else cls

-- RegexCharClass_negate. The complement of a byte, cut to 8 bits.
pub negate : CharClass → CharClass
negate cls = record { bits = map (λ b. 255 - b) cls.bits }

-- RegexCharClass_test.
pub test : CharClass → ℕ → Bool
test cls byte = not (bit_and (get_or cls.bits (byte / 8) 0) (2 ^ (byte % 8)) == 0)
