-- ===== src/Util/Hash.antt =====
-- src/util/hash.c: FNV-1a and the finalizers of MurmurHash3, on words of 64 and of 32 bits. A null
-- pointer is not modelled.
mod Tests
use Prim.Native.Nat.{bit_xor}
use vexspoke.Base.{ℕ, ◌*◌, ◌/◌, ◌^◌, List, [], ◌∷◌, u32, u64}

abbrev fnv_offset : ℕ
fnv_offset = 0xcbf29ce484222325

abbrev fnv_prime : ℕ
fnv_prime = 0x100000001b3

-- The loop of Hash_fnv1a64.
abbrev pub fnv_loop : ℕ → List ℕ → ℕ
fnv_loop hash [] = hash
fnv_loop hash (byte ∷ bytes) = fnv_loop (u64 (bit_xor hash byte * fnv_prime)) bytes

-- Hash_fnv1a64: no bytes hash to 0.
abbrev pub fnv1a64 : List ℕ → ℕ
fnv1a64 [] = 0
fnv1a64 (byte ∷ bytes) = fnv_loop fnv_offset (byte ∷ bytes)

-- Hash_murmur3Mix64.
abbrev pub murmur3_mix64 : ℕ → ℕ
murmur3_mix64 k =
    let k1 = bit_xor k (k / 2 ^ 33) in
    let k2 = u64 (k1 * 0xff51afd7ed558ccd) in
    let k3 = bit_xor k2 (k2 / 2 ^ 33) in
    let k4 = u64 (k3 * 0xc4ceb9fe1a85ec53) in bit_xor k4 (k4 / 2 ^ 33)

-- Hash_murmur3Mix32.
abbrev pub murmur3_mix32 : ℕ → ℕ
murmur3_mix32 k =
    let k1 = bit_xor k (k / 2 ^ 16) in
    let k2 = u32 (k1 * 0x85ebca6b) in
    let k3 = bit_xor k2 (k2 / 2 ^ 13) in let k4 = u32 (k3 * 0xc2b2ae35) in bit_xor k4 (k4 / 2 ^ 16)

-- Hash_pointer, of the address.
abbrev pub hash_pointer : ℕ → ℕ
hash_pointer address = murmur3_mix64 address
