-- ===== src/Util/Hash/Tests.antt =====
-- The hash functions at concrete words.
use vexspoke.Base.{◌≡◌, refl, [], ◌∷◌}
use vexspoke.Util.Hash.{fnv1a64, murmur3_mix32}

-- The published FNV-1a hash of "a".
fnv1a64_a : fnv1a64 (97 ∷ []) ≡ 0xaf63dc4c8601ec8c
fnv1a64_a = refl

mix32_one : murmur3_mix32 1 ≡ 0x514e28b7
mix32_one = refl
