-- ===== src/Companion/Digest.antt =====
-- The byte storage of `IgnoredScent` in companion.hpp: a 64-bit hash as eight bytes and back.
use native.Mathlib.Nat.{pow-suc}
use surveillance_hound.Common.{
  ℕ, zero, suc, ◌+◌, ◌*◌, ◌/◌, ◌%◌, ◌^◌, ◌<◌, ◌≡◌, List, [], ◌∷◌, arith,
}

-- digest[i] = uint8_t(value >> (8 * i)), for the n bytes that are left.
unfoldable pub bytes_of : ℕ → ℕ → List ℕ
bytes_of zero value = []
bytes_of (suc n) value = value % 256 ∷ bytes_of n (value / 256)

unfoldable pub digest_of : ℕ → List ℕ
unfolding bytes_of
digest_of value = bytes_of 8 value

-- The bytes shifted into place; they do not overlap, so `|=` adds.
unfoldable pub hash_of : List ℕ → ℕ
hash_of [] = 0
hash_of (b ∷ bs) = b + 256 * hash_of bs

hash_of-bytes_of : (n value : ℕ) → value < 256 ^ n → hash_of (bytes_of n value) ≡ value
unfolding hash_of bytes_of
hash_of-bytes_of zero value h = omega arith
hash_of-bytes_of (suc n) value h =
    ground (arith, hash_of-bytes_of n (value / 256) (omega (arith, pow-suc 256 n)))

-- A stored hash reads back as it was.
pub hash_of-digest_of : (value : ℕ) → value < 2 ^ 64 → hash_of (digest_of value) ≡ value
unfolding digest_of
hash_of-digest_of value h = hash_of-bytes_of 8 value h
