-- ===== src/Privacy.antt =====
-- components/sniffer_core/privacy.cpp: what identifies a device in the saved data, made from its address
-- with the device's key. `hmac` stands for hmac_sha256, which a cryptographic library computes.
pub mod Token
mod Tests
use surveillance_hound.Common.{
  ℕ, zero, suc, ◌+◌, ◌-◌, ◌*◌, ◌/◌, ◌%◌, ◌^◌, ◌≤◌, ◌<◌, min, max, pred, ◌≡◌, refl, sym, ap, ap₂,
  subst, ◌∙◌, ◌≢◌, ◌↔◌, ◌⊎◌, inl, inr, Bool, true, false, not, ◌&&◌, ◌||◌, Option, none, some, List,
  [], ◌∷◌, ◌++◌, map, arith, ltb, leb, ◌==◌, if◌then◌else◌, bool_eq, to_bit, Bool-cases,
  Option-cases, length, take, byte_at,
}
use surveillance_hound.Core.{Detection, samsung_identity, radio_index}
use surveillance_hound.Core.Category.{samsung_tag}
use surveillance_hound.Core.Text.{codes}

abbrev pub alphabet : List ℕ
alphabet = codes "ABCDEFGHIJKLMNOPQRSTUVWXYZ234567"

unfoldable pub letter : ℕ → ℕ
letter k = byte_at alphabet (k % 32)

-- The inner loop: five bits at a time, the highest first. Each round takes five of the bits that are
-- available, so that many rounds are enough.
unfoldable pub drain : ℕ → ℕ → ℕ → List ℕ × ℕ
unfolding letter
drain zero bits available = ([], available)
drain (suc fuel) bits available =
    let (text, left) = drain fuel bits (available - 5) in
    if ltb available 5 then ([], available) else (letter (bits / 2 ^ (available - 5)) ∷ text, left)

-- The loop over the bytes of the code, and the last letter.
unfoldable pub base32 : ℕ → ℕ → List ℕ → List ℕ
unfolding drain
base32 bits available [] =
    if available == 0 then [] else letter (bits * 2 ^ (5 - available) % 2 ^ 32) ∷ []
base32 bits available (b ∷ bytes) =
    let bits' = bits * 256 % 2 ^ 32 + b in
    let (text, left) = drain (available + 8) bits' (available + 8) in
    text ++ base32 bits' left bytes

unfoldable pub samsung_input : Detection → ℕ → List ℕ
samsung_input d purpose = b'S' ∷ b'H' ∷ 1 ∷ purpose ∷ samsung_tag ∷ d.samsung.id

unfoldable pub address_input : Detection → List ℕ
address_input d = d.address ++ (radio_index d.radio ∷ d.address_type ∷ [])

-- The first bytes of a code, the highest first.
unfoldable pub big_endian : ℕ → List ℕ → ℕ
big_endian value [] = value
big_endian value (b ∷ bytes) = big_endian (value * 256 % 2 ^ 64 + b) bytes

-- Zero stands for a code that could not be computed.
unfoldable pub hash_of_digest : Option (List ℕ) → ℕ
unfolding big_endian
hash_of_digest none = 0
hash_of_digest (some digest) =
    let value = big_endian 0 (take 8 digest) in if value == 0 then 1 else value

abbrev pub token_of : Option (List ℕ) → Option (List ℕ)
token_of none = none
token_of (some digest) = some (base32 0 0 (take 12 digest))

module _ (hmac : List ℕ → List ℕ → Option (List ℕ)) where
  unfoldable pub digest_hash : List ℕ → List ℕ → ℕ
  unfolding hash_of_digest
  digest_hash key input = hash_of_digest (hmac key input)

  unfoldable pub private_token : List ℕ → Detection → Option (List ℕ)
  unfolding base32 samsung_input address_input samsung_identity
  private_token key d =
      token_of (hmac key (if samsung_identity d then samsung_input d 1 else address_input d))

  unfoldable pub address_hash : List ℕ → Detection → ℕ
  unfolding digest_hash address_input
  address_hash key d = digest_hash key (address_input d ++ (d.category ∷ []))

  unfoldable pub meal_hash : List ℕ → Detection → ℕ
  unfolding digest_hash samsung_input address_hash samsung_identity
  meal_hash key d =
      if samsung_identity d then digest_hash key (samsung_input d 2) else address_hash key d
