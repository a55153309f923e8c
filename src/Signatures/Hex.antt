-- ===== src/Signatures/Hex.antt =====
-- Hex prefixes as what they stand for: bytes at the start of the bytes.
use surveillance_hound.Common.{
  ℕ, ◌+◌, ◌-◌, ◌*◌, ◌/◌, ◌%◌, ◌≤◌, ◌<◌, ◌≡◌, refl, ap₂, inl, inr, false, ◌&&◌, some, List, [], ◌∷◌,
  arith, ltb, ◌==◌, if◌then◌else◌, Bool-cases, length, All,
}
use surveillance_hound.Core.Text.{starts_with}
use surveillance_hound.Signatures.{hex, hex_byte, hex_pairs, hex_prefix}

-- The digit that the signature files write for a value below sixteen.
unfoldable pub digit : ℕ → ℕ
digit n = if ltb n 10 then b'0' + n else b'A' + (n - 10)

unfoldable pub hex_text : List ℕ → List ℕ
unfolding digit
hex_text [] = []
hex_text (b ∷ bs) = digit (b / 16) ∷ digit (b % 16) ∷ hex_text bs

hex-digit : (n : ℕ) → n < 16 → hex (digit n) ≡ some n
unfolding hex digit
hex-digit n lt = ground arith

length-hex_text : (bs : List ℕ) → length (hex_text bs) ≡ 2 * length bs
unfolding hex_text
length-hex_text [] = refl
length-hex_text (b ∷ bs) = ground (arith, length-hex_text bs)

hex_byte-digits :
    (b d : ℕ) → b < 256 → hex_byte (hex (digit (b / 16))) (hex (digit (b % 16))) d ≡ (d == b)
unfolding hex_byte
hex_byte-digits b d lt =
    rw (hex-digit (b / 16) (omega arith), hex-digit (b % 16) (omega arith)) (ground arith)

hex_pairs-hex_text :
    (bs bytes : List ℕ)
    → All (λ b. b < 256) bs
    → length bs ≤ length bytes
    → hex_pairs (hex_text bs) bytes ≡ starts_with bytes bs
unfolding hex_pairs hex_text starts_with
hex_pairs-hex_text [] bytes small fits = refl
hex_pairs-hex_text (b ∷ bs) [] small fits = absurd (omega arith)
hex_pairs-hex_text (b ∷ bs) (d ∷ bytes) small fits =
    ap₂ (λ x y. x && y) (hex_byte-digits b d small.0)
      (hex_pairs-hex_text bs bytes small.1 (omega arith))

short : (bytes bs : List ℕ) → length bytes < length bs → starts_with bytes bs ≡ false
unfolding starts_with
short bytes [] lt = absurd (omega arith)
short [] (b ∷ bs) lt = refl
short (d ∷ bytes) (b ∷ bs) lt = ground (arith, short bytes bs (omega arith))

-- The hex text of some bytes, at least one, matches bytes exactly when the bytes starts with those
-- bytes.
pub hex_prefix-hex_text :
    (b : ℕ) (bs bytes : List ℕ)
    → All (λ x. x < 256) (b ∷ bs)
    → hex_prefix (hex_text (b ∷ bs)) bytes ≡ starts_with bytes (b ∷ bs)
unfolding hex_prefix
hex_prefix-hex_text b bs bytes small = elim (Bool-cases (ltb (length bytes) (length (b ∷ bs)))) [
  | inl e ↦ ground (arith, length-hex_text (b ∷ bs), short bytes (b ∷ bs))
  | inr e ↦
      ground
        (arith, length-hex_text (b ∷ bs), hex_pairs-hex_text (b ∷ bs) bytes small (ground arith))
]
