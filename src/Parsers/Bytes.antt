-- ===== src/Parsers/Bytes.antt =====
-- The byte readers and `sanitize` of components/sniffer_core/parsers.cpp.
use surveillance_hound.Common.{
  ℕ, suc, ◌+◌, ◌-◌, ◌*◌, ◌^◌, min, ◌&&◌, List, [], ◌∷◌, ◌++◌, map, leb, if◌then◌else◌, byte_at,
  take, drop, length,
}
use surveillance_hound.Common.Int.{ℤ, pos, negsuc}

-- le16(p + at)
abbrev pub le16 : List ℕ → ℕ → ℕ
le16 p at = byte_at p at + 256 * byte_at p (at + 1)

abbrev pub le32 : List ℕ → ℕ → ℕ
le32 p at = le16 p at + 65536 * le16 p (at + 2)

-- static_cast<int32_t>
abbrev pub signed32 : ℕ → ℤ
signed32 bits = if leb (2 ^ 31) bits then negsuc (2 ^ 32 - suc bits) else pos bits

abbrev pub le32s : List ℕ → ℕ → ℤ
le32s p at = signed32 (le32 p at)

-- A printable character, or a question mark.
unfoldable pub printable : ℕ → ℕ
printable b = if leb 32 b && leb b 126 then b else b'?'

-- Writes the start of `dst`, ends it with a zero, and leaves the rest of it as it was.
unfoldable pub sanitize : List ℕ → List ℕ → List ℕ
unfolding printable
sanitize bytes [] = []
sanitize bytes (d ∷ dst) =
    let n = min (length bytes) (length dst) in map printable (take n bytes) ++ (0 ∷ drop n dst)

-- `std::copy(v.begin(), v.end(), dst.begin())`, where `dst` is long enough.
unfoldable pub copy_into : List ℕ → List ℕ → List ℕ
copy_into v dst = v ++ drop (length v) dst
