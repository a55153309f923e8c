-- ===== src/Records/ReadBack.antt =====
-- What is escaped reads back as JSON.
use surveillance_hound.Common.{
  ℕ, zero, suc, ◌-◌, ◌≤◌, ◌<◌, ◌≡◌, refl, ap, false, some, List, [], ◌∷◌, ◌++◌, arith, ltb, ◌==◌,
  length, take_all, All, ◌>>=◌,
}
use surveillance_hound.Json.{
  Reader, parse, string_of, read_string, value, finish, open_token, close_token, new_reader,
}
use surveillance_hound.Json.Scan.{space}
use surveillance_hound.Records.{json_escape}
use surveillance_hound.Records.Escape.{
  escape_text, quoted, scan-escape_text, decode-escape_text, json_escape-fits,
}

small_bytes : (s : List ℕ) → All (λ c. (0 < c) × (c < 128)) s → All (λ c. c < 256) s
small_bytes [] h = tt
small_bytes (c ∷ s) h = (omega (arith, h.0.1), small_bytes s h.1)

-- The reader behind a quoted text: one token, the whole input.
abbrev one_string : List ℕ → Reader
one_string s =
    close_token (quoted s) 0
      (record (open_token (quoted s) b'"' (escape_text s ++ (b'"' ∷ [])) (new_reader (quoted s))) {
        rest = [];
      })

parse-quoted :
    (s : List ℕ)
    → All (λ c. c < 256) s
    → length (quoted s) ≤ 2048
    → parse (quoted s) ≡ some (one_string s)
unfolding parse value finish space
parse-quoted s small fits =
    let long : ltb 2048 (length (quoted s)) ≡ false = ground (arith, fits) in
    let nonempty : (length (quoted s) == 0) ≡ false = ground arith in
    rw (nonempty, long, scan-escape_text s [] small) refl

string_of-one_string :
    (s : List ℕ) (n : ℕ)
    → All (λ c. (0 < c) × (c < 128)) s
    → length s < n
    → string_of (quoted s) (one_string s) 0 n ≡ some s
unfolding string_of read_string open_token close_token
string_of-one_string s zero small fits = absurd (omega arith)
string_of-one_string s (suc n) small fits =
    let some_room : (suc n == 0) ≡ false = ground arith in
    let room : suc n - 1 ≡ n = omega arith in
    let none_before : length (quoted s) - length (quoted s) ≡ 0 = omega arith in
    rw (some_room, room, none_before)
      (rw
        (
          take_all (quoted s) (length (quoted s) - 0 - 0) (omega arith),
          decode-escape_text s n small (omega (arith, fits)),
        )
        refl)

-- An escaped text without zeros and bytes above 127 is one JSON string, and it reads back as the text
-- into any buffer that is longer than it.
pub string_of-json_escape :
    (s : List ℕ) (size n : ℕ)
    → All (λ c. (0 < c) × (c < 128)) s
    → length (quoted s) < size
    → length (quoted s) ≤ 2048
    → length s < n
    → let written = (json_escape s size).0.written in
      (do r ← parse written; string_of written r 0 n) ≡ some s
string_of-json_escape s size n small room fits buffer =
    let same : (json_escape s size).0.written ≡ quoted s =
      ap (λ p. p.0.written) (json_escape-fits s size room) in
    rw (same, parse-quoted s (small_bytes s small) fits) (string_of-one_string s n small buffer)
