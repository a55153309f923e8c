-- ===== src/Records/Escape.antt =====
-- Escaped text, character by character: what is written, how it is scanned and decoded.
use surveillance_hound.Common.{
  ==→eq, ℕ, zero, suc, ◌+◌, ◌-◌, ◌*◌, ◌/◌, ◌%◌, ◌≤◌, ◌<◌, ◌≡◌, refl, sym, ap, ◌∙◌, inl, inr, Bool,
  true, false, ◌||◌, some, List, [], ◌∷◌, ◌++◌, arith, ltb, leb, ◌==◌, Bool-cases, length,
  length-append, All, checked_up_to, checked_up_to-at,
}
use mathlib.Core.List.{append_assoc, append-nil}
use surveillance_hound.Json.Scan.{plain, hex, hex_value, scan_string, decode}
use surveillance_hound.Records.{
  written_size, Writer, new_writer, text, hex_digit, escape_char, string_chars, string, json_escape,
}

-- The escaped characters of a text.
unfoldable pub escape_text : List ℕ → List ℕ
escape_text [] = []
escape_text (c ∷ s) = escape_char c ++ escape_text s

-- The text between quotes.
abbrev pub quoted : List ℕ → List ℕ
quoted s = b'"' ∷ (escape_text s ++ (b'"' ∷ []))

hex_digit_table : checked_up_to (λ n. hex_value (hex_digit n) == n) 16 ≡ true
unfolding checked_up_to hex_value hex_digit
hex_digit_table = refl

hex_value-hex_digit : (n : ℕ) → n < 16 → hex_value (hex_digit n) ≡ n
hex_value-hex_digit n lt =
    ==→eq _ _ (checked_up_to-at (λ k. hex_value (hex_digit k) == k) 16 n lt hex_digit_table)

scan_hex :
    (k n d : ℕ) (s : List ℕ)
    → d < 16
    → scan_string (hex (suc (suc k)) n) (hex_digit d ∷ s) ≡ scan_string (hex (suc k) 0) s
unfolding scan_string hex_digit
scan_hex k n d s lt = ground arith

scan_hex_last :
    (n d : ℕ) (s : List ℕ) → d < 16 → scan_string (hex 1 n) (hex_digit d ∷ s) ≡ scan_string plain s
unfolding scan_string hex_digit
scan_hex_last n d s lt = ground arith

scan_start :
    (a b : ℕ) (s : List ℕ)
    → scan_string plain (b'\\' ∷ b'u' ∷ b'0' ∷ b'0' ∷ hex_digit a ∷ hex_digit b ∷ s)
      ≡ scan_string (hex 2 0) (hex_digit a ∷ hex_digit b ∷ s)
unfolding scan_string
scan_start a b s = refl

scan_plain :
    (c : ℕ) (s : List ℕ)
    → (c == b'"') ≡ false
    → (c == b'\\') ≡ false
    → (ltb c 32 || ltb 126 c) ≡ false
    → scan_string plain (c ∷ s) ≡ scan_string plain s
unfolding scan_string
scan_plain c s e f g = ground (arith, e, f, g)

-- An escaped character is passed over as a whole.
scan-escape_char :
    (c : ℕ) (s : List ℕ) → c < 256 → scan_string plain (escape_char c ++ s) ≡ scan_string plain s
unfolding escape_char
scan-escape_char c s lt = elim (Bool-cases (c == b'"')) [
  | inl e ↦ rw (e) (unfold scan_string in refl)
  | inr e ↦ elim (Bool-cases (c == b'\\')) [
    | inl f ↦ rw (e, f) (unfold scan_string in refl)
    | inr f ↦ elim (Bool-cases (ltb c 32 || ltb 126 c)) [
      | inl g ↦
          rw (e, f, g)
            (scan_start (c / 16) (c % 16) s
              ∙ scan_hex 0 0 (c / 16) (hex_digit (c % 16) ∷ s) (omega arith)
              ∙ scan_hex_last 0 (c % 16) s (omega arith))
      | inr g ↦ rw (e, f, g) (scan_plain c s e f g)
    ]
  ]
]

-- Every byte string is escaped to a text that the reader takes as one string, up to its quote.
pub scan-escape_text :
    (s rest : List ℕ)
    → All (λ c. c < 256) s
    → scan_string plain (escape_text s ++ (b'"' ∷ rest)) ≡ some rest
unfolding escape_text
scan-escape_text [] rest small = unfold scan_string in refl
scan-escape_text (c ∷ s) rest small =
    ap (scan_string plain) (append_assoc (escape_char c) (escape_text s) (b'"' ∷ rest))
    ∙ scan-escape_char c (escape_text s ++ (b'"' ∷ rest)) small.0
    ∙ scan-escape_text s rest small.1

-- What `decode` gives for a character c with the rest still to be read.
abbrev then_char : ℕ → List ℕ × Bool → List ℕ × Bool
then_char c (text, ok) = (c ∷ text, ok)

decode_plain :
    (c room x : ℕ) (s : List ℕ)
    → (c == b'\\') ≡ false
    → (c == 0) ≡ false
    → decode plain (suc room) (c ∷ x ∷ s) ≡ then_char c (decode plain room (x ∷ s))
unfolding decode
decode_plain c room x s e f = rw (e, f) refl

decode_start :
    (room a b : ℕ) (s : List ℕ)
    → decode plain room (b'\\' ∷ b'u' ∷ b'0' ∷ b'0' ∷ hex_digit a ∷ hex_digit b ∷ s)
      ≡ decode (hex 2 0) room (hex_digit a ∷ hex_digit b ∷ s)
unfolding decode
decode_start room a b s = refl

decode-hex :
    (room d : ℕ) (s : List ℕ)
    → hex_value (hex_digit d) ≡ d
    → decode (hex 2 0) room (hex_digit d ∷ s) ≡ decode (hex 1 d) room s
unfolding decode
decode-hex room d s e =
    let same : 0 + hex_value (hex_digit d) ≡ d = omega (arith, e) in
    ap (λ n. decode (hex 1 n) room s) same

decode-hex_last :
    (room n d : ℕ) (s : List ℕ)
    → d < 16
    → 0 < n * 16 + d
    → n * 16 + d < 128
    → decode (hex 1 n) (suc room) (hex_digit d ∷ s) ≡ then_char (n * 16 + d) (decode plain room s)
unfolding decode
decode-hex_last room n d s lt low high =
    let not_zero : ((n * 16 + d == 0) || ltb 127 (n * 16 + d)) ≡ false =
      ground (arith, low, high) in
    let not_end : (n * 16 + d == 0) ≡ false = ground (arith, low) in
    rw (hex_value-hex_digit d lt, not_zero, not_end) refl

decode-escape_char :
    (c room x : ℕ) (s : List ℕ)
    → 0 < c
    → c < 128
    → decode plain (suc room) (escape_char c ++ (x ∷ s)) ≡ then_char c (decode plain room (x ∷ s))
unfolding escape_char
decode-escape_char c room x s low high =
    let not_zero : (c == 0) ≡ false = ground (arith, low) in
    elim (Bool-cases (c == b'"')) [
      | inl e ↦ rw (e) (
          unfold decode in ap (λ d. then_char d (decode plain room (x ∷ s))) (sym (==→eq c b'"' e)))
      | inr e ↦ elim (Bool-cases (c == b'\\')) [
        | inl f ↦
            rw (e, f)
              (unfold decode in
                ap (λ d. then_char d (decode plain room (x ∷ s))) (sym (==→eq c b'\\' f)))
        | inr f ↦ elim (Bool-cases (ltb c 32 || ltb 126 c)) [
          | inl g ↦
              rw (e, f, g)
                (decode_start (suc room) (c / 16) (c % 16) (x ∷ s)
                  ∙ decode-hex (suc room) (c / 16) (hex_digit (c % 16) ∷ x ∷ s)
                      (hex_value-hex_digit (c / 16) (omega arith))
                  ∙ decode-hex_last room (c / 16) (c % 16) (x ∷ s) (omega arith) (omega arith)
                      (omega arith)
                  ∙ ap (λ d. then_char d (decode plain room (x ∷ s))) (omega arith))
          | inr g ↦ rw (e, f, g) (decode_plain c room x s f not_zero)
        ]
      ]
    ]

not_empty : (xs : List ℕ) (y : ℕ) → (x : ℕ) × (t : List ℕ) × (xs ++ (y ∷ []) ≡ x ∷ t)
not_empty [] y = (y, [], refl)
not_empty (x ∷ xs) y = (x, xs ++ (y ∷ []), refl)

pub decode-escape_text :
    (s : List ℕ) (room : ℕ)
    → All (λ c. (0 < c) × (c < 128)) s
    → length s ≤ room
    → decode plain room (escape_text s ++ (b'"' ∷ [])) ≡ (s, true)
unfolding escape_text
decode-escape_text [] room small fits = unfold decode in refl
decode-escape_text (c ∷ s) zero small fits = absurd (omega arith)
decode-escape_text (c ∷ s) (suc room) small fits =
    let (x, t, same) = not_empty (escape_text s) b'"' in
    let later = decode-escape_text s room small.1 (omega arith) in
    ap (decode plain (suc room))
      (append_assoc (escape_char c) (escape_text s) (b'"' ∷ []) ∙ ap (λ u. escape_char c ++ u) same)
    ∙ decode-escape_char c room x t small.0.0 small.0.1
    ∙ ap (then_char c) (ap (decode plain room) (sym same) ∙ later)

text-fits :
    (w : Writer) (s : List ℕ)
    → w.ok ≡ true
    → length w.written + length s < w.size
    → text w s ≡ record w { written = w.written ++ s }
unfolding text
text-fits w s good room =
    let fits : leb (w.size - length w.written) (length s) ≡ false = ground (arith, room) in
    rw (good, fits) refl

string_chars-fits :
    (w : Writer) (s : List ℕ)
    → w.ok ≡ true
    → length w.written + length (escape_text s) < w.size
    → string_chars w s ≡ record w { written = w.written ++ escape_text s }
unfolding string_chars escape_text
string_chars-fits w [] good room = ap (λ t. record w { written = t }) (sym (append-nil w.written))
string_chars-fits w (c ∷ s) good room =
    let size = length-append (escape_char c) (escape_text s) in
    let more = length-append w.written (escape_char c) in
    ap (λ u. string_chars u s) (text-fits w (escape_char c) good (omega (arith, size)))
    ∙ string_chars-fits (record w { written = w.written ++ escape_char c }) s good
        (omega (arith, size, more))
    ∙ ap (λ t. record w { written = t }) (append_assoc w.written (escape_char c) (escape_text s))

abbrev pub writes : ℕ → List ℕ → Writer
writes size t = record { written = t; size = size; ok = true }

string-fits :
    (s : List ℕ) (size : ℕ)
    → length (quoted s) < size
    → string (new_writer size) s ≡ writes size (quoted s)
unfolding string
string-fits s size room =
    let last = length-append (escape_text s) (b'"' ∷ []) in
    ap (λ w. text (string_chars w s) (b'"' ∷ []))
      (text-fits (new_writer size) (b'"' ∷ []) refl (omega arith))
    ∙ ap (λ w. text w (b'"' ∷ []))
        (string_chars-fits (writes size (b'"' ∷ [])) s refl (omega (arith, last)))
    ∙ text-fits (writes size (b'"' ∷ escape_text s)) (b'"' ∷ []) refl (omega (arith, last))

-- With room for it, a string is written whole between its quotes.
pub json_escape-fits :
    (s : List ℕ) (size : ℕ)
    → length (quoted s) < size
    → json_escape s size ≡ (writes size (quoted s), length (quoted s))
unfolding json_escape written_size
json_escape-fits s size room =
    let not_zero : (size == 0) ≡ false = ground (arith, room) in
    rw (not_zero, string-fits s size room) refl
