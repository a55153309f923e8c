-- ===== src/Records.antt =====
-- The bounded text writer of components/sniffer_core/records.cpp.
pub mod Validate
pub mod Escape
pub mod ReadBack
mod Tests
use surveillance_hound.Common.{
  ℕ, zero, suc, ◌+◌, ◌-◌, ◌*◌, ◌/◌, ◌%◌, ◌^◌, ◌≤◌, ◌<◌, min, max, pred, ◌≡◌, refl, sym, ap, ap₂,
  subst, ◌∙◌, ◌≢◌, ◌↔◌, ◌⊎◌, inl, inr, Bool, true, false, not, ◌&&◌, ◌||◌, Option, none, some, List,
  [], ◌∷◌, ◌++◌, map, arith, ltb, leb, ◌==◌, if◌then◌else◌, bool_eq, to_bit, Bool-cases,
  Option-cases, length,
}
use surveillance_hound.Core.Text.{codes}

-- `used_` is the length of what is written; the buffer has `size` characters.
pub record Writer : Type 0 where
  pub written : List ℕ
  pub size : ℕ
  pub ok : Bool

-- Writer(out)
abbrev pub new_writer : ℕ → Writer
new_writer size = record { written = []; size = size; ok = true }

-- One character is kept for the zero at the end.
unfoldable pub text : Writer → List ℕ → Writer
text w s =
    if not w.ok || leb (w.size - length w.written) (length s)
    then record w { ok = false }
    else record w { written = w.written ++ s }

unfoldable pub hex_digit : ℕ → ℕ
hex_digit n = if ltb n 10 then b'0' + n else b'a' + (n - 10)

-- What `string` writes for one character; "%04x" of a byte starts with two zeros.
unfoldable pub escape_char : ℕ → List ℕ
escape_char c =
    if c == b'"'
    then b'\\' ∷ b'"' ∷ []
    else if c == b'\\'
    then b'\\' ∷ b'\\' ∷ []
    else if ltb c 32 || ltb 126 c
    then b'\\' ∷ b'u' ∷ b'0' ∷ b'0' ∷ hex_digit (c / 16) ∷ hex_digit (c % 16) ∷ []
    else c ∷ []

-- The loop of `string`.
unfoldable pub string_chars : Writer → List ℕ → Writer
unfolding escape_char text
string_chars w [] = w
string_chars w (c ∷ s) = string_chars (text w (escape_char c)) s

-- Writer::string
unfoldable pub string : Writer → List ℕ → Writer
unfolding string_chars
string w s = text (string_chars (text w (b'"' ∷ [])) s) (b'"' ∷ [])

-- Writer::size
unfoldable pub written_size : Writer → ℕ
written_size w = if w.ok then length w.written else 0

-- What is in `output` behind a call, and the returned size.
unfoldable pub json_escape : List ℕ → ℕ → Writer × ℕ
unfolding string written_size
json_escape s size =
    if size == 0
    then (new_writer 0, 0)
    else (string (new_writer size) s, written_size (string (new_writer size) s))
