-- ===== src/Json/Scan.antt =====
-- The character loops of components/sniffer_core/json.cpp: white space, strings, numbers.
use surveillance_hound.Common.{
  ℕ, zero, suc, ◌+◌, ◌-◌, ◌*◌, ◌^◌, Bool, true, false, not, ◌&&◌, ◌||◌, Option, none, some, List,
  [], ◌∷◌, ltb, leb, ◌==◌, if◌then◌else◌, set_bit, ◌>>=◌, ◌>>◌, guard,
}
use surveillance_hound.Common.Int.{ℤ, pos, negsuc}

unfoldable pub is_space : ℕ → Bool
is_space c = (c == b' ') || (c == 10) || (c == 13) || (c == 9)

-- Json::space
unfoldable pub space : List ℕ → List ℕ
unfolding is_space
space [] = []
space (c ∷ s) = if is_space c then space s else c ∷ s

unfoldable pub is_digit : ℕ → Bool
is_digit c = leb b'0' c && leb c b'9'

unfoldable pub is_hex : ℕ → Bool
unfolding is_digit
is_hex c = is_digit c || (leb b'a' c && leb c b'f') || (leb b'A' c && leb c b'F')

-- Where a loop over a string stands: between characters, behind a backslash, or before the given
-- number of hex digits with the value so far.
pub data Mode : Type 0 where
  plain : Mode
  escaped : Mode
  hex : ℕ → ℕ → Mode

-- One round of the string branch of `value`: `none` is its -1, and `some none` the closing quote.
unfoldable pub scan_step : Mode → ℕ → Option (Option Mode)
unfolding is_hex
scan_step plain c =
    if c == b'"'
    then some none
    else if ltb c 32 || leb 128 c
    then none
    else if c == b'\\'
    then some (some escaped)
    else some (some plain)
scan_step escaped c =
    if c == b'u'
    then some (some (hex 4 0))
    else if (c == b'"')
        || (c == b'\\')
        || (c == b'/')
        || (c == b'b')
        || (c == b'f')
        || (c == b'n')
        || (c == b'r')
        || (c == b't')
    then some (some plain)
    else none
scan_step (hex k n) c =
    if not (is_hex c)
    then none
    else if k == 1
    then some (some plain)
    else some (some (hex (k - 1) 0))

-- The rest of the input behind the closing quote.
unfoldable pub scan_string : Mode → List ℕ → Option (List ℕ)
unfolding scan_step
scan_string m [] = none
scan_string m (c ∷ s) = elim (scan_step m c) [
  | none ↦ none
  | some none ↦ some s
  | some (some m') ↦ scan_string m' s
]

-- `h | 32` makes a letter small.
unfoldable pub hex_value : ℕ → ℕ
hex_value h = if leb h b'9' then h - b'0' else set_bit h 5 - b'a' + 10

unfoldable pub unescape : ℕ → ℕ
unescape c =
    if c == b'n'
    then 10
    else if c == b'r'
    then 13
    else if c == b't'
    then 9
    else if c == b'b'
    then 8
    else if c == b'f'
    then 12
    else c

-- One character of a token in `string`: `none` is its false, otherwise what is to be written.
unfoldable pub decode_step : Mode → ℕ → Option (Mode × Option ℕ)
unfolding hex_value unescape
decode_step plain c = if c == b'\\' then some (escaped, none) else some (plain, some c)
decode_step escaped c = if c == b'u' then some (hex 4 0, none) else some (plain, some (unescape c))
decode_step (hex k n) c =
    let n' = n * 16 + hex_value c in
    if not (k == 1)
    then some (hex (k - 1) n', none)
    else if (n' == 0) || ltb 127 n'
    then none
    else some (plain, some n')

-- Writes a character where there is room; a zero is refused.
unfoldable pub write_char :
    ℕ → Option (Mode × Option ℕ) → (Mode → ℕ → List ℕ × Bool) → List ℕ × Bool
write_char room none more = ([], false)
write_char room (some (m, none)) more = more m room
write_char zero (some (m, some c)) more = ([], false)
write_char (suc room) (some (m, some c)) more =
    if c == 0 then ([], false) else (c ∷ (more m room).0, (more m room).1)

-- `i + 1 < s.size()` fails: only the closing quote is left.
unfoldable pub at_end : Mode → List ℕ → Bool
at_end plain [] = true
at_end _ _ = false

-- The loop of `string` behind the opening quote: what is written, and whether it ends well.
unfoldable pub decode : Mode → ℕ → List ℕ → List ℕ × Bool
unfolding decode_step write_char at_end
decode m room [] = ([], true)
decode m room (c ∷ s) =
    if at_end m s
    then ([], true)
    else write_char room (decode_step m c) (λ m' left. decode m' left s)

unfoldable pub digits : List ℕ → List ℕ
unfolding is_digit
digits [] = []
digits (c ∷ s) = if is_digit c then digits s else c ∷ s

-- `if (!digit()) return -1; while (digit()) ++pos_;`
unfoldable pub some_digits : List ℕ → Option (List ℕ)
unfolding digits
some_digits [] = none
some_digits (c ∷ s) = if is_digit c then some (digits s) else none

unfoldable pub whole_part : List ℕ → Option (List ℕ)
unfolding some_digits
whole_part [] = none
whole_part (c ∷ s) = if c == b'0' then some s else some_digits (c ∷ s)

unfoldable pub skip_sign : List ℕ → List ℕ
skip_sign [] = []
skip_sign (c ∷ s) = if (c == b'+') || (c == b'-') then s else c ∷ s

unfoldable pub skip_minus : List ℕ → List ℕ
skip_minus [] = []
skip_minus (c ∷ s) = if c == b'-' then s else c ∷ s

unfoldable pub fraction : List ℕ → Option (List ℕ)
unfolding some_digits
fraction [] = some []
fraction (c ∷ s) = if c == b'.' then some_digits s else some (c ∷ s)

unfoldable pub exponent : List ℕ → Option (List ℕ)
unfolding some_digits skip_sign
exponent [] = some []
exponent (c ∷ s) = if (c == b'e') || (c == b'E') then some_digits (skip_sign s) else some (c ∷ s)

unfoldable pub scan_number : List ℕ → Option (List ℕ)
unfolding skip_minus whole_part fraction exponent
scan_number s = do s1 ← whole_part (skip_minus s); s2 ← fraction s1; exponent s2

-- std::from_chars: every character is a digit.
unfoldable pub read_digits : ℕ → List ℕ → Option ℕ
unfolding is_digit
read_digits v [] = some v
read_digits v (c ∷ s) = if is_digit c then read_digits (v * 10 + (c - b'0')) s else none

unfoldable pub read_magnitude : List ℕ → Option ℕ
unfolding read_digits
read_magnitude [] = none
read_magnitude (c ∷ s) = read_digits 0 (c ∷ s)

-- The negative of a magnitude.
abbrev pub negative : ℕ → ℤ
negative zero = pos 0
negative (suc n) = negsuc n

-- std::from_chars into an int64_t, of the whole text.
unfoldable pub read_integer : List ℕ → Option ℤ
unfolding read_magnitude
read_integer [] = none
read_integer (c ∷ s) =
    if c == b'-'
    then (do n ← read_magnitude s; guard (leb n (2 ^ 63)); some (negative n))
    else (do n ← read_magnitude (c ∷ s); guard (ltb n (2 ^ 63)); some (pos n))
