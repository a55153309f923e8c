-- ===== src/Parsers/Wifi/Names.antt =====
-- The name that the text of a beacon gives keeps the size of its array.
use surveillance_hound.Common.{
  ℕ, zero, suc, ◌-◌, ◌≤◌, ◌<◌, ◌≡◌, refl, inl, inr, Bool, false, not, ◌||◌, Option, none, some,
  List, [], ◌∷◌, arith, ltb, ◌==◌, Bool-cases, length, drop, length-drop, length-append,
}
use surveillance_hound.Core.Text.{codes}
use surveillance_hound.Json.{
  integer, object, raw, string, token, type_eq, Reader, parse, member, read_string, string_into,
}
use surveillance_hound.Json.Scan.{plain, at_end, Mode, decode_step, write_char, decode}
use surveillance_hound.Parsers.Wifi.{small_total, read_pwnagotchi, parse_pwnagotchi}

length-write_char :
    (room : ℕ) (o : Option (Mode × Option ℕ)) (more : Mode → ℕ → List ℕ × Bool)
    → ((m : Mode) (left : ℕ) → length (more m left).0 ≤ left)
    → length (write_char room o more).0 ≤ room
unfolding write_char
length-write_char room none more h = omega arith
length-write_char room (some (m, none)) more h = h m room
length-write_char zero (some (m, some c)) more h = omega arith
length-write_char (suc room) (some (m, some c)) more h = elim (Bool-cases (c == 0)) [
  | inl e ↦ rw (e) omega arith
  | inr e ↦ rw (e) omega (arith, h m room)
]

length-decode : (s : List ℕ) (m : Mode) (room : ℕ) → length (decode m room s).0 ≤ room
unfolding decode
length-decode [] m room = omega arith
length-decode (c ∷ s) m room = elim (Bool-cases (at_end m s)) [
  | inl e ↦ rw (e) omega arith
  | inr e ↦ rw (e) (
      length-write_char room (decode_step m c) (λ m' left. decode m' left s)
        (λ m' left. length-decode s m' left))
]

length-read_string :
    (input : List ℕ) (r : Reader) (t size : ℕ)
    → 0 < size
    → length (read_string input r t size).0 < size
unfolding read_string
length-read_string input r t size pos =
    elim (Bool-cases
      (not (ltb t r.count) || not (type_eq (token r t).type string) || (size == 0))) [
        | inl e ↦ rw (e) pos
        | inr e ↦ rw (e) omega (arith, length-decode (drop 1 (raw input r t)) plain (size - 1))
      ]

-- A text buffer keeps its size, whether the string is read or not.
length-string_into :
    (input : List ℕ) (r : Reader) (t : Option ℕ) (out : List ℕ)
    → 0 < length out
    → length (string_into input r t out).0 ≡ length out
unfolding string_into
length-string_into input r none out full = refl
length-string_into input r (some t) out full =
    let less = length-read_string input r t (length out) full in
    let written = (read_string input r t (length out)).0 in
    elim (Bool-cases (read_string input r t (length out)).1) [
      | inl e ↦ rw (e) omega (
        arith,
        less,
        length-append written (0 ∷ drop (suc (length written)) out),
        length-drop (suc (length written)) out,
      )
      | inr e ↦ rw (e) omega (
        arith,
        less,
        length-append written (drop (length written) out),
        length-drop (length written) out,
      )
    ]

read_pwnagotchi-length :
    (text : List ℕ) (r : Reader) (name : List ℕ)
    → 0 < length name
    → length (read_pwnagotchi text r name).0 ≡ length name
unfolding read_pwnagotchi
read_pwnagotchi-length text r name full =
    elim (Bool-cases (
      not (type_eq (token r 0).type object)
      || not (small_total (integer text r (member text r (some 0) (codes "pwnd_tot")))))) [
        | inl e ↦ rw (e) refl
        | inr e ↦
            rw (e) (length-string_into text r (member text r (some 0) (codes "name")) name full)
      ]

pub parse_pwnagotchi-length :
    (text name : List ℕ) → 0 < length name → length (parse_pwnagotchi text name).0 ≡ length name
parse_pwnagotchi-length text name full = unfold parse_pwnagotchi in rest (parse text)
  where
    rest :
        (o : Option Reader)
        → length
            (elim o as (λ x. List ℕ × Bool) [
              | none ↦ (name, false)
              | some r ↦ read_pwnagotchi text r name
            ]).0
          ≡ length name
    rest none = refl
    rest (some r) = read_pwnagotchi-length text r name full
