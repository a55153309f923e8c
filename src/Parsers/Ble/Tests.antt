-- ===== src/Parsers/Ble/Tests.antt =====
-- Advertisements at concrete bytes.
use surveillance_hound.Common.{ℕ, ◌≡◌, refl, List, [], ◌∷◌, arith}
use mathlib.Core.Option
use surveillance_hound.Core.{blank_observation}
use surveillance_hound.Parsers.Ble.{
  parse_samsung_tag, parse_ble, add_structure, begin_ble, with_samsung, Progress,
}
use surveillance_hound.Parsers.Samsung.{parse_samsung_tag}
use surveillance_hound.Parsers.Ble.Framing.{Structure, frames, add_all, parse_ble-frames}
use surveillance_hound.Parsers.Ble.Fields.{InBounds}
use surveillance_hound.Parsers.Ble.Bounds.{parse_ble-InBounds}

-- Flags, then a name, then two zero bytes.
abbrev two_structures : List Structure
two_structures =
    record { type = 1; value = 6 ∷ [] } ∷ record { type = 9; value = b'D' ∷ b'o' ∷ b'g' ∷ [] } ∷ []

parse_ble-frames_example :
    parse_ble (frames two_structures 2) blank_observation
    ≡ Option.map
        (λ (p : Progress). with_samsung p.o)
        (add_all two_structures (begin_ble blank_observation))
parse_ble-frames_example = parse_ble-frames two_structures 2 blank_observation (omega arith)

abbrev flags_only : List ℕ
flags_only = 2 ∷ 1 ∷ 6 ∷ []

parse_ble-InBounds_example : InBounds (begin_ble blank_observation).o
parse_ble-InBounds_example =
    parse_ble-InBounds flags_only blank_observation (begin_ble blank_observation).o refl
      (unfold parse_ble parse_samsung_tag Option.bind add_structure in refl)
