-- ===== src/Parsers/Wifi/Tests.antt =====
-- `parse_wifi` at concrete frames.
use surveillance_hound.Common.{ℕ, ◌≡◌, refl, false, some, List, [], ◌∷◌, ◌++◌, arith, replicate}
use surveillance_hound.Common.Int.{negsuc}
use surveillance_hound.Core.{Observation, blank_observation}
use surveillance_hound.Parsers.Wifi.{parse_elements, parse_wifi}
use surveillance_hound.Parsers.Wifi.Frames.{
  Element, frame_elements, add_elements, parse_elements-frame_elements,
}
use surveillance_hound.Parsers.Wifi.Reading.{IsReadFrame, parse_wifi-IsReadKind}

-- A probe request from 02:00:00:00:00:07 for the network HI.
abbrev probe : List ℕ
probe =
    0x40 ∷ 0 ∷ replicate 8 0
    ++ (2 ∷ 0 ∷ 0 ∷ 0 ∷ 0 ∷ 7 ∷ replicate 8 0)
    ++ (0 ∷ 2 ∷ b'H' ∷ b'I' ∷ [])

abbrev heard : Observation
heard = record blank_observation { ms = 5; channel = 6; rssi = negsuc 59 }

abbrev read : Observation
read = record heard {
  subtype = 4;
  address = 2 ∷ 0 ∷ 0 ∷ 0 ∷ 0 ∷ 7 ∷ [];
  ssid_len = 2;
  ssid = b'H' ∷ b'I' ∷ replicate 30 0;
  name = b'H' ∷ b'I' ∷ replicate 31 0;
}

probe-read : parse_wifi probe heard ≡ some read
unfolding parse_wifi
probe-read = refl

parse_wifi-IsReadKind_example : IsReadFrame probe heard read
parse_wifi-IsReadKind_example = parse_wifi-IsReadKind probe heard read probe-read

abbrev two : List Element
two = record { type = 0; value = b'H' ∷ [] } ∷ record { type = 7; value = 0 ∷ 1 ∷ [] } ∷ []

parse_elements-frame_elements_example :
    parse_elements 8 (frame_elements two) (record { o = heard; pwn = []; ssid_seen = false })
    ≡ add_elements two (record { o = heard; pwn = []; ssid_seen = false })
parse_elements-frame_elements_example =
    parse_elements-frame_elements two 8 (record { o = heard; pwn = []; ssid_seen = false })
      (unfold frame_elements in omega arith)
