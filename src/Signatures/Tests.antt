-- ===== src/Signatures/Tests.antt =====
-- Rule matching at concrete inputs.
use surveillance_hound.Common.{◌≡◌, refl, true, false, [], ◌∷◌, arith}
use surveillance_hound.Core.{Rule, Observation, blank_observation, company, ble}
use surveillance_hound.Core.Text.{codes, starts_with}
use surveillance_hound.Signatures.{hex_prefix, matches}
use surveillance_hound.Signatures.Hex.{hex_text, hex_prefix-hex_text}

-- The company identifier of an Apple advertisement.
hex_prefix-hex_text_example :
    hex_prefix (hex_text (0x4c ∷ 0x00 ∷ [])) (0x4c ∷ 0x00 ∷ 0x12 ∷ [])
    ≡ starts_with (0x4c ∷ 0x00 ∷ 0x12 ∷ []) (0x4c ∷ 0x00 ∷ [])
hex_prefix-hex_text_example =
    hex_prefix-hex_text 0x4c (0x00 ∷ []) (0x4c ∷ 0x00 ∷ 0x12 ∷ []) (omega arith, (omega arith, tt))

abbrev apple : Rule
apple = record {
  id = codes "apple";
  category = 5;
  kind = company;
  value = codes "004C";
  score = 40;
  cap = 60;
  generic = false;
  label = [];
  reason = [];
}

abbrev advert : Observation
advert = record blank_observation {
  radio = ble;
  manufacturer = 0x4c ∷ 0x00 ∷ 0x12 ∷ [];
  manufacturer_len = 3;
}

company_matches : matches apple advert ≡ true
unfolding matches
company_matches = refl
