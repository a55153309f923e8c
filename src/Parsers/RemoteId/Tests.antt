-- ===== src/Parsers/RemoteId/Tests.antt =====
-- A location message at concrete bytes.
use surveillance_hound.Common.{ℕ, ◌≡◌, refl, some, List, ◌∷◌, arith, replicate}
use surveillance_hound.Common.Int.{negsuc}
use surveillance_hound.Parsers.RemoteId.{RemoteId, blank_remote_id, parse_remote_id}
use surveillance_hound.Parsers.RemoteId.Bounds.{IsPlausible, parse_remote_id-IsPlausible}

-- Type 1, status 0, no position and no altitude.
abbrev bare_location : List ℕ
bare_location = 0xfa ∷ 0xff ∷ 0x0d ∷ 0 ∷ 0x12 ∷ replicate 24 0

abbrev bare_report : RemoteId
bare_report = record blank_remote_id { type = 1; altitude_dm = negsuc 9999 }

bare_is_read : parse_remote_id bare_location ≡ some bare_report
unfolding parse_remote_id
bare_is_read = refl

parse_remote_id-IsPlausible_example : IsPlausible bare_report
parse_remote_id-IsPlausible_example =
    parse_remote_id-IsPlausible bare_location bare_report (omega arith) bare_is_read
