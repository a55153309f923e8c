-- ===== src/Parsers/Samsung/Tests.antt =====
-- Samsung packets at concrete bytes.
use surveillance_hound.Common.{ℕ, ◌≡◌, refl, some, List, [], ◌∷◌, arith, replicate}
use surveillance_hound.Core.{long_offline}
use surveillance_hound.Parsers.Samsung.{parse_samsung_tag, blank_id}
use surveillance_hound.Parsers.Samsung.RoundTrip.{is_long_offline, packet, parse_samsung_tag-packet}

abbrev an_id : List ℕ
an_id = 1 ∷ 2 ∷ 3 ∷ 4 ∷ 5 ∷ 6 ∷ 7 ∷ 8 ∷ []

parse_samsung_tag-packet_example :
    parse_samsung_tag (packet 3 0 0 0 an_id (replicate 8 9))
    ≡ some (record { id = an_id; state = long_offline })
parse_samsung_tag-packet_example =
    parse_samsung_tag-packet 3 0 0 0 an_id (replicate 8 9) (omega arith) refl refl
      (unfold blank_id in refl) long_offline is_long_offline
