-- ===== src/Utilities/Tests.antt =====
-- Times and batteries at concrete inputs.
use surveillance_hound.Common.{◌≡◌, refl, none, some}
use surveillance_hound.Core.Text.{codes}
use surveillance_hound.Utilities.{parse_utc}

-- 12:30 on 29 February 2024.
leap_day : parse_utc (codes "202402291230") ≡ some 1709209800
unfolding parse_utc
leap_day = refl

no_leap_day : parse_utc (codes "202302291230") ≡ none
unfolding parse_utc
no_leap_day = refl
