-- ===== src/Pet/Tests.antt =====
-- The hound's theorems at concrete inputs.
use surveillance_hound.Common.{◌≡◌, refl, true, false, arith}
use surveillance_hound.Core.{Detection, blank_detection}
use surveillance_hound.Pet.{new_pet, decay_needs, feed}
use surveillance_hound.Pet.Decay.{decay_needs-decay_needs}
use surveillance_hound.Pet.Meals.{IsCounted, feed-IsCounted}

abbrev meal : Detection
meal = record blank_detection { meal = true; score = 85; category = 4; last_ms = 2000 }

fed_xp : (feed new_pet meal false).xp ≡ 13
unfolding feed
fed_xp = refl

decay_needs-decay_needs_example :
    decay_needs 900000 (decay_needs 400000 (record { clock = 0; fullness = 70; mood = 70 }))
    ≡ decay_needs 900000 (record { clock = 0; fullness = 70; mood = 70 })
decay_needs-decay_needs_example =
    decay_needs-decay_needs (record { clock = 0; fullness = 70; mood = 70 }) 400000 900000
      (omega arith) (omega arith)

feed-IsCounted_example : IsCounted (feed new_pet meal false)
feed-IsCounted_example =
    feed-IsCounted new_pet meal false (omega arith) (record { slots = refl; total = refl })
