-- ===== src/FollowScent/Tests.antt =====
-- A followed identity on concrete observations, and its theorems at concrete inputs.
use surveillance_hound.Common.{ℕ, ◌≡◌, refl, false, [], ◌∷◌, map, arith}
use surveillance_hound.Common.Int.{pos, negsuc, ◌-ℤ◌}
use surveillance_hound.Core.{
  Detection, Observation, blank_detection, blank_observation, ble, samsung_identity,
}
use surveillance_hound.FollowScent.{
  FollowScent, Sample, select, restart, observe, trend, remember, history_size,
}
use surveillance_hound.FollowScent.Samples.{samples, push_sample, keep_last, samples-remember}
use surveillance_hound.FollowScent.Invariant.{IsOrdered, observe-IsOrdered, restart-IsOrdered}
use surveillance_hound.FollowScent.Signal.{HasTrend, trend-HasTrend}

abbrev chosen : Detection
chosen = record blank_detection { category = 5; radio = ble }

abbrev heard_at : ℕ → ℕ → Observation
heard_at t down = record blank_observation { ms = t; radio = ble; rssi = negsuc down }

abbrev idle : FollowScent
idle = select chosen 1000

start-IsOrdered : IsOrdered idle
start-IsOrdered = (restart-IsOrdered idle chosen 1000 blank_valid).1
  where
    blank_valid : IsOrdered idle
    blank_valid =
        unfold select in
        record { size = refl; within = omega arith; rising = tt; newest = tt; unheard = λ e. refl }

followed : FollowScent
followed =
    (observe (observe (observe idle (heard_at 2000 69) false).0 (heard_at 2500 59) false).0
      (heard_at 6000 49) false).0

followed-IsOrdered : IsOrdered followed
unfolding followed
followed-IsOrdered =
    observe-IsOrdered _ _ _
      (observe-IsOrdered _ _ _ (observe-IsOrdered idle (heard_at 2000 69) false start-IsOrdered))

-- The second reading takes the place of the first, of the same second.
followed-samples : map (λ (s : Sample). s.ms) (samples followed) ≡ 2500 ∷ 6000 ∷ []
unfolding followed select observe samsung_identity
followed-samples = refl

followed-trend : trend followed 7000 ≡ pos 10
unfolding followed select observe trend ◌-ℤ◌ samsung_identity
followed-trend = refl

observe-IsOrdered_example : IsOrdered (observe followed (heard_at 6400 40) false).0
observe-IsOrdered_example = observe-IsOrdered followed (heard_at 6400 40) false followed-IsOrdered

restart-IsOrdered_example : IsOrdered (restart followed 9000) × IsOrdered (select chosen 9000)
restart-IsOrdered_example = restart-IsOrdered followed chosen 9000 followed-IsOrdered

trend-HasTrend_example : HasTrend followed (trend followed 7000)
trend-HasTrend_example =
    trend-HasTrend followed followed-IsOrdered
      (unfold followed select observe samsung_identity in omega arith) 7000

samples-remember_example :
    samples (remember followed (record { ms = 8100; rssi = pos 0 }))
    ≡ keep_last history_size (push_sample (samples followed) (record { ms = 8100; rssi = pos 0 }))
samples-remember_example =
    samples-remember followed (record { ms = 8100; rssi = pos 0 }) followed-IsOrdered.size
      followed-IsOrdered.within
