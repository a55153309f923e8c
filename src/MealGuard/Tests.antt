-- ===== src/MealGuard/Tests.antt =====
-- The meal guard's theorems at concrete inputs.
use surveillance_hound.Common.{
  min_index, ◌+◌, ◌/◌, ◌≤◌, ◌≡◌, refl, inr, false, List, [], ◌∷◌, arith,
}
use surveillance_hound.MealGuard.{MealStamp, MealGuard, new_guard, award, restore}
use surveillance_hound.MealGuard.Cooldown.{award-TooSoon, Request, meals, meals-le}
use surveillance_hound.MealGuard.Guarded.{served}
use surveillance_hound.MealGuard.Restart.{award-restore}

abbrev eaten : MealGuard
eaten = (award new_guard 9 1000 5 60 false).0

-- The same identity again after ten minutes.
award-TooSoon_example : award eaten 9 601000 6 60 false ≡ (eaten, false)
award-TooSoon_example =
    award-TooSoon new_guard 9 1000 5 60 false (record { stamp_slots = refl; category_slots = refl })
      9 601000 6 60 false (omega arith) (omega arith) (unfold award in refl)
      (inr (inr (refl, omega arith)))

abbrev requests : List Request
requests =
    record { hash = 9; now = 0; category = 5; score = 60; low = false }
    ∷ record { hash = 8; now = 4000; category = 6; score = 60; low = false }
    ∷ record { hash = 7; now = 6000; category = 7; score = 60; low = false }
    ∷ []

two_meals : meals new_guard requests ≡ 2
unfolding meals award min_index
two_meals = refl

meals-le_example : meals new_guard requests ≤ 6000 / 5000 + 1
meals-le_example = meals-le requests 6000 (omega arith) (omega arith)

abbrev saved_one : List MealStamp
saved_one = record { hash = 9; remaining_ms = 4 } ∷ []

abbrev requests_after : List Request
requests_after =
    record { hash = 8; now = 50; category = 6; score = 60; low = false }
    ∷ record { hash = 9; now = 6000; category = 7; score = 60; low = false }
    ∷ []

one_meal : meals (restore new_guard saved_one) requests_after ≡ 1
unfolding meals award min_index restore
one_meal = refl

-- Another identity eats after the restart, and the saved one is still refused.
award-restore_example :
    let h = served (restore new_guard saved_one) requests_after in
    award h 9 7000 5 60 false ≡ (h, false)
award-restore_example =
    award-restore new_guard saved_one 0 9 7000 5 60 false requests_after refl (omega arith)
      (omega arith) (omega arith) (omega (arith, one_meal)) (omega arith)
