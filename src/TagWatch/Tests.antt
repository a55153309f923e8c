-- ===== src/TagWatch/Tests.antt =====
-- Runs of the Travel Watch table on concrete sightings, and its theorems at concrete inputs.
use surveillance_hound.Common.{
  ℕ, ◌+◌, ◌*◌, ◌≡◌, refl, false, none, some, List, [], ◌∷◌, map, arith, get_or,
}
use surveillance_hound.Core.{Detection, blank_detection, ble, samsung_connected}
use surveillance_hound.Core.Category.{airtag}
use surveillance_hound.TagWatch.{TagWatch, idle_watch, blank_entry, fresh, start, observe, warning}
use surveillance_hound.TagWatch.Invariant.{
  IsValid, start-IsValid, observe-IsValid, observe_keeps_fresh,
}
use surveillance_hound.TagWatch.History.{Call, run, Backed, warned, warning-Backed}

abbrev tag_at : ℕ → Detection
tag_at t = record blank_detection { last_ms = t; category = airtag; radio = ble; score = 60 }

abbrev seen : ℕ → Call
seen t = record { hash = 5; detection = tag_at t; now = t }

-- Once a minute for ten minutes, newest first.
abbrev ten_minutes : List Call
ten_minutes = map (λ m. seen (1000 + m * 60000)) (10 ∷ 9 ∷ 8 ∷ 7 ∷ 6 ∷ 5 ∷ 4 ∷ 3 ∷ 2 ∷ 1 ∷ 0 ∷ [])

walk : TagWatch
walk = run (start idle_watch 500 false) ten_minutes

warns : warning walk 601500 ≡ some 0
unfolding walk run start observe warning samsung_connected
warns = refl

-- With one sighting the less there is no warning.
quiet :
    warning
      (run
        (start idle_watch 500 false)
        (map (λ m. seen (1000 + m * 60000)) (9 ∷ 8 ∷ 7 ∷ 6 ∷ 5 ∷ 4 ∷ 3 ∷ 2 ∷ 1 ∷ 0 ∷ [])))
      541500
    ≡ none
unfolding run start observe warning samsung_connected
quiet = refl

warning-Backed_example :
    Backed idle_watch 500 false ten_minutes 601500 0
      (warned idle_watch 500 false ten_minutes 601500 0)
unfolding walk
warning-Backed_example = warning-Backed idle_watch 500 false ten_minutes 601500 0 warns

observe-IsValid_example : IsValid (observe (start idle_watch 500 false) 5 (tag_at 1000) 1200)
observe-IsValid_example =
    observe-IsValid (start idle_watch 500 false) 5 (tag_at 1000) 1200
      (start-IsValid idle_watch 500 false).0

observe_keeps_fresh_example :
    get_or (observe walk 6 (tag_at 601500) 601600).entries 0 blank_entry
    ≡ get_or walk.entries 0 blank_entry
unfolding walk run start observe samsung_connected fresh
observe_keeps_fresh_example = observe_keeps_fresh walk 6 (tag_at 601500) 601600 0 (omega arith) refl
