-- ===== src/Storage/Snapshots/Tests.antt =====
-- The snapshots of a small state.
use surveillance_hound.Common.{ℕ, ◌≡◌, refl, true, false, List, [], ◌∷◌}
use surveillance_hound.Storage.Snapshots.{new_snapshots, claim, get, is_busy}
use surveillance_hound.Storage.Snapshots.InFlight.{Event, claimed, released, after_all, claim-Holds}

abbrev both : List (Event ℕ 0)
both = claimed 8 ∷ claimed 9 ∷ released 1 ∷ claimed 4 ∷ []

claim-Holds_example :
    (is_busy ℕ 0 (new_snapshots ℕ 0) ≡ false)
    × (is_busy ℕ 0 (after_all ℕ 0 both (claim ℕ 7 (new_snapshots ℕ 0)).0) ≡ true)
    × (get ℕ 0 0 (after_all ℕ 0 both (claim ℕ 7 (new_snapshots ℕ 0)).0) ≡ 7)
unfolding claim new_snapshots
claim-Holds_example = claim-Holds ℕ 0 7 (new_snapshots ℕ 0) 0 both refl refl
