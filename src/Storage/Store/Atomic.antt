-- ===== src/Storage/Store/Atomic.antt =====
-- An interrupted save leaves the state before it, or the new one.
use surveillance_hound.Common.{ℕ, ◌+◌, ◌≡◌, ◌⊎◌, Bool, false, some, List, ◌>>=◌, ◌>>◌}
use surveillance_hound.Storage.State.{State}
use surveillance_hound.Storage.Store.{Nvs, Outcome, read_generation}
use surveillance_hound.Storage.Store.Layout.{Part}

module _ (bytes : Part → List ℕ) (outs : ℕ → Outcome) (gen : ℕ) (s : State) (nvs : Nvs) where
  -- The old generation counts and reads as before, or the next one does and reads as the new state.
  abbrev pub OldOrNext : Nvs × Bool → Type 0
  OldOrNext r =
      ((r.1 ≡ false)
        × (r.0.generation ≡ some gen)
        × (read_generation bytes r.0 gen ≡ read_generation bytes nvs gen))
      ⊎ ((r.0.generation ≡ some (gen + 1)) × (read_generation bytes r.0 (gen + 1) ≡ some s))
