-- ===== src/Storage/Snapshots.antt =====
-- `Snapshots` and `DeferredBackup` of components/storage/include/storage_message.hpp: two saved states
-- that the interface fills and the storage worker reads, and the one kept back while the card is checked.
pub mod InFlight
mod Tests
use surveillance_hound.Common.{
  ℕ, zero, suc, ◌+◌, ◌-◌, ◌*◌, ◌/◌, ◌%◌, ◌^◌, ◌≤◌, ◌<◌, min, max, pred, ◌≡◌, refl, sym, ap, ap₂,
  subst, ◌∙◌, ◌≢◌, ◌↔◌, ◌⊎◌, inl, inr, Bool, true, false, not, ◌&&◌, ◌||◌, Option, none, some, List,
  [], ◌∷◌, ◌++◌, map, arith, ltb, leb, ◌==◌, if◌then◌else◌, bool_eq, to_bit, Bool-cases,
  Option-cases, length, get_or, set, replicate,
}

module _ {ℓ} (State : Type ℓ) where
  pub record Slot : Type ℓ where
    pub busy : Bool
    pub state : State

  -- Snapshots(); `empty` is State{}.
  unfoldable pub new_snapshots : State → List Slot
  new_snapshots empty = replicate 2 (record { busy = false; state = empty })

  -- The loop of `claim`, over the slots from number i on: the slots afterwards, and the number of the one
  -- that was free. Taking a slot and testing it is one step, compare_exchange_strong.
  unfoldable pub claim_from : ℕ → State → List Slot → List Slot × Option ℕ
  claim_from i state [] = ([], none)
  claim_from i state (s ∷ slots) =
      let (rest, found) = claim_from (i + 1) state slots in
      if s.busy then (s ∷ rest, found) else (record { busy = true; state = state } ∷ slots, some i)

  -- `none` is -1.
  unfoldable pub claim : State → List Slot → List Slot × Option ℕ
  unfolding claim_from
  claim state slots = claim_from 0 state slots

  unfoldable pub release_slot : Slot → Slot
  release_slot s = record s { busy = false }

  unfoldable pub release : ℕ → List Slot → List Slot
  unfolding release_slot
  release i [] = []
  release zero (s ∷ slots) = release_slot s ∷ slots
  release (suc i) (s ∷ slots) = s ∷ release i slots

  unfoldable pub get : State → ℕ → List Slot → State
  get empty i [] = empty
  get empty zero (s ∷ slots) = s.state
  get empty (suc i) (s ∷ slots) = get empty i slots

  abbrev pub is_busy : ℕ → List Slot → Bool
  is_busy i [] = false
  is_busy zero (s ∷ slots) = s.busy
  is_busy (suc i) (s ∷ slots) = is_busy i slots

  -- DeferredBackup; no slot is -1.
  pub record DeferredBackup : Type 0 where
    pub slot : Option ℕ
    pub manual : Bool

  unfoldable pub release_held : Option ℕ → List Slot → List Slot
  unfolding release
  release_held none slots = slots
  release_held (some i) slots = release i slots

  unfoldable pub retain : ℕ → Bool → DeferredBackup × List Slot → DeferredBackup × List Slot
  unfolding release_held
  retain next requested (d, slots) =
      (record { slot = some next; manual = d.manual || requested }, release_held d.slot slots)

  unfoldable pub release_deferred : DeferredBackup × List Slot → DeferredBackup × List Slot
  unfolding release_held
  release_deferred (d, slots) = (record { slot = none; manual = false }, release_held d.slot slots)
