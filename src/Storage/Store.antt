-- ===== src/Storage/Store.antt =====
-- components/storage/state_store.cpp: the saved state in the flash store, five parts in two slots each
-- and the number of the generation that counts. The store is what reading gives; a blob holds a record of
-- one of the layouts. A blob of another layout than the one asked for has another size; only Appearance
-- and AppearanceV2 are of one size, and the version that each is written with, 3 and 2, makes the code
-- refuse it as the other, so the model refuses it as well. `bytes` is the memory layout of the records,
-- which the checksum runs over.
pub mod Layout
pub mod Parts
pub mod Atomic
mod Tests
use Layout.{
  crc_bits, crc_bytes, checksum, ConfigRecord, PetRecord, BootRecordV3, BootRecord, Part, Envelope,
  Space, space_index, as_config, as_pets, as_boot, as_boot_v3, as_scents, as_scents_v1, as_look,
  as_look_v2, as_look_v1, config, pets, boot, boot_v3, scents, scents_v1, look, look_v2, look_v1,
  hound_settings, hound_pet, hound_system, hound_companion, hound_look,
}
use Prim.Native.Nat.{bit_xor, bit_and}
use surveillance_hound.Common.{
  ℕ, zero, suc, ◌+◌, ◌-◌, ◌*◌, ◌/◌, ◌%◌, ◌^◌, ◌≤◌, ◌<◌, min, max, pred, ◌≡◌, refl, sym, ap, ap₂,
  subst, ◌∙◌, ◌≢◌, ◌↔◌, ◌⊎◌, inl, inr, Bool, true, false, not, ◌&&◌, ◌||◌, Option, none, some, List,
  [], ◌∷◌, ◌++◌, map, arith, ltb, leb, ◌==◌, if◌then◌else◌, bool_eq, to_bit, Bool-cases,
  Option-cases, length, all, guard, ◌>>=◌, ◌>>◌,
}
use surveillance_hound.Core.{Settings}
use surveillance_hound.Pet.{Pet}
use surveillance_hound.MealGuard.{MealStamp}
use surveillance_hound.Utilities.{BatteryCalibration}
use surveillance_hound.Companion.{Companion, OldCompanion, new_companion, migrate_companion, unlock}
use surveillance_hound.Appearance.{
  Appearance, AppearanceV1, AppearanceV2, new_appearance, valid_appearance, migrate_v1, migrate_v2,
}
use surveillance_hound.Storage.State
use surveillance_hound.Storage.State.{State, OldState, new_state, Calibration, valid_current}

pub record Nvs : Type 0 where
  pub blobs : Space → ℕ → Option Envelope
  pub generation : Option ℕ

abbrev pub put : Space → ℕ → Envelope → Nvs → Nvs
put space slot e nvs = record nvs {
  blobs =
      λ s k. if (space_index s == space_index space) && (k == slot) then some e else nvs.blobs s k;
}

-- A call that stores does so, or fails, and then the store holds the old value or the new one.
pub data Outcome : Type 0 where
  refused unsure done : Outcome

abbrev pub or_else {ℓ} : {A : Type ℓ} → Option A → Option A → Option A
or_else none b = b
or_else (some a) b = some a

-- The parts of one generation; none is one that cannot be read.
abbrev pub Parts : Type 0
Parts = Space → Option Part

-- A checked appearance of the current layout.
unfoldable pub good_look : Appearance → Option Appearance
good_look a = if valid_appearance a then some a else none

-- The appearance, of the latest layout that fits.
unfoldable pub read_look : Parts → Option Appearance
unfolding good_look
read_look parts =
    let part = parts hound_look in
    or_else (do p ← part; a ← as_look p; good_look a)
      (or_else (do p ← part; a ← as_look_v2 p; migrate_v2 a)
        (do p ← part; a ← as_look_v1 p; migrate_v1 a))

unfoldable pub read_scents : Parts → Option Companion
read_scents parts =
    let part = parts hound_companion in
    or_else (do p ← part; as_scents p) (do p ← part; c ← as_scents_v1 p; migrate_companion c)

-- With a boot record of the current layout.
unfoldable pub with_boot : Parts → BootRecord → Option (Companion × Appearance)
unfolding read_scents read_look
with_boot parts b = do
  guard ((b.version == 4) || (b.version == 5))
  c ← read_scents parts
  a ← (if b.version == 5 then read_look parts else some new_appearance)
  some (c, a)

unfoldable pub assemble : ConfigRecord → PetRecord → ℕ → ℕ → Companion → Appearance → State
assemble c p boots reason companion appearance = record new_state {
  settings = c.settings;
  calibration = c.calibration;
  battery = c.battery;
  pet = p.pet;
  recent = p.recent;
  meal_key = p.key;
  boots = boots;
  reset_reason = reason;
  companion = companion;
  appearance = appearance;
}

unfoldable pub read_current : Parts → ConfigRecord → PetRecord → BootRecord → Option State
unfolding with_boot assemble
read_current parts c p b = do
  (companion, appearance) ← with_boot parts b
  some (assemble c p b.boots b.reason companion appearance)

-- A boot record of the third layout has no companion; the outfits follow from the experience points.
unfoldable pub read_v3 : Parts → ConfigRecord → PetRecord → Option State
unfolding assemble
read_v3 parts c p = do
  q ← parts hound_system
  b ← as_boot_v3 q
  some (assemble c p b.boots b.reason (unlock new_companion p.pet.xp).0 new_appearance)

unfoldable pub read_boot : Parts → ConfigRecord → PetRecord → Option BootRecord → Option State
unfolding read_current read_v3
read_boot parts c p none = read_v3 parts c p
read_boot parts c p (some b) = read_current parts c p b

unfoldable pub read_parts : Parts → Option State
unfolding read_boot
read_parts parts = do
  q ← parts hound_settings
  c ← as_config q
  q' ← parts hound_pet
  p ← as_pets q'
  s ← read_boot parts c p (do r ← parts hound_system; as_boot r)
  guard (valid_current s)
  some s

-- `&&` between calls that store.
unfoldable pub and_then : Nvs × Bool → (Nvs → Nvs × Bool) → Nvs × Bool
and_then (nvs, true) more = more nvs
and_then (nvs, false) more = (nvs, false)

unfoldable pub commit : Outcome → ℕ → Nvs → Nvs × Bool
commit refused gen nvs = (nvs, false)
commit unsure gen nvs = (record nvs { generation = some gen }, false)
commit done gen nvs = (record nvs { generation = some gen }, true)

-- The parts of a state in the order in which they are written.
unfoldable pub parts_of : State → List (Space × Part)
parts_of s =
    (
      hound_settings,
      config (record { settings = s.settings; calibration = s.calibration; battery = s.battery }),
    )
    ∷ (hound_pet, pets (record { pet = s.pet; recent = s.recent; key = s.meal_key }))
    ∷ (hound_system, boot (record { boots = s.boots; reason = s.reset_reason; version = 5 }))
    ∷ (hound_companion, scents s.companion)
    ∷ (hound_look, look s.appearance)
    ∷ []

-- What reading the blob of an older layout leads to.
pub data Legacy : Type 0 where
  missing : Legacy
  unreadable : Legacy
  blob : OldState → Legacy

pub data Found : Type 0 where
  nothing : Found
  bad : Found
  found : State → Found

abbrev pub migrated : Option State → Found
migrated none = bad
migrated (some s) = found s

unfoldable pub read_legacy : (OldState → Option State) → Legacy → Found
read_legacy migrate missing = nothing
read_legacy migrate unreadable = bad
read_legacy migrate (blob old) = migrated (migrate old)

-- The first layout is only looked for when there is no state of the second one.
unfoldable pub legacy_state : Legacy → Legacy → Found
unfolding read_legacy
legacy_state (blob old) v1 = read_legacy State.migrate_v2 (blob old)
legacy_state unreadable v1 = bad
legacy_state missing v1 = read_legacy State.migrate_v1 v1

-- A state that was saved before is started anew.
unfoldable pub resumed : State → State
resumed s = record s { pet = record s.pet { decay_ms = 0 } }

unfoldable pub started : ℕ → State → State
started reason s = record s { boots = (s.boots + 1) % 2 ^ 32; reset_reason = reason }

-- The state when no generation is stored; `random` is what esp_fill_random gives.
unfoldable pub first_state : List ℕ → State → Found → Option State
unfolding resumed
first_state random state nothing = some (record state { meal_key = random })
first_state random state bad = none
first_state random state (found s) = if valid_current s then some (resumed s) else none

module _ (bytes : Part → List ℕ) where
  unfoldable pub seal : ℕ → Part → Envelope
  seal gen value = record {
    version = 1;
    generation = gen;
    crc = checksum (bytes value);
    value = value;
  }

  unfoldable pub write_part : Outcome → Space → ℕ → Part → Nvs → Nvs × Bool
  unfolding seal
  write_part refused space gen value nvs = (nvs, false)
  write_part unsure space gen value nvs = (put space (gen % 2) (seal gen value) nvs, false)
  write_part done space gen value nvs = (put space (gen % 2) (seal gen value) nvs, true)

  -- Whether an envelope is whole and of this generation.
  unfoldable pub opens : ℕ → Envelope → Bool
  opens gen e = (e.version == 1) && (e.generation == gen) && (e.crc == checksum (bytes e.value))

  unfoldable pub read_part : Nvs → Space → ℕ → Option Part
  unfolding opens
  read_part nvs space gen = do e ← nvs.blobs space (gen % 2); guard (opens gen e); some e.value

  unfoldable pub read_generation : Nvs → ℕ → Option State
  unfolding read_part read_parts
  read_generation nvs gen = read_parts (λ space. read_part nvs space gen)

  -- Stops at the first part that is not written.
  unfoldable pub write_parts : (ℕ → Outcome) → ℕ → List (Space × Part) → Nvs → Nvs × Bool
  unfolding write_part and_then
  write_parts outs gen [] nvs = (nvs, true)
  write_parts outs gen ((space, value) ∷ rest) nvs =
      and_then (write_part (outs 0) space gen value nvs) (write_parts (λ n. outs (n + 1)) gen rest)

  -- `gen` is the generation that was loaded; the six calls that store go as `outs` says.
  unfoldable pub persist : (ℕ → Outcome) → ℕ → State → Nvs → Nvs × Bool
  persist outs gen s nvs =
      let next = (gen + 1) % 2 ^ 32 in
      if not (valid_current s) || (next == 0)
      then (nvs, false)
      else and_then (write_parts outs next (parts_of s) nvs) (commit (outs 5) next)

  unfoldable pub stored_state : Found → List ℕ → State → Option ℕ → Nvs → Option State
  unfolding first_state resumed
  stored_state legacy random state none nvs = first_state random state legacy
  stored_state legacy random state (some gen) nvs = do s ← read_generation nvs gen; some (resumed s)

  abbrev pub number_of : Option ℕ → ℕ
  number_of none = 0
  number_of (some gen) = gen

  -- `load`, once the store is open and the number of the generation is read or not there: the state and
  -- the store afterwards, and whether it succeeds. A state that cannot be read is left as it was.
  unfoldable pub load :
      (ℕ → Outcome) → Legacy → Legacy → List ℕ → ℕ → State → Nvs → State × Nvs × Bool
  unfolding legacy_state stored_state started persist
  load outs v2 v1 random reason state nvs =
      elim (stored_state (legacy_state v2 v1) random state nvs.generation nvs)
        as (λ o. State × Nvs × Bool) [
          | none ↦ (state, nvs, false)
          | some s ↦
              let (nvs', ok) = persist outs (number_of nvs.generation) (started reason s) nvs in
              (started reason s, nvs', ok)
        ]
