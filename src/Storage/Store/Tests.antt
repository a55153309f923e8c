-- ===== src/Storage/Store/Tests.antt =====
-- The store of a small device. The memory layout that is used here is empty.
use surveillance_hound.Common.{
  ℕ, ◌≡◌, refl, none, some, List, [], ◌∷◌, ◌==◌, if◌then◌else◌, replicate,
}
use surveillance_hound.Storage.State.{State, new_state, valid_current}
use surveillance_hound.Companion.{valid_companion}
use surveillance_hound.Companion.Digest.{hash_of}
use surveillance_hound.Appearance.{valid_appearance}
use surveillance_hound.Storage.Store.{
  parts_of, write_parts, commit, Nvs, Outcome, refused, done, persist, read_generation,
}
use surveillance_hound.Storage.Store.Layout.{
  checksum, as_config, as_pets, as_boot, as_scents, as_look, Part,
}

abbrev layout : Part → List ℕ
layout p = []

abbrev fourth : Nvs
fourth = record { blobs = λ space k. none; generation = some 4 }

abbrev owned : State
owned = record new_state { meal_key = 1 ∷ replicate 31 0; boots = 3 }

-- The fourth part is not written.
abbrev fails_late : ℕ → Outcome
fails_late n = if n == 3 then refused else done

read_generation-persist :
    read_generation layout (persist layout (λ n. done) 4 owned fourth).0 5 ≡ some owned
unfolding read_generation persist parts_of write_parts commit checksum valid_current valid_companion
    hash_of valid_appearance as_config as_pets as_boot as_scents as_look
read_generation-persist = refl
