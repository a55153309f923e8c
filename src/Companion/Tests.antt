-- ===== src/Companion/Tests.antt =====
-- The companion's theorems at concrete inputs.
use surveillance_hound.Common.{◌≡◌, refl, true, ◌||◌, ◌∷◌, arith, ◌==◌, replicate}
use surveillance_hound.Core.{blank_detection}
use surveillance_hound.Core.Category.{category_count}
use surveillance_hound.Companion.{
  Companion, OldCompanion, new_companion, blank_scent, valid_companion, valid_ignores, observe,
  ignore, unlock, is_ignored, migrate_companion, migrated,
}
use surveillance_hound.Companion.Digest.{hash_of, digest_of}
use surveillance_hound.Companion.Ignores.{is_ignored-ignore, ignore-valid_ignores}
use surveillance_hound.Companion.Outfits.{Unlocks, unlock-Unlocks}
use surveillance_hound.Companion.Valid.{Keeps, operations-valid, migrate_companion-Keeps}

abbrev one_ignored : Companion
one_ignored = (ignore new_companion 77 5).0

ignores_one : is_ignored one_ignored 77 ≡ true
unfolding ignore is_ignored hash_of digest_of
ignores_one = refl

is_ignored-ignore_example :
    is_ignored (ignore one_ignored 78 6).0 77 ≡ (77 == 78 || is_ignored one_ignored 77)
is_ignored-ignore_example =
    is_ignored-ignore one_ignored 78 6 (omega arith) (unfold ignore hash_of digest_of in refl) 77

ignore-valid_ignores_example : valid_ignores (ignore one_ignored 78 6).0.ignored ≡ true
ignore-valid_ignores_example =
    ignore-valid_ignores one_ignored 78 6 (omega arith)
      (unfold ignore valid_ignores hash_of digest_of in refl)

unlock-Unlocks_example : Unlocks one_ignored 120 2
unlock-Unlocks_example =
    unlock-Unlocks one_ignored 120 (unfold ignore hash_of digest_of in omega arith) 2 (omega arith)

operations-valid_example :
    (valid_companion (observe new_companion (record blank_detection { score = 80; category = 5 }))
      ≡ true)
    × (valid_companion (ignore new_companion 77 5).0 ≡ true)
    × (valid_companion (unlock new_companion 120).0 ≡ true)
operations-valid_example =
    operations-valid new_companion (unfold valid_companion hash_of in refl)
      (record blank_detection { score = 80; category = 5 }) 77 5 120 (omega arith) (omega arith)
      (omega arith)

abbrev old_one : OldCompanion
old_one = record {
  version = 1;
  scents = replicate category_count blank_scent;
  ignored = record { hash = 9; category = 6 } ∷ replicate 15 (record { hash = 0; category = 0 });
  equipped = 0;
  unlocked = 3;
}

migrate_companion-Keeps_example : Keeps old_one (migrated old_one)
migrate_companion-Keeps_example =
    migrate_companion-Keeps old_one (migrated old_one) (omega arith) (omega arith)
      (unfold migrate_companion hash_of digest_of in refl)
