-- ===== src/Appearance/Tests.antt =====
-- Appearance settings at concrete values.
use surveillance_hound.Common.{◌≡◌, refl, some}
use surveillance_hound.Appearance.{
  AppearanceV2, Appearance, new_appearance, migrate_v2, next_timeout,
}
use surveillance_hound.Appearance.Migration.{Migrates, migrate_v2-Migrates}

abbrev second : AppearanceV2
second = record { version = 2; theme = 1; scene = 2; speech = 0; compact = 1; inverted = 1 }

abbrev third : Appearance
third = record new_appearance { theme = 1; scene = 2; speech = 0; compact = 1; inverted = 1 }

second_migrates : migrate_v2 second ≡ some third
unfolding migrate_v2
second_migrates = refl

migrate_v2-Migrates_example : (second.version ≡ 2) × Migrates second third
migrate_v2-Migrates_example = migrate_v2-Migrates second third second_migrates

after_an_hour : next_timeout 60 ≡ 0
unfolding next_timeout
after_an_hour = refl
