-- ===== src/Appearance.antt =====
-- components/sniffer_core/include/sniffer/appearance.hpp: the display settings, their timeouts and
-- the migration of the two earlier layouts.
pub mod Migration
mod Tests
use surveillance_hound.Common.{
  ℕ, zero, suc, ◌+◌, ◌-◌, ◌*◌, ◌/◌, ◌%◌, ◌^◌, ◌≤◌, ◌<◌, min, max, pred, ◌≡◌, refl, sym, ap, ap₂,
  subst, ◌∙◌, ◌≢◌, ◌↔◌, ◌⊎◌, inl, inr, Bool, true, false, not, ◌&&◌, ◌||◌, Option, none, some, List,
  [], ◌∷◌, ◌++◌, map, arith, ltb, leb, ◌==◌, if◌then◌else◌, bool_eq, to_bit, Bool-cases,
  Option-cases, get_or, find_index,
}

pub record AppearanceV1 : Type 0 where
  pub version : ℕ
  pub theme : ℕ
  pub scene : ℕ
  pub speech : ℕ
  pub compact : ℕ

pub record AppearanceV2 : Type 0 where
  pub version : ℕ
  pub theme : ℕ
  pub scene : ℕ
  pub speech : ℕ
  pub compact : ℕ
  pub inverted : ℕ

pub record Appearance : Type 0 where
  pub version : ℕ
  pub theme : ℕ
  pub scene : ℕ
  pub speech : ℕ
  pub compact : ℕ
  pub inverted : ℕ
  pub dim_minutes : ℕ
  pub saver_minutes : ℕ
  pub off_minutes : ℕ

-- Appearance{}
abbrev pub new_appearance : Appearance
new_appearance = record {
  version = 3;
  theme = 0;
  scene = 0;
  speech = 1;
  compact = 0;
  inverted = 0;
  dim_minutes = 2;
  saver_minutes = 5;
  off_minutes = 15;
}

abbrev pub idle_timeouts : List ℕ
idle_timeouts = 0 ∷ 1 ∷ 2 ∷ 5 ∷ 10 ∷ 15 ∷ 30 ∷ 60 ∷ []

unfoldable pub valid_timeout : ℕ → Bool
valid_timeout minutes = elim (find_index (λ v. minutes == v) idle_timeouts) [
  | none ↦ false
  | some i ↦ true
]

unfoldable pub next_timeout : ℕ → ℕ
next_timeout minutes = elim (find_index (λ v. v == minutes) idle_timeouts) [
  | some i ↦ get_or idle_timeouts ((i + 1) % 8) 0
  | none ↦ 0
]

unfoldable pub valid_appearance : Appearance → Bool
unfolding valid_timeout
valid_appearance a =
    (a.version == 3)
    && ltb a.theme 3
    && ltb a.scene 3
    && ltb a.speech 3
    && ltb a.compact 2
    && ltb a.inverted 2
    && valid_timeout a.dim_minutes
    && valid_timeout a.saver_minutes
    && valid_timeout a.off_minutes

unfoldable pub bad_v1 : AppearanceV1 → Bool
bad_v1 old =
    not (old.version == 1)
    || leb 3 old.theme
    || leb 3 old.scene
    || leb 3 old.speech
    || leb 2 old.compact

-- migrate_appearance(const AppearanceV1 &, Appearance &)
unfoldable pub migrate_v1 : AppearanceV1 → Option Appearance
unfolding bad_v1
migrate_v1 old =
    if bad_v1 old
    then none
    else some (record new_appearance {
      theme = old.theme;
      scene = old.scene;
      speech = old.speech;
      compact = old.compact;
    })

-- The colours of a migrated base.
unfoldable pub with_inverted : ℕ → Option Appearance → Option Appearance
with_inverted inverted none = none
with_inverted inverted (some a) = some (record a { inverted = inverted })

-- migrate_appearance(const AppearanceV2 &, Appearance &)
unfoldable pub migrate_v2 : AppearanceV2 → Option Appearance
unfolding migrate_v1 with_inverted
migrate_v2 old =
    if not (old.version == 2) || leb 2 old.inverted
    then none
    else with_inverted old.inverted (
        migrate_v1 (record {
          version = 1;
          theme = old.theme;
          scene = old.scene;
          speech = old.speech;
          compact = old.compact;
        }))
