-- ===== src/Appearance/Migration.antt =====
-- Migration of the earlier layouts.
use surveillance_hound.Common.{
  some-inj, unless-some, or-false, eq_of_unlike, ℕ, ◌≡◌, refl, sym, ap, subst, ◌∙◌, inl, inr, true,
  false, not, ◌||◌, Option, none, some, arith, ltb, leb, ◌==◌, Bool-cases,
}
use surveillance_hound.Appearance.{
  AppearanceV1, AppearanceV2, Appearance, new_appearance, valid_appearance, bad_v1, migrate_v1,
  with_inverted, migrate_v2,
}

-- The result is valid, keeps what was set and takes the default timeouts.
pub record Migrates (old : AppearanceV2) (a : Appearance) : Type 0 where
  pub valid : valid_appearance a ≡ true
  pub theme : a.theme ≡ old.theme
  pub scene : a.scene ≡ old.scene
  pub speech : a.speech ≡ old.speech
  pub compact : a.compact ≡ old.compact
  pub inverted : a.inverted ≡ old.inverted
  pub timeouts : (a.dim_minutes ≡ 2) × (a.saver_minutes ≡ 5) × (a.off_minutes ≡ 15)

lt_of_leb : (a b : ℕ) → leb b a ≡ false → ltb a b ≡ true
lt_of_leb a b h = ground (arith, h)

abbrev base_of : AppearanceV2 → AppearanceV1
base_of old = record {
  version = 1;
  theme = old.theme;
  scene = old.scene;
  speech = old.speech;
  compact = old.compact;
}

abbrev migrated : AppearanceV2 → Appearance
migrated old = record new_appearance {
  theme = old.theme;
  scene = old.scene;
  speech = old.speech;
  compact = old.compact;
  inverted = old.inverted;
}

good_v1 :
    (o : AppearanceV1)
    → bad_v1 o ≡ false
    → (ltb o.theme 3 ≡ true)
      × (ltb o.scene 3 ≡ true)
      × (ltb o.speech 3 ≡ true)
      × (ltb o.compact 2 ≡ true)
unfolding bad_v1
good_v1 o good =
    let (abcd, d) = or-false _ _ good in
    let (abc, c) = or-false _ _ abcd in
    let (ab, b) = or-false _ _ abc in
    let (v, a) = or-false (not (o.version == 1)) (leb 3 o.theme) ab in
    (lt_of_leb o.theme 3 a, lt_of_leb o.scene 3 b, lt_of_leb o.speech 3 c, lt_of_leb o.compact 2 d)

migrated-valid :
    (old : AppearanceV2)
    → leb 2 old.inverted ≡ false
    → bad_v1 (base_of old) ≡ false
    → valid_appearance (migrated old) ≡ true
unfolding valid_appearance
migrated-valid old e good =
    let (a, b, c, d) = good_v1 (base_of old) good in
    rw (a, b, c, d, lt_of_leb old.inverted 2 e) refl

migrated-Migrates :
    (old : AppearanceV2)
    → leb 2 old.inverted ≡ false
    → bad_v1 (base_of old) ≡ false
    → Migrates old (migrated old)
migrated-Migrates old e good = record {
  valid = migrated-valid old e good;
  theme = refl;
  scene = refl;
  speech = refl;
  compact = refl;
  inverted = refl;
  timeouts = (refl, refl, refl);
}

with_inverted-some :
    (old : AppearanceV2) (a : Appearance)
    → leb 2 old.inverted ≡ false
    → with_inverted old.inverted (migrate_v1 (base_of old)) ≡ some a
    → Migrates old a
unfolding migrate_v1 with_inverted
with_inverted-some old a e f = elim (Bool-cases (bad_v1 (base_of old))) [
  | inl bad ↦ absurd (none_some (sym (ap (with_inverted old.inverted) (refused bad)) ∙ f))
  | inr good ↦
      subst (Migrates old) (some-inj (sym (ap (with_inverted old.inverted) (taken good)) ∙ f))
        (migrated-Migrates old e good)
]
  where
    refused : bad_v1 (base_of old) ≡ true → migrate_v1 (base_of old) ≡ none
    refused bad = rw (bad) refl

    taken :
        bad_v1 (base_of old) ≡ false
        → migrate_v1 (base_of old)
          ≡ some (record new_appearance {
            theme = old.theme;
            scene = old.scene;
            speech = old.speech;
            compact = old.compact;
          })
    taken good = rw (good) refl

    none_some : {x : Appearance} → ◌≡◌ {A = Option Appearance} none (some x) → ⊥
    none_some h = cc

-- Settings of the second layout that are migrated are of version 2, and become valid settings with the
-- same choices and the default timeouts: no padding byte is read as a timeout.
pub migrate_v2-Migrates :
    (old : AppearanceV2) (a : Appearance)
    → migrate_v2 old ≡ some a
    → (old.version ≡ 2) × Migrates old a
unfolding migrate_v2
migrate_v2-Migrates old a h =
    let (good, f) =
      unless-some (not (old.version == 2) || leb 2 old.inverted)
        (with_inverted old.inverted (migrate_v1 (base_of old))) {q = a} h in
    let (version, choice) = or-false (not (old.version == 2)) (leb 2 old.inverted) good in
    (eq_of_unlike old.version 2 version, with_inverted-some old a choice f)
