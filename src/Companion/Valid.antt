-- ===== src/Companion/Valid.antt =====
-- Every operation keeps a companion that `valid_companion` accepts acceptable, and the migration of
-- the first layout keeps what was ignored.
use surveillance_hound.Common.{
  get_or-replicate, All, get_or-ge, ℕ, zero, suc, ◌^◌, ◌≤◌, ◌<◌, ◌≡◌, refl, ap, subst, ◌∙◌, ◌≢◌,
  inl, inr, true, not, some, List, [], ◌∷◌, arith, ltb, leb, ◌==◌, Bool-cases, get_or, set, all,
  replicate, length, all-set, all-get_or,
}
use surveillance_hound.Core.{Detection}
use surveillance_hound.Companion.{
  Companion, ScentEntry, OldEntry, OldCompanion, blank_scent, blank_ignored, ignored_hash,
  IgnoredScent, ignored_scent, ignore_capacity, last_utc_allowed, update_scent, valid_scent,
  valid_companion, observe, unlock, ignore, is_ignored, migrate_ignored, migrate_companion,
  migrated,
}
use surveillance_hound.Companion.Digest.{hash_of}
use surveillance_hound.Companion.Ignores.{
  absent, is_ignored-absent, ignored_hash-ignored_scent, ignore-valid_ignores,
}
use surveillance_hound.Companion.Outfits.{unlock-valid_outfits}

update_scent-valid :
    (d : Detection) (s : ScentEntry)
    → d.score ≤ 100
    → d.unix_seconds ≤ last_utc_allowed
    → valid_scent s ≡ true
    → valid_scent (update_scent d s) ≡ true
unfolding valid_scent update_scent
update_scent-valid d s sc ut v = ground arith

ignore_scents :
    (c : Companion) (hash category : ℕ)
    → ((ignore c hash category).0.scents ≡ c.scents)
      × ((ignore c hash category).0.version ≡ c.version)
      × ((ignore c hash category).0.equipped ≡ c.equipped)
      × ((ignore c hash category).0.unlocked ≡ c.unlocked)
unfolding ignore
ignore_scents c hash category = ground arith

unlock_rest :
    (c : Companion) (xp : ℕ)
    → ((unlock c xp).0.scents ≡ c.scents)
      × ((unlock c xp).0.version ≡ c.version)
      × ((unlock c xp).0.equipped ≡ c.equipped)
      × ((unlock c xp).0.ignored ≡ c.ignored)
unfolding unlock
unlock_rest c xp = (refl, refl, refl, refl)

module _ (c : Companion) (v : valid_companion c ≡ true) where
  valid_unlocked : c.unlocked < 64
  unfolding valid_companion
  valid_unlocked = ground arith

  observe-valid :
      (d : Detection)
      → d.score ≤ 100
      → d.unix_seconds ≤ last_utc_allowed
      → valid_companion (observe c d) ≡ true
  unfolding valid_companion
  observe-valid d sc ut = elim (Bool-cases (leb (length c.scents) d.category)) [
    | inl out ↦ unfold observe in ground arith
    | inr within ↦ unfold observe in ground (arith, stored)
  ]
    where
      stored :
          all valid_scent
            (set c.scents d.category (update_scent d (get_or c.scents d.category blank_scent)))
          ≡ true
      stored = all-set valid_scent c.scents d.category _ (ground arith) (
          update_scent-valid d _ sc ut (elim (Bool-cases (ltb d.category (length c.scents))) [
            | inl lt ↦
                all-get_or valid_scent c.scents d.category blank_scent (ground arith) (ground arith)
            | inr ge ↦ rw (get_or-ge c.scents d.category blank_scent (ground arith)) refl
          ]))

  ignore-valid :
      (hash category : ℕ) → hash < 2 ^ 64 → valid_companion (ignore c hash category).0 ≡ true
  unfolding valid_companion
  ignore-valid hash category word =
      ground (arith, ignore-valid_ignores c hash category word, ignore_scents c hash category)

  unlock-valid : (xp : ℕ) → valid_companion (unlock c xp).0 ≡ true
  unfolding valid_companion
  unlock-valid xp = ground (arith, unlock-valid_outfits c xp valid_unlocked, unlock_rest c xp)

  -- Each operation keeps an acceptable companion acceptable: a detection of score at most 100 and a
  -- time before 2100, an ignored identity of 64 bits, and an unlock at any experience.
  pub operations-valid :
      (d : Detection) (hash category xp : ℕ)
      → d.score ≤ 100
      → d.unix_seconds ≤ last_utc_allowed
      → hash < 2 ^ 64
      → (valid_companion (observe c d) ≡ true)
        × (valid_companion (ignore c hash category).0 ≡ true)
        × (valid_companion (unlock c xp).0 ≡ true)
  operations-valid d hash category xp sc ut word =
      (observe-valid d sc ut, ignore-valid hash category word, unlock-valid xp)

hash-blank : ignored_hash blank_ignored ≡ 0
unfolding hash_of
hash-blank = refl

absent-migrate_ignored :
    (h : ℕ) (es : List OldEntry) (n : ℕ)
    → h ≢ 0
    → length es ≤ n
    → All (λ e. e.hash < 2 ^ 64) es
    → absent h (migrate_ignored es (replicate n blank_ignored)) ≡ all (λ e. not (e.hash == h)) es
unfolding migrate_ignored
absent-migrate_ignored h [] zero nz fits words = refl
absent-migrate_ignored h [] (suc n) nz fits words =
    ground (arith, absent-migrate_ignored h [] n, hash-blank)
absent-migrate_ignored h (e ∷ es) zero nz fits words = absurd (omega arith)
absent-migrate_ignored h (e ∷ es) (suc n) nz fits words = ground (
  arith,
  absent-migrate_ignored h es n nz (omega arith) words.1,
  ignored_hash-ignored_scent e.hash e.category words.0,
)

-- One slot of a migrated list: its identity and category, or nothing.
abbrev pub OldSlot : List OldEntry → ℕ → IgnoredScent → Type 0
OldSlot [] i e = e ≡ blank_ignored
OldSlot (o ∷ os) zero e = (ignored_hash e ≡ o.hash) × (e.category ≡ o.category)
OldSlot (o ∷ os) (suc i) e = OldSlot os i e

migrate_ignored-OldSlot :
    (es : List OldEntry) (n i : ℕ)
    → length es ≤ n
    → All (λ e. e.hash < 2 ^ 64) es
    → OldSlot es i (get_or (migrate_ignored es (replicate n blank_ignored)) i blank_ignored)
unfolding migrate_ignored
migrate_ignored-OldSlot [] n i fits words = get_or-replicate n i blank_ignored
migrate_ignored-OldSlot (e ∷ es) zero i fits words = absurd (omega arith)
migrate_ignored-OldSlot (e ∷ es) (suc n) zero fits words =
    (ignored_hash-ignored_scent e.hash e.category words.0, unfold ignored_scent in refl)
migrate_ignored-OldSlot (e ∷ es) (suc n) (suc i) fits words =
    migrate_ignored-OldSlot es n i (omega arith) words.1

migrate_companion-some :
    (old : OldCompanion) (c : Companion)
    → migrate_companion old ≡ some c
    → (valid_companion (migrated old) ≡ true) × (migrated old ≡ c)
unfolding migrate_companion
migrate_companion-some old c e = elim (Bool-cases (valid_companion (migrated old))) [
  | inl ok ↦ (ok, ground arith)
  | inr bad ↦ absurd (ground arith)
]

-- A migrated companion is acceptable, ignores exactly the identities of the old list, has each old
-- identity with its category in its old place and nothing behind them, and carries the scent book and
-- the outfits over.
pub record Keeps (old : OldCompanion) (c : Companion) : Type 0 where
  pub acceptable : valid_companion c ≡ true
  pub ignores : (h : ℕ) → h ≢ 0 → is_ignored c h ≡ not (all (λ e. not (e.hash == h)) old.ignored)
  pub slots : (i : ℕ) → OldSlot old.ignored i (get_or c.ignored i blank_ignored)
  pub same_scents : c.scents ≡ old.scents
  pub same_equipped : c.equipped ≡ old.equipped
  pub same_unlocked : c.unlocked ≡ old.unlocked

migrated-Keeps :
    (old : OldCompanion)
    → length old.ignored ≤ ignore_capacity
    → All (λ e. e.hash < 2 ^ 64) old.ignored
    → valid_companion (migrated old) ≡ true
    → Keeps old (migrated old)
unfolding migrated
migrated-Keeps old fits words ok = record {
  acceptable = ok;
  ignores = λ h nz.
      is_ignored-absent (migrated old) h nz
      ∙ ap not (absent-migrate_ignored h old.ignored ignore_capacity nz fits words);
  slots = λ i. migrate_ignored-OldSlot old.ignored ignore_capacity i fits words;
  same_scents = refl;
  same_equipped = refl;
  same_unlocked = refl;
}

-- A migration that succeeds, from a list of at most 64 identities of 64 bits, gives an acceptable
-- companion that ignores exactly the identities of the old list, has each of them with its category
-- in its old place and blank slots behind them, and has the old scent book and outfits.
pub migrate_companion-Keeps :
    (old : OldCompanion) (c : Companion)
    → length old.ignored ≤ ignore_capacity
    → All (λ e. e.hash < 2 ^ 64) old.ignored
    → migrate_companion old ≡ some c
    → Keeps old c
migrate_companion-Keeps old c fits words e =
    let done = migrate_companion-some old c e in
    subst (Keeps old) done.1 (migrated-Keeps old fits words done.0)
