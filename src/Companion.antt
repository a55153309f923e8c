-- ===== src/Companion.antt =====
-- components/sniffer_core/include/sniffer/companion.hpp: the scent book, outfits and ignore list.
-- A stored hash is eight bytes, least significant first; `unlocked` is a byte of outfit bits.
pub mod Digest
pub mod Ignores
pub mod Outfits
pub mod Valid
mod Tests
use surveillance_hound.Common.{
  test_bit, ℕ, zero, suc, ◌+◌, ◌-◌, ◌*◌, ◌/◌, ◌%◌, ◌^◌, ◌≤◌, ◌<◌, min, max, pred, ◌≡◌, refl, sym,
  ap, ap₂, subst, ◌∙◌, ◌≢◌, ◌↔◌, ◌⊎◌, inl, inr, Bool, true, false, not, ◌&&◌, ◌||◌, Option, none,
  some, List, [], ◌∷◌, ◌++◌, map, arith, ltb, leb, ◌==◌, if◌then◌else◌, bool_eq, to_bit, Bool-cases,
  Option-cases, get_or, set, replicate, count_if, find_index, all, length,
}
use surveillance_hound.Common.Int.{ℤ, pos, negsuc, max_ℤ}
use surveillance_hound.Core.{Detection}
use surveillance_hound.Core.Category.{category_count}
use Prim.Native.Nat.{bit_and, bit_or}
use Digest.{digest_of, hash_of}

pub record ScentEntry : Type 0 where
  pub first_utc : ℕ
  pub last_utc : ℕ
  pub observations : ℕ
  pub best_score : ℕ
  pub last_score : ℕ
  pub strongest : ℤ

abbrev pub blank_scent : ScentEntry
blank_scent = record {
  first_utc = 0;
  last_utc = 0;
  observations = 0;
  best_score = 0;
  last_score = 0;
  strongest = negsuc 126;
}

pub record IgnoredScent : Type 0 where
  pub digest : List ℕ
  pub category : ℕ

abbrev pub blank_ignored : IgnoredScent
blank_ignored = record { digest = replicate 8 0; category = 0 }

unfoldable pub ignored_scent : ℕ → ℕ → IgnoredScent
ignored_scent value type = record { digest = digest_of value; category = type }

abbrev pub ignored_hash : IgnoredScent → ℕ
ignored_hash e = hash_of e.digest

abbrev pub ignore_capacity : ℕ
ignore_capacity = 64

abbrev pub outfit_count : ℕ
outfit_count = 6

-- The inner loop of `valid_ignores`: no earlier entry has the hash.
unfoldable pub no_earlier : ℕ → List IgnoredScent → Bool
no_earlier h earlier = h == 0 || all (λ e. not (ignored_hash e == h)) earlier

-- `earlier` are the entries before, latest first.
unfoldable pub valid_ignores_from : List IgnoredScent → List IgnoredScent → Bool
unfolding no_earlier
valid_ignores_from earlier [] = true
valid_ignores_from earlier (e ∷ es) =
    ltb e.category category_count
    && no_earlier (ignored_hash e) earlier
    && valid_ignores_from (e ∷ earlier) es

unfoldable pub valid_ignores : List IgnoredScent → Bool
unfolding valid_ignores_from
valid_ignores list = valid_ignores_from [] list

pub record Companion : Type 0 where
  pub version : ℕ
  pub scents : List ScentEntry
  pub ignored : List IgnoredScent
  pub equipped : ℕ
  pub unlocked : ℕ

-- Companion{}
abbrev pub new_companion : Companion
new_companion = record {
  version = 2;
  scents = replicate category_count blank_scent;
  ignored = replicate ignore_capacity blank_ignored;
  equipped = 0;
  unlocked = 1;
}

unfoldable pub discoveries : Companion → ℕ
discoveries c = count_if (λ s. not (s.observations == 0)) c.scents

unfoldable pub update_scent : Detection → ScentEntry → ScentEntry
update_scent d s = record s {
  first_utc = if s.observations == 0 then d.unix_seconds else s.first_utc;
  observations = if ltb s.observations (2 ^ 32 - 1) then s.observations + 1 else s.observations;
  last_utc = d.unix_seconds;
  last_score = d.score;
  best_score = max s.best_score d.score;
  strongest = max_ℤ s.strongest d.rssi_max;
}

unfoldable pub observe : Companion → Detection → Companion
unfolding update_scent
observe c d = if leb (length c.scents) d.category then c else record c {
  scents = set c.scents d.category (update_scent d (get_or c.scents d.category blank_scent));
}

-- The outfits that the experience points and discoveries have earned, one bit each.
unfoldable pub earned : ℕ → ℕ → ℕ
earned xp found =
    1
    + to_bit (leb 25 xp) * 2
    + to_bit (leb 100 xp) * 4
    + to_bit (leb 5 found) * 8
    + to_bit (leb 300 xp) * 16
    + to_bit (leb 10 found) * 32

-- Returns the new companion and the outfits that were added.
unfoldable pub unlock : Companion → ℕ → Companion × ℕ
unfolding earned
unlock c xp =
    let e = earned xp (discoveries c) in
    (record c { unlocked = bit_or c.unlocked e }, bit_and e (255 - c.unlocked))

unfoldable pub is_ignored : Companion → ℕ → Bool
is_ignored c hash =
    if hash == 0
    then false
    else elim (find_index (λ e. ignored_hash e == hash) c.ignored) [ none ↦ false | some i ↦ true ]

-- The first unused entry takes the new identity; a full list refuses it.
unfoldable pub add_ignored : Companion → ℕ → ℕ → Option ℕ → Companion × Bool
unfolding ignored_scent
add_ignored c hash category none = (c, false)
add_ignored c hash category (some i) =
    (record c { ignored = set c.ignored i (ignored_scent hash category) }, true)

unfoldable pub ignore : Companion → ℕ → ℕ → Companion × Bool
unfolding is_ignored add_ignored
ignore c hash category =
    if hash == 0 || leb category_count category
    then (c, false)
    else if is_ignored c hash
    then (c, true)
    else add_ignored c hash category (find_index (λ e. ignored_hash e == 0) c.ignored)

unfoldable pub ignored_count : Companion → ℕ
ignored_count c = count_if (λ e. not (ignored_hash e == 0)) c.ignored

abbrev pub last_utc_allowed : ℕ
last_utc_allowed = 4102444799

unfoldable pub valid_scent : ScentEntry → Bool
valid_scent s = not (
    ltb 100 s.best_score
    || ltb s.best_score s.last_score
    || ltb last_utc_allowed s.first_utc
    || ltb last_utc_allowed s.last_utc)

-- The tests of the outfit byte: only known outfits, the first one and the equipped one among them.
unfoldable pub valid_outfits : ℕ → ℕ → Bool
valid_outfits equipped unlocked = not (
    leb outfit_count equipped
    || not (test_bit unlocked 0)
    || not (unlocked / 2 ^ outfit_count == 0)
    || not (test_bit unlocked equipped))

unfoldable pub valid_companion : Companion → Bool
unfolding valid_scent valid_outfits valid_ignores
valid_companion c =
    (c.version == 2)
    && valid_outfits c.equipped c.unlocked
    && all valid_scent c.scents
    && valid_ignores c.ignored

pub record OldEntry : Type 0 where
  pub hash : ℕ
  pub category : ℕ

-- CompanionV1
pub record OldCompanion : Type 0 where
  pub version : ℕ
  pub scents : List ScentEntry
  pub ignored : List OldEntry
  pub equipped : ℕ
  pub unlocked : ℕ

unfoldable pub migrate_ignored : List OldEntry → List IgnoredScent → List IgnoredScent
unfolding ignored_scent
migrate_ignored [] slots = slots
migrate_ignored (e ∷ es) [] = []
migrate_ignored (e ∷ es) (s ∷ slots) = ignored_scent e.hash e.category ∷ migrate_ignored es slots

-- The companion that `migrate_companion` fills in.
unfoldable pub migrated : OldCompanion → Companion
unfolding migrate_ignored
migrated old = record new_companion {
  scents = old.scents;
  equipped = old.equipped;
  unlocked = old.unlocked;
  ignored = migrate_ignored old.ignored (replicate ignore_capacity blank_ignored);
}

-- `none` leaves the output untouched.
unfoldable pub migrate_companion : OldCompanion → Option Companion
unfolding migrated valid_companion
migrate_companion old =
    if not (old.version == 1) || not (valid_companion (migrated old))
    then none
    else some (migrated old)
