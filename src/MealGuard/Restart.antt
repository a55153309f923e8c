-- ===== src/MealGuard/Restart.antt =====
-- The saved cooldowns after a restart.
use surveillance_hound.Common.{
  count_if, length-append, length-take, get_or-append_lt, get_or-take, All, ℕ, zero, suc, ◌+◌, ◌≤◌,
  ◌<◌, ◌≡◌, refl, ap, ◌∙◌, ◌≢◌, inl, inr, Bool, true, false, not, ◌&&◌, List, [], ◌∷◌, ◌++◌, arith,
  ◌==◌, Bool-cases, get_or, take, replicate, length,
}
use surveillance_hound.MealGuard.{
  MealStamp, MealGuard, blank_stamp, stamp_count, full_cooldown, allows, award, restored, restore,
}
use surveillance_hound.MealGuard.Cooldown.{Request, meals}
use surveillance_hound.MealGuard.Guarded.{used, Guarded, guarded-forbids, served, served-Guarded}

-- A saved stamp with time left is among the restored ones, with the full cooldown.
restored_stamp :
    (saved : List MealStamp) (j hash : ℕ)
    → (get_or saved j blank_stamp).hash ≡ hash
    → hash ≢ 0
    → (get_or saved j blank_stamp).remaining_ms ≢ 0
    → (i : ℕ) × (i < length (restored saved))
      × ((get_or (restored saved) i blank_stamp).hash ≡ hash)
      × ((get_or (restored saved) i blank_stamp).remaining_ms ≡ full_cooldown)
unfolding restored
restored_stamp [] j hash e nz run = absurd (ground arith)
restored_stamp (s ∷ saved) zero hash e nz run = rw (kept, restored) (0, omega arith, e, refl)
  where
    kept : (not (s.hash == 0) && not (s.remaining_ms == 0)) ≡ true
    kept = ground arith
restored_stamp (s ∷ saved) (suc j) hash e nz run =
    let (i, lt, same, full) = restored_stamp saved j hash e nz run in
    elim (Bool-cases (not (s.hash == 0) && not (s.remaining_ms == 0))) [
      | inl kept ↦ rw (kept, restored) (suc i, omega arith, same, full)
      | inr skipped ↦ rw (skipped, restored) (i, lt, same, full)
    ]

count-restored : (saved : List MealStamp) → count_if used (restored saved) ≤ length saved
unfolding restored
count-restored [] = omega arith
count-restored (s ∷ saved) = ground (arith, count-restored saved)

length-restored : (saved : List MealStamp) → length (restored saved) ≤ length saved
unfolding restored
length-restored [] = omega arith
length-restored (s ∷ saved) = ground (arith, length-restored saved)

count-take : (n : ℕ) (ss : List MealStamp) → count_if used (take n ss) ≤ count_if used ss
count-take zero ss = omega arith
count-take (suc n) [] = omega arith
count-take (suc n) (s ∷ ss) = ground (arith, count-take n ss)

count-blank : (m : ℕ) → count_if used (replicate m blank_stamp) ≡ 0
count-blank zero = refl
count-blank (suc m) = count-blank m

count-padded :
    (m : ℕ) (ss : List MealStamp) → count_if used (ss ++ replicate m blank_stamp) ≡ count_if used ss
count-padded m [] = count-blank m
count-padded m (s ∷ ss) = ground (arith, count-padded m ss)

restore-Guarded :
    (g : MealGuard) (saved : List MealStamp) (j hash : ℕ)
    → length saved ≤ stamp_count
    → (get_or saved j blank_stamp).hash ≡ hash
    → hash ≢ 0
    → (get_or saved j blank_stamp).remaining_ms ≢ 0
    → Guarded hash (restore g saved) (length saved)
unfolding restore
restore-Guarded g saved j hash fits e nz run =
    let (i, lt, same, full) = restored_stamp saved j hash e nz run in
    let inside : i < stamp_count = omega (arith, length-restored saved) in
    let slot_is =
      get_or-take stamp_count table i blank_stamp inside
      ∙ get_or-append_lt (restored saved) (replicate stamp_count blank_stamp) i blank_stamp lt in
    record {
      slots = omega (
        arith,
        length-take stamp_count table,
        length-append (restored saved) (replicate stamp_count blank_stamp),
      );
      place = i;
      place_lt = inside;
      hash_is = ap (λ (s : MealStamp). s.hash) slot_is ∙ same;
      full_is = ap (λ (s : MealStamp). s.remaining_ms) slot_is ∙ full;
      used_count = omega (
        arith,
        count-take stamp_count table,
        count-padded stamp_count (restored saved),
        count-restored saved,
      );
    }
  where
    table : List MealStamp
    table = restored saved ++ replicate stamp_count blank_stamp

-- After a restart, through any calls in the first thirty minutes of the new clock, an identity other
-- than zero that was saved with time left is refused, and refusing it changes nothing: as long as the
-- saved stamps and the meals awarded since are together at most 128, for which the guard has stamps.
pub award-restore :
    (g : MealGuard) (saved : List MealStamp) (j hash now category score : ℕ) (low : Bool)
    (rs : List Request)
    → (get_or saved j blank_stamp).hash ≡ hash
    → hash ≢ 0
    → (get_or saved j blank_stamp).remaining_ms ≢ 0
    → All (λ r. r.now < full_cooldown) rs
    → length saved + meals (restore g saved) rs ≤ stamp_count
    → now < full_cooldown
    → let h = served (restore g saved) rs in award h hash now category score low ≡ (h, false)
award-restore g saved j hash now category score low rs e nz run early room soon = refuse (
    guarded-forbids hash h (length saved + meals (restore g saved) rs)
      (served-Guarded hash (restore g saved) (length saved) rs
        (restore-Guarded g saved j hash (omega (arith, room)) e nz run) early room)
      now category score low soon)
  where
    h : MealGuard
    h = served (restore g saved) rs

    refuse :
        allows h hash now category score low ≡ false
        → award h hash now category score low ≡ (h, false)
    refuse off = unfold award in rw (off, award)
