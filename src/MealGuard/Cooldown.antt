-- ===== src/MealGuard/Cooldown.antt =====
-- How long a meal keeps the next ones away: after an award, and over a whole run.
use surveillance_hound.Common.{
  All, length-set, ℕ, ◌+◌, ◌*◌, ◌/◌, ◌%◌, ◌≤◌, ◌<◌, max, ◌≡◌, refl, ap, ◌⊎◌, inl, inr, Bool, true,
  false, Option, none, some, List, [], ◌∷◌, arith, ◌==◌, to_bit, Bool-cases, get_or, set, length,
  find_index, u64_mod, get_or-set, find_index-none, find_index-some, min_index-lt,
}
use surveillance_hound.Core.Category.{category_count}
use surveillance_hound.MealGuard.{
  new_guard, MealStamp, MealGuard, blank_stamp, stamp_count, full_cooldown, running, cooldown,
  allows, destination, award,
}

pub record IsSized (g : MealGuard) : Type 0 where
  pub stamp_slots : length g.stamps ≡ stamp_count
  pub category_slots : length g.category_until ≡ category_count

pub destination-lt :
    (stamps : List MealStamp) (hash : ℕ)
    → 0 < length stamps
    → destination stamps hash < length stamps
unfolding destination
destination-lt stamps hash some_slot = by_search (find_index (λ s. s.hash == hash) stamps) refl
  where
    by_search :
        (o : Option ℕ)
        → find_index (λ s. s.hash == hash) stamps ≡ o
        → destination stamps hash < length stamps
    by_search none e = rw (e, destination) (min_index-lt (λ s. s.remaining_ms) stamps some_slot)
    by_search (some i) e =
        rw (e, destination) (find_index-some (λ s. s.hash == hash) stamps i blank_stamp e).0

-- A running stamp of the identity forbids it.
pub running-forbids :
    (g : MealGuard) (hash now category score : ℕ) (low : Bool) (i : ℕ)
    → i < length g.stamps
    → running hash now (get_or g.stamps i blank_stamp) ≡ true
    → allows g hash now category score low ≡ false
unfolding allows
running-forbids g hash now category score low i lt run =
    by_search (find_index (running hash now) g.stamps) refl
  where
    by_search :
        (o : Option ℕ)
        → find_index (running hash now) g.stamps ≡ o
        → allows g hash now category score low ≡ false
    by_search none e =
        absurd (ground (arith, find_index-none (running hash now) g.stamps i blank_stamp e lt))
    by_search (some j) e = rw (e, allows) (ground arith)

-- The parts of a guard after an award.
pub record Awarded (g h : MealGuard) (hash now category : ℕ) : Type 0 where
  pub stamps_are :
      h.stamps
      ≡ set g.stamps
          (destination g.stamps hash)
          (record { hash = hash; remaining_ms = (now + cooldown category) % u64_mod })
  pub global_is : h.global_until ≡ (now + 5000) % u64_mod
  pub category_is : h.category_until ≡ set g.category_until category ((now + 30000) % u64_mod)
  pub was_allowed : g.global_until ≤ now

pub award-Awarded :
    (g : MealGuard) (hash now category score : ℕ) (low : Bool)
    → (award g hash now category score low).1 ≡ true
    → Awarded g (award g hash now category score low).0 hash now category
unfolding award
award-Awarded g hash now category score low e =
    elim (Bool-cases (allows g hash now category score low)) [
      | inr no_ ↦ absurd (ground arith)
      | inl ok ↦
          rw (ok, award)
            (record {
              stamps_are = refl;
              global_is = refl;
              category_is = refl;
              was_allowed = unfold allows in ground arith;
            })
    ]

-- What the next call may not have, for `award` to refuse it.
abbrev pub TooSoon : ℕ → ℕ → ℕ → ℕ → ℕ → ℕ → Type 0
TooSoon hash now category hash' now' category' =
    (now' < now + 5000)
    ⊎ ((category' ≡ category) × (now' < now + 30000))
    ⊎ ((hash' ≡ hash) × (now' < now + cooldown category))

module _ (g : MealGuard) (hash now category score : ℕ) (low : Bool) (v : IsSized g) where
  -- After an award, the next call is refused and changes nothing if it comes within five seconds,
  -- within thirty for the same category, or within the cooldown (ten minutes for a deauthentication,
  -- otherwise thirty) for the same identity; the clock stays short of 64 bits.
  pub award-TooSoon :
      (hash' now' category' score' : ℕ) (low' : Bool)
      → category < category_count
      → now + full_cooldown < u64_mod
      → (award g hash now category score low).1 ≡ true
      → TooSoon hash now category hash' now' category'
      → let h = (award g hash now category score low).0 in
        award h hash' now' category' score' low' ≡ (h, false)
  award-TooSoon hash' now' category' score' low' known word e soon =
      refuse (forbidden (award-Awarded g hash now category score low e) soon)
    where
      h : MealGuard
      h = (award g hash now category score low).0

      refuse :
          allows h hash' now' category' score' low' ≡ false
          → award h hash' now' category' score' low' ≡ (h, false)
      refuse off = unfold award in rw (off, award)

      slot : ℕ
      slot = destination g.stamps hash

      forbidden :
          Awarded g h hash now category
          → TooSoon hash now category hash' now' category'
          → allows h hash' now' category' score' low' ≡ false
      forbidden a (inl early) = unfold allows in ground (arith, a.global_is)
      forbidden a (inr (inl (same, early))) =
          unfold allows in
          ground (
            arith,
            ap (λ l. get_or l category' 0) a.category_is,
            get_or-set g.category_until category category' ((now + 30000) % u64_mod) 0,
            v.category_slots,
          )
      forbidden a (inr (inr (same, early))) =
          running-forbids h hash' now' category' score' low' slot
            (rw (a.stamps_are, length-set g.stamps slot _) in_range)
            (rw (a.stamps_are, get_or-set g.stamps slot slot _ blank_stamp)
              (ground (arith, in_range)))
        where
          in_range : slot < length g.stamps
          in_range = destination-lt g.stamps hash (omega (arith, v.stamp_slots))

-- A call of `award`.
pub record Request : Type 0 where
  pub hash : ℕ
  pub now : ℕ
  pub category : ℕ
  pub score : ℕ
  pub low : Bool

-- How many of a sequence of calls are awarded.
unfoldable pub meals : MealGuard → List Request → ℕ
meals g [] = 0
meals g (r ∷ rs) =
    let (h, fed) = award g r.hash r.now r.category r.score r.low in to_bit fed + meals h rs

-- One call moves the guard's time on by five seconds for a meal, and leaves it alone otherwise.
award_global :
    (g : MealGuard) (r : Request) (t : ℕ)
    → t + 5000 < u64_mod
    → r.now ≤ t
    → let (h, fed) = award g r.hash r.now r.category r.score r.low in
      (5000 * to_bit fed + g.global_until ≤ h.global_until)
      × (h.global_until ≤ max g.global_until (t + 5000))
award_global g r t word early = by_case (award g r.hash r.now r.category r.score r.low).1 refl
  where
    h : MealGuard
    h = (award g r.hash r.now r.category r.score r.low).0

    same : (award g r.hash r.now r.category r.score r.low).1 ≡ false → h ≡ g
    same e = unfold award in ground arith

    by_case :
        (b : Bool)
        → (award g r.hash r.now r.category r.score r.low).1 ≡ b
        → (5000 * to_bit (award g r.hash r.now r.category r.score r.low).1 + g.global_until
            ≤ h.global_until)
          × (h.global_until ≤ max g.global_until (t + 5000))
    by_case true e =
        let a = award-Awarded g r.hash r.now r.category r.score r.low e in
        rw e (omega (arith, a.global_is, a.was_allowed))
    by_case false e = rw e (omega (arith, ap (λ (x : MealGuard). x.global_until) (same e)))

meals_bound :
    (g : MealGuard) (rs : List Request) (t : ℕ)
    → t + 5000 < u64_mod
    → All (λ r. r.now ≤ t) rs
    → 5000 * meals g rs + g.global_until ≤ max g.global_until (t + 5000)
unfolding meals
meals_bound g [] t word early = omega arith
meals_bound g (r ∷ rs) t word early = omega (
  arith,
  award_global g r t word early.0,
  meals_bound (award g r.hash r.now r.category r.score r.low).0 rs t word early.1,
)

-- Any calls up to time t, from a new guard on, are awarded at most one meal for each five seconds
-- begun, whatever their identities and order.
pub meals-le :
    (rs : List Request) (t : ℕ)
    → t + 5000 < u64_mod
    → All (λ r. r.now ≤ t) rs
    → meals new_guard rs ≤ t / 5000 + 1
meals-le rs t word early = omega (arith, meals_bound new_guard rs t word early)
