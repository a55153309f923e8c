-- ===== src/Pet.antt =====
-- `struct Pet` of components/sniffer_core/include/sniffer/core.hpp and its functions in engine.cpp:
-- the hound's needs, meals and experience. uint32_t counters wrap; a uint64_t clock does not reach
-- its end (the sums are those of the source).
pub mod Decay
pub mod Meals
mod Tests
use surveillance_hound.Common.{
  ℕ, zero, suc, ◌+◌, ◌-◌, ◌*◌, ◌/◌, ◌%◌, ◌^◌, ◌≤◌, ◌<◌, min, max, pred, ◌≡◌, refl, sym, ap, ap₂,
  subst, ◌∙◌, ◌≢◌, ◌↔◌, ◌⊎◌, inl, inr, Bool, true, false, not, ◌&&◌, ◌||◌, Option, none, some, List,
  [], ◌∷◌, ◌++◌, map, arith, ltb, leb, ◌==◌, if◌then◌else◌, bool_eq, to_bit, Bool-cases,
  Option-cases, get_or, set, replicate, test_bit, set_bit, u32_mod,
}
use surveillance_hound.Core.{Detection}
use surveillance_hound.Core.Category.{category_count}

abbrev pub needs_interval_ms : ℕ
needs_interval_ms = 300000

abbrev pub low_needs : ℕ
low_needs = 25

pub record Pet : Type 0 where
  pub xp : ℕ
  pub meals : ℕ
  pub unique : ℕ
  pub category_mask : ℕ
  pub lifetime_meals : List ℕ
  pub fullness : ℕ
  pub mood : ℕ
  pub decay_ms : ℕ

-- Pet{}
abbrev pub new_pet : Pet
new_pet = record {
  xp = 0;
  meals = 0;
  unique = 0;
  category_mask = 0;
  lifetime_meals = replicate category_count 0;
  fullness = 70;
  mood = 70;
  decay_ms = 0;
}

-- What `decay_needs` and `nourish` change through their references.
pub record Needs : Type 0 where
  pub clock : ℕ
  pub fullness : ℕ
  pub mood : ℕ

unfoldable pub level : Pet → ℕ
level p = 1 + p.xp / 100

-- x > n ? x - n : 0
abbrev lose : ℕ → ℕ → ℕ
lose x n = if ltb n x then x - n else 0

unfoldable pub decay_needs : ℕ → Needs → Needs
decay_needs now n =
    let clock = if ltb now n.clock then now else n.clock in
    let steps = (now - clock) / needs_interval_ms in
    if steps == 0 then record n { clock = clock } else record {
      clock = clock + steps * needs_interval_ms;
      fullness = lose n.fullness (steps * 3);
      mood = lose n.mood (steps * 2);
    }

unfoldable pub tick : Pet → ℕ → Pet
unfolding decay_needs
tick p now =
    let n = decay_needs now (record { clock = p.decay_ms; fullness = p.fullness; mood = p.mood }) in
    record p { decay_ms = n.clock; fullness = n.fullness; mood = n.mood }

-- std::clamp
abbrev clamp : ℕ → ℕ → ℕ → ℕ
clamp x lo hi = if ltb x lo then lo else if ltb hi x then hi else x

abbrev pub graded : ℕ → ℕ → ℕ → ℕ → ℕ
graded score high medium low = if leb 80 score then high else if leb 50 score then medium else low

unfoldable pub nourish : ℕ → Needs → Needs
nourish score n = record n {
  fullness = clamp (n.fullness + graded score 20 14 6) 35 100;
  mood = clamp (n.mood + graded score 15 12 6) 40 100;
}

-- The first test of `feed`, negated: the detection is a meal.
unfoldable pub edible : Detection → Bool → Bool
edible d low = not (
    d.demo
    || not d.meal
    || ltb d.score (if low then 20 else 50)
    || leb category_count d.category
    || ltb 100 d.score)

unfoldable pub feed : Pet → Detection → Bool → Pet
unfolding edible nourish
feed p d low =
    if not (edible d low)
    then p
    else let bonus : ℕ = if test_bit p.category_mask d.category then 0 else 3 in
      let n =
        nourish d.score (record { clock = p.decay_ms; fullness = p.fullness; mood = p.mood }) in
      record p {
        category_mask = set_bit p.category_mask d.category;
        xp = (p.xp + graded d.score 10 5 1 + bonus) % u32_mod;
        fullness = n.fullness;
        mood = n.mood;
        decay_ms = d.last_ms;
        meals = (p.meals + 1) % u32_mod;
        lifetime_meals =
            set p.lifetime_meals d.category ((get_or p.lifetime_meals d.category 0 + 1) % u32_mod);
      }

unfoldable pub stroke : Pet → Pet
stroke p = record p { mood = min 100 (p.mood + 2) }
