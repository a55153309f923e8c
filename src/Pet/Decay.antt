-- ===== src/Pet/Decay.antt =====
-- How the needs of the hound fall with time and rise with meals.
use surveillance_hound.Common.{ℕ, ◌+◌, ◌-◌, ◌*◌, ◌/◌, ◌≤◌, ◌≡◌, sym, ap, ◌∙◌, Bool, arith}
use surveillance_hound.Core.{Detection}
use surveillance_hound.Pet.{Pet, Needs, needs_interval_ms, decay_needs, tick, feed, stroke}

-- The intervals that have passed at a time that is not before the clock.
abbrev steps : ℕ → ℕ → ℕ
steps now clock = (now - clock) / needs_interval_ms

decay_needs-forward :
    (n : Needs) (now : ℕ)
    → n.clock ≤ now
    → decay_needs now n ≡ record {
      clock = n.clock + steps now n.clock * needs_interval_ms;
      fullness = n.fullness - steps now n.clock * 3;
      mood = n.mood - steps now n.clock * 2;
    }
unfolding decay_needs
decay_needs-forward n now behind = ground arith

steps_add :
    (c t u : ℕ)
    → c ≤ t
    → t ≤ u
    → (c + steps t c * needs_interval_ms ≤ u)
      × (steps u c ≡ steps t c + steps u (c + steps t c * needs_interval_ms))
steps_add c t u behind later = omega arith

-- Ticking at two times in order leaves what one tick at the later time leaves, whatever the hound's
-- needs, if the clock is not ahead of the first.
pub decay_needs-decay_needs :
    (n : Needs) (t u : ℕ) → n.clock ≤ t → t ≤ u → decay_needs u (decay_needs t n) ≡ decay_needs u n
decay_needs-decay_needs n t u behind later =
    ap (decay_needs u) (decay_needs-forward n t behind)
    ∙ decay_needs-forward _ u (steps_add n.clock t u behind later).0
    ∙ merged
    ∙ sym (decay_needs-forward n u (omega arith))
  where
    first : ℕ
    first = steps t n.clock

    second : ℕ
    second = steps u (n.clock + steps t n.clock * needs_interval_ms)

    clock_is :
        n.clock + first * needs_interval_ms + second * needs_interval_ms
        ≡ n.clock + steps u n.clock * needs_interval_ms
    clock_is = omega (arith, steps_add n.clock t u behind later)

    fullness_is : n.fullness - first * 3 - second * 3 ≡ n.fullness - steps u n.clock * 3
    fullness_is = omega (arith, steps_add n.clock t u behind later)

    mood_is : n.mood - first * 2 - second * 2 ≡ n.mood - steps u n.clock * 2
    mood_is = omega (arith, steps_add n.clock t u behind later)

    merged :
        ◌≡◌ {A = Needs}
          (record {
            clock = n.clock + first * needs_interval_ms + second * needs_interval_ms;
            fullness = n.fullness - first * 3 - second * 3;
            mood = n.mood - first * 2 - second * 2;
          })
          (record {
            clock = n.clock + steps u n.clock * needs_interval_ms;
            fullness = n.fullness - steps u n.clock * 3;
            mood = n.mood - steps u n.clock * 2;
          })
    merged = λ i. record { clock = clock_is i; fullness = fullness_is i; mood = mood_is i }

-- Both needs stay percentages.
abbrev pub IsPercent : Pet → Type 0
IsPercent p = (p.fullness ≤ 100) × (p.mood ≤ 100)

-- Time, meals and strokes keep both needs from 0 to 100.
pub needs-IsPercent :
    (p : Pet) (now : ℕ) (d : Detection) (low : Bool)
    → IsPercent p
    → IsPercent (tick p now) × IsPercent (feed p d low) × IsPercent (stroke p)
unfolding tick feed stroke
needs-IsPercent p now d low v = (ground arith, ground arith, ground arith)
