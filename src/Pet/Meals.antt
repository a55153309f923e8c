-- ===== src/Pet/Meals.antt =====
-- What a meal adds, and that the counts of meals agree.
use surveillance_hound.Common.{
  length-set, ℕ, zero, suc, ◌+◌, ◌%◌, ◌≤◌, ◌<◌, ◌≡◌, refl, ◌∙◌, inl, inr, Bool, true, List, [], ◌∷◌,
  arith, if◌then◌else◌, Bool-cases, get_or, set, length, test_bit, set_bit, test_bit-set_bit,
  u32_mod,
}
use surveillance_hound.Core.{Detection}
use surveillance_hound.Core.Category.{category_count}
use surveillance_hound.Pet.{graded, Pet, edible, feed}

abbrev pub sum : List ℕ → ℕ
sum [] = 0
sum (x ∷ xs) = x + sum xs

sum-set : (xs : List ℕ) (i v : ℕ) → i < length xs → sum (set xs i v) + get_or xs i 0 ≡ sum xs + v
sum-set [] i v lt = absurd (omega arith)
sum-set (x ∷ xs) zero v lt = omega arith
sum-set (x ∷ xs) (suc i) v lt = omega (arith, sum-set xs i v (omega arith))

get_or-le-sum : (xs : List ℕ) (i : ℕ) → get_or xs i 0 ≤ sum xs
get_or-le-sum [] i = omega arith
get_or-le-sum (x ∷ xs) zero = omega arith
get_or-le-sum (x ∷ xs) (suc i) = omega (arith, get_or-le-sum xs i)

-- The meals of the categories add up to the meals.
pub record IsCounted (p : Pet) : Type 0 where
  pub slots : length p.lifetime_meals ≡ category_count
  pub total : sum p.lifetime_meals ≡ p.meals

-- What a meal changes.
record Eaten (p q : Pet) (d : Detection) : Type 0 where
  meals_is : q.meals ≡ (p.meals + 1) % u32_mod
  lifetime_is :
      q.lifetime_meals
      ≡ set p.lifetime_meals d.category ((get_or p.lifetime_meals d.category 0 + 1) % u32_mod)
  xp_is :
      q.xp
      ≡ (p.xp + graded d.score 10 5 1 + (if test_bit p.category_mask d.category then 0 else 3))
        % u32_mod
  mask_is : q.category_mask ≡ set_bit p.category_mask d.category

feed-Eaten : (p : Pet) (d : Detection) (low : Bool) → edible d low ≡ true → Eaten p (feed p d low) d
unfolding feed
feed-Eaten p d low eaten =
    rw (eaten, feed) (record { meals_is = refl; lifetime_is = refl; xp_is = refl; mask_is = refl })

edible-category : (d : Detection) (low : Bool) → edible d low ≡ true → d.category < category_count
unfolding edible
edible-category d low eaten = ground arith

-- Feeding keeps the count of meals by category adding up to the count of meals, as long as that has
-- not reached the top of its 32 bits.
pub feed-IsCounted :
    (p : Pet) (d : Detection) (low : Bool)
    → p.meals + 1 < u32_mod
    → IsCounted p
    → IsCounted (feed p d low)
feed-IsCounted p d low room v = elim (Bool-cases (edible d low)) [
  | inr refused ↦ unfold feed in rw (refused, feed) v
  | inl eaten ↦ counted (feed-Eaten p d low eaten) (edible-category d low eaten)
]
  where
    counted : {q : Pet} → Eaten p q d → d.category < category_count → IsCounted q
    counted e lt = record {
      slots = rw e.lifetime_is (length-set p.lifetime_meals d.category _ ∙ v.slots);
      total =
          rw (e.lifetime_is, e.meals_is)
            (omega (
              arith,
              v.total,
              v.slots,
              get_or-le-sum p.lifetime_meals d.category,
              sum-set p.lifetime_meals d.category
                  ((get_or p.lifetime_meals d.category 0 + 1) % u32_mod) (omega (arith, v.slots)),
            ));
    }

-- Two meals of one category: the second earns no bonus for a new category, since the first marks it.
pub feed_twice_bonus :
    (p : Pet) (d e : Detection) (low low' : Bool)
    → edible d low ≡ true
    → edible e low' ≡ true
    → d.category ≡ e.category
    → (feed (feed p d low) e low').xp ≡ ((feed p d low).xp + graded e.score 10 5 1) % u32_mod
feed_twice_bonus p d e low low' first second same =
    (feed-Eaten (feed p d low) e low' second).xp_is
    ∙ rw
        ((feed-Eaten p d low first).mask_is, test_bit-set_bit p.category_mask d.category e.category)
        (ground arith)
