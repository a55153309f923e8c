-- ===== src/Utilities/Charge.antt =====
-- The battery percentage over the whole curve.
use surveillance_hound.Common.{
  leb→le, and-true, ℕ, zero, suc, ◌+◌, ◌-◌, ◌≤◌, ◌≡◌, refl, subst, inl, inr, Bool, true, ◌&&◌,
  arith, ltb, leb, Bool-cases, checked_up_to, checked_up_to-at,
}
use surveillance_hound.Utilities.{battery_percent}

rises_at : ℕ → Bool
rises_at mv = leb (battery_percent mv) (battery_percent (mv + 1)) && leb (battery_percent mv) 100

rises_table : checked_up_to rises_at 4200 ≡ true
unfolding checked_up_to rises_at battery_percent
rises_table = refl

full_above : (mv : ℕ) → 4200 ≤ mv → battery_percent mv ≡ 100
unfolding battery_percent
full_above mv h = ground arith

record StepsUp (mv : ℕ) : Type 0 where
  up : battery_percent mv ≤ battery_percent (mv + 1)
  bound : battery_percent mv ≤ 100

StepsUp-at : (mv : ℕ) → StepsUp mv
StepsUp-at mv = elim (Bool-cases (ltb mv 4200)) [
  | inl e ↦
      let (up, bound) =
        and-true (leb (battery_percent mv) (battery_percent (mv + 1)))
          (leb (battery_percent mv) 100)
          (unfold rises_at in checked_up_to-at rises_at 4200 mv (ground (arith, e)) rises_table) in
      record { up = leb→le _ _ up; bound = leb→le _ _ bound }
  | inr e ↦
      let here = full_above mv (ground (arith, e)) in
      let there = full_above (mv + 1) (ground (arith, e)) in
      record { up = omega (arith, here, there); bound = omega (arith, here) }
]

climb : (mv k : ℕ) → battery_percent mv ≤ battery_percent (mv + k)
climb mv zero = let same : mv + 0 ≡ mv = omega arith in rw (same) (omega arith)
climb mv (suc k) =
    let same : mv + suc k ≡ mv + k + 1 = omega arith in
    rw (same) (omega (arith, climb mv k, (StepsUp-at (mv + k)).up))

again : (low high : ℕ) → low ≤ high → low + (high - low) ≡ high
again low high le = omega arith

-- A higher voltage never reads as a lower percentage, and no reading exceeds 100.
pub battery_percent-le :
    (low high : ℕ)
    → low ≤ high
    → (battery_percent low ≤ battery_percent high) × (battery_percent high ≤ 100)
battery_percent-le low high le = (
  subst (λ x. battery_percent low ≤ battery_percent x) (again low high le) (climb low (high - low)),
  (StepsUp-at high).bound,
)
