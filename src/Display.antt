-- ===== src/Display.antt =====
-- components/sniffer_core/include/sniffer/display.hpp: the panel's coordinates in the two orientations.
use surveillance_hound.Common.{ℕ, ◌≡◌, refl, Bool, true, false, if◌then◌else◌}
use surveillance_hound.Common.Int.{ℤ, pos, ◌-ℤ◌, int_laws}

pub record Point : Type 0 where
  pub x : ℤ
  pub y : ℤ

abbrev pub width : Bool → ℕ
width portrait = if portrait then 320 else 480

abbrev pub height : Bool → ℕ
height portrait = if portrait then 480 else 320

-- Calibration stays in the panel's portrait coordinates.
unfoldable pub from_portrait : Point → Bool → Point
from_portrait p portrait = if portrait then p else record { x = p.y; y = pos 319 -ℤ p.x }

unfoldable pub to_portrait : Point → Bool → Point
to_portrait p portrait = if portrait then p else record { x = pos 319 -ℤ p.y; y = p.x }

back : (x : ℤ) → pos 319 -ℤ (pos 319 -ℤ x) ≡ x
back x = grind int_laws

-- Either way between the two coordinate systems and back gives the same point.
pub to_portrait-from_portrait :
    (p : Point) (portrait : Bool)
    → (to_portrait (from_portrait p portrait) portrait ≡ p)
      × (from_portrait (to_portrait p portrait) portrait ≡ p)
unfolding to_portrait from_portrait
to_portrait-from_portrait p true = (refl, refl)
to_portrait-from_portrait p false =
    (λ i. record { x = back p.x i; y = p.y }, λ i. record { x = p.x; y = back p.y i })
