-- ===== src/Utilities.antt =====
-- The battery readings and `parse_utc` of components/sniffer_core/utilities.cpp.
pub mod Utc
pub mod Charge
mod Tests
use surveillance_hound.Common.{
  ℕ, zero, suc, ◌+◌, ◌-◌, ◌*◌, ◌/◌, ◌%◌, ◌^◌, ◌≤◌, ◌<◌, min, max, pred, ◌≡◌, refl, sym, ap, ap₂,
  subst, ◌∙◌, ◌≢◌, ◌↔◌, ◌⊎◌, inl, inr, Bool, true, false, not, ◌&&◌, ◌||◌, Option, none, some, List,
  [], ◌∷◌, ◌++◌, map, arith, ltb, leb, ◌==◌, if◌then◌else◌, bool_eq, to_bit, Bool-cases,
  Option-cases, get_or, length, all, byte_at,
}
use surveillance_hound.Common.Int.{ℤ, pos, negsuc}

pub record BatteryCalibration : Type 0 where
  pub adc : List ℕ
  pub millivolts : List ℕ
  pub enabled : Bool

unfoldable pub valid_battery : BatteryCalibration → Bool
valid_battery c =
    leb 50 (byte_at c.adc 0)
    && leb (byte_at c.adc 2) 4095
    && ltb (byte_at c.adc 0 + 20) (byte_at c.adc 1)
    && ltb (byte_at c.adc 1 + 20) (byte_at c.adc 2)
    && leb 2500 (byte_at c.millivolts 0)
    && leb (byte_at c.millivolts 2) 4500
    && ltb (byte_at c.millivolts 0 + 100) (byte_at c.millivolts 1)
    && ltb (byte_at c.millivolts 1 + 100) (byte_at c.millivolts 2)

-- base + (x - from) * rise / run, where the division rounds towards zero, and what is below zero
-- counts as zero.
unfoldable pub interpolate : ℕ → ℕ → ℕ → ℕ → ℕ → ℕ
interpolate base x from rise run =
    if leb from x then base + (x - from) * rise / run else base - (from - x) * rise / run

-- `none` is -1; the reading is not negative.
unfoldable pub battery_mv : BatteryCalibration → ℕ → Option ℕ
unfolding valid_battery interpolate
battery_mv c adc =
    if not (valid_battery c) || ltb 4095 adc
    then none
    else let i = if ltb adc (byte_at c.adc 1) then 0 else 1 in
      some (
        min 5000 (
          interpolate (byte_at c.millivolts i) adc (byte_at c.adc i)
            (byte_at c.millivolts (i + 1) - byte_at c.millivolts i)
            (byte_at c.adc (i + 1) - byte_at c.adc i)))

abbrev pub voltage : List ℕ
voltage = 3300 ∷ 3500 ∷ 3650 ∷ 3700 ∷ 3750 ∷ 3800 ∷ 3900 ∷ 4000 ∷ 4100 ∷ 4200 ∷ []

abbrev pub percent : List ℕ
percent = 0 ∷ 5 ∷ 15 ∷ 25 ∷ 40 ∷ 55 ∷ 70 ∷ 80 ∷ 90 ∷ 100 ∷ []

-- The loop over the rest of the curve, behind the point (v, p).
unfoldable pub percent_from : ℕ → ℕ → ℕ → List ℕ → List ℕ → ℕ
unfolding interpolate
percent_from mv v p (v' ∷ vs) (p' ∷ ps) =
    let rest = percent_from mv v' p' vs ps in
    if ltb mv v' then interpolate p mv v (p' - p) (v' - v) else rest
percent_from mv v p _ _ = 100

-- A voltage that is not negative; the code gives -1 for a negative one.
unfoldable pub battery_percent : ℕ → ℕ
unfolding percent_from
battery_percent mv =
    percent_from mv 3300 0 (3500 ∷ 3650 ∷ 3700 ∷ 3750 ∷ 3800 ∷ 3900 ∷ 4000 ∷ 4100 ∷ 4200 ∷ [])
      (5 ∷ 15 ∷ 25 ∷ 40 ∷ 55 ∷ 70 ∷ 80 ∷ 90 ∷ 100 ∷ [])

-- The lambda `n` of `parse_utc`: the number of `size` digits from i on.
unfoldable pub number : List ℕ → ℕ → ℕ → ℕ → ℕ
number s v i zero = v
number s v i (suc size) = number s (v * 10 + byte_at s i - b'0') (i + 1) size

abbrev pub days : List ℕ
days = 31 ∷ 28 ∷ 31 ∷ 30 ∷ 31 ∷ 30 ∷ 31 ∷ 31 ∷ 30 ∷ 31 ∷ 30 ∷ 31 ∷ []

-- days[m - 1] + (m == 2 && leap)
unfoldable pub month_days : Bool → ℕ → ℕ
month_days leap m = get_or days (m - 1) 0 + to_bit ((m == 2) && leap)

-- The days of the first n years from 1970.
unfoldable pub year_start : ℕ → ℕ
year_start zero = 0
year_start (suc n) = year_start n + 365 + to_bit ((1970 + n) % 4 == 0)

-- The days of the first n months.
unfoldable pub month_start : Bool → ℕ → ℕ
unfolding month_days
month_start leap zero = 0
month_start leap (suc n) = month_start leap n + month_days leap (suc n)

unfoldable pub bad_time : ℕ → ℕ → ℕ → ℕ → ℕ → Bool
unfolding month_days
bad_time year month day hour minute =
    ltb year 2020
    || ltb 2099 year
    || ltb month 1
    || ltb 12 month
    || ltb 23 hour
    || ltb 59 minute
    || ltb day 1
    || ltb (month_days (year % 4 == 0) month) day

unfoldable pub utc_seconds : ℕ → ℕ → ℕ → ℕ → ℕ → ℕ
unfolding year_start month_start
utc_seconds year month day hour minute =
    (year_start (year - 1970) + month_start (year % 4 == 0) (month - 1) + day - 1) * 86400
    + hour * 3600
    + minute * 60

unfoldable pub checked_time : ℕ → ℕ → ℕ → ℕ → ℕ → Option ℕ
unfolding bad_time utc_seconds
checked_time year month day hour minute =
    if bad_time year month day hour minute
    then none
    else some (utc_seconds year month day hour minute)

unfoldable pub parse_utc : List ℕ → Option ℕ
unfolding number checked_time
parse_utc s =
    if not (length s == 12) || not (all (λ c. not (ltb c b'0' || ltb b'9' c)) s)
    then none
    else checked_time (number s 0 0 4) (number s 0 4 2) (number s 0 6 2) (number s 0 8 2)
        (number s 0 10 2)
