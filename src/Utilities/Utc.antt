-- ===== src/Utilities/Utc.antt =====
-- The range of the times that `parse_utc` accepts.
use surveillance_hound.Common.{
  some-inj, unless-some, leb→le, or-false, ℕ, zero, suc, ◌+◌, ◌-◌, ◌*◌, ◌/◌, ◌%◌, ◌≤◌, ◌<◌, ◌≡◌,
  refl, subst, inl, inr, Bool, true, false, not, ◌||◌, some, List, arith, ltb, leb, ◌==◌, to_bit,
  Bool-cases, checked_up_to, checked_up_to-at, length, all,
}
use surveillance_hound.Utilities.{
  month_days, year_start, month_start, bad_time, utc_seconds, checked_time, number, parse_utc,
}

-- Every fourth year from 1972 on is a leap year.
pub year_start-formula : (n : ℕ) → year_start n ≡ 365 * n + (n + 1) / 4
unfolding year_start
year_start-formula zero = refl
year_start-formula (suc n) = ground (arith, year_start-formula n)

ends_within : Bool → ℕ → Bool
ends_within leap m = leb (month_start leap m + month_days leap (suc m)) (365 + to_bit leap)

ends_table : (leap : Bool) → checked_up_to (ends_within leap) 12 ≡ true
unfolding checked_up_to ends_within month_start month_days
ends_table true = refl
ends_table false = refl

-- No month ends after its year.
pub month_end-le :
    (leap : Bool) (m : ℕ)
    → m < 12
    → month_start leap m + month_days leap (suc m) ≤ 365 + to_bit leap
month_end-le leap m lt =
    leb→le _ _ (unfold ends_within in checked_up_to-at (ends_within leap) 12 m lt (ends_table leap))

le_of_ltb : (a b : ℕ) → ltb a b ≡ false → b ≤ a
le_of_ltb a b h = ground (arith, h)

-- What a date and time in range are.
record InRange (year month day hour minute : ℕ) : Type 0 where
  year_low : 2020 ≤ year
  year_high : year ≤ 2099
  month_low : 1 ≤ month
  month_high : month ≤ 12
  hour_high : hour ≤ 23
  minute_high : minute ≤ 59
  day_low : 1 ≤ day
  day_high : day ≤ month_days (year % 4 == 0) month

bad_time-InRange :
    (year month day hour minute : ℕ)
    → bad_time year month day hour minute ≡ false
    → InRange year month day hour minute
unfolding bad_time
bad_time-InRange year month day hour minute good =
    let (abcdefg, h) = or-false _ _ good in
    let (abcdef, g) = or-false _ _ abcdefg in
    let (abcde, f) = or-false _ _ abcdef in
    let (abcd, e) = or-false _ _ abcde in
    let (abc, d) = or-false _ _ abcd in
    let (ab, c) = or-false _ _ abc in
    let (a, b) = or-false _ _ ab in
    record {
      year_low = le_of_ltb _ _ a;
      year_high = le_of_ltb _ _ b;
      month_low = le_of_ltb _ _ c;
      month_high = le_of_ltb _ _ d;
      hour_high = le_of_ltb _ _ e;
      minute_high = le_of_ltb _ _ f;
      day_low = le_of_ltb _ _ g;
      day_high = le_of_ltb _ _ h;
    }

-- A whole minute of the years 2020 to 2099.
pub record IsMinute (seconds : ℕ) : Type 0 where
  pub low : 1577836800 ≤ seconds
  pub high : seconds ≤ 4102444799
  pub whole : seconds % 60 ≡ 0

-- The day of a date lies in its year.
day_bound :
    (year month day : ℕ)
    → 1 ≤ month
    → month ≤ 12
    → 1 ≤ day
    → day ≤ month_days (year % 4 == 0) month
    → month_start (year % 4 == 0) (month - 1) + day ≤ 365 + to_bit (year % 4 == 0)
day_bound year zero day low high first last = absurd (omega arith)
day_bound year (suc m) day low high first last =
    let same : suc m - 1 ≡ m = omega arith in
    rw (same) (omega (arith, month_end-le (year % 4 == 0) m (omega arith), last))

-- The last day is 31 December 2099.
last_day :
    (year start rest : ℕ)
    → 2020 ≤ year
    → year ≤ 2099
    → start ≡ 365 * (year - 1970) + (year - 1970 + 1) / 4
    → rest ≤ 365 + to_bit (year % 4 == 0)
    → start + rest ≤ 47482
last_day year start rest low high at within = elim (Bool-cases (year % 4 == 0)) [
  | inl e ↦ ground (arith, e, at, within)
  | inr e ↦ ground (arith, e, at, within)
]

in_seconds :
    (d hour minute : ℕ)
    → d ≤ 47482
    → hour ≤ 23
    → minute ≤ 59
    → (d - 1) * 86400 + hour * 3600 + minute * 60 ≤ 4102444799
in_seconds d hour minute hd hh hm = omega arith

whole_minutes : (d hour minute : ℕ) → (d * 86400 + hour * 3600 + minute * 60) % 60 ≡ 0
whole_minutes d hour minute = omega arith

utc_seconds-IsMinute :
    (year month day hour minute : ℕ)
    → InRange year month day hour minute
    → IsMinute (utc_seconds year month day hour minute)
unfolding utc_seconds
utc_seconds-IsMinute year month day hour minute h =
    let in_year = day_bound year month day h.month_low h.month_high h.day_low h.day_high in
    let start = year_start-formula (year - 1970) in
    record {
      low = omega (arith, start);
      high =
          in_seconds (year_start (year - 1970) + month_start (year % 4 == 0) (month - 1) + day) hour
            minute
            (omega (
              arith,
              last_day year (year_start (year - 1970))
                  (month_start (year % 4 == 0) (month - 1) + day) h.year_low h.year_high start
                  in_year,
            ))
            h.hour_high h.minute_high;
      whole =
          whole_minutes
            (year_start (year - 1970) + month_start (year % 4 == 0) (month - 1) + day - 1) hour
            minute;
    }

checked_time-IsMinute :
    (year month day hour minute t : ℕ)
    → checked_time year month day hour minute ≡ some t
    → IsMinute t
unfolding checked_time
checked_time-IsMinute year month day hour minute t e =
    let (good, same) =
      unless-some (bad_time year month day hour minute)
        (some (utc_seconds year month day hour minute)) {q = t} e in
    subst IsMinute (some-inj same) (
      utc_seconds-IsMinute year month day hour minute
        (bad_time-InRange year month day hour minute good))

-- Every accepted text is a whole minute of the years 2020 to 2099, the range that `format_utc` and the
-- scent book accept.
pub parse_utc-IsMinute : (s : List ℕ) (t : ℕ) → parse_utc s ≡ some t → IsMinute t
unfolding parse_utc
parse_utc-IsMinute s t e =
    checked_time-IsMinute (number s 0 0 4) (number s 0 4 2) (number s 0 6 2) (number s 0 8 2)
      (number s 0 10 2) t
      (unless-some (not (length s == 12) || not (all (λ c. not (ltb c b'0' || ltb b'9' c)) s))
        (checked_time (number s 0 0 4) (number s 0 4 2) (number s 0 6 2) (number s 0 8 2)
          (number s 0 10 2))
        {q = t} e).1
