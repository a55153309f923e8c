-- ===== src/FollowScent/Signal.antt =====
-- What `state` and `trend` report of the followed identity.
use surveillance_hound.Common.{
  ℕ, zero, suc, ◌+◌, ◌-◌, ◌^◌, ◌≤◌, ◌<◌, ◌≡◌, refl, ◌↔◌, ◌⊎◌, inl, inr, true, false, ◌&&◌, ◌||◌,
  arith, ltb, leb, ◌==◌, Bool-cases, get_or, sub64,
}
use surveillance_hound.Common.Int.{ℤ, pos, ◌-ℤ◌}
use surveillance_hound.FollowScent.{
  FollowScent, ScentSignal, Sample, blank_sample, state, trend, trend_from,
}
use surveillance_hound.FollowScent.Invariant.{IsOrdered, samples_earlier}

-- The reading of each signal while an identity is followed and the radio listens.
pub record Reads (f : FollowScent) (now : ℕ) : Type 0 where
  pub fresh_iff :
      (state f now true ≡ ScentSignal.fresh)
      ↔ ((f.received ≡ true) × (f.last_ms ≤ now) × (now ≤ f.last_ms + 5000))
  pub stale_iff :
      (state f now true ≡ ScentSignal.stale)
      ↔ ((f.received ≡ true) × (f.last_ms + 5000 < now) × (now < f.last_ms + 15000))
  pub waiting_iff :
      (state f now true ≡ ScentSignal.waiting)
      ↔ ((f.received ≡ false) × ((now < f.started) ⊎ (now < f.started + 15000)))

-- While an identity is followed and the radio listens, the signal is fresh up to five seconds after
-- the last observation, then stale until fifteen, and waiting before the first observation until
-- fifteen seconds after the start, or while the clock is before the start.
pub state-Reads : (f : FollowScent) (now : ℕ) → f.active ≡ true → Reads f now
unfolding state
state-Reads f now a = record {
  fresh_iff = (λ e. ground arith, λ h. ground arith);
  stale_iff = (λ e. ground arith, λ h. ground arith);
  waiting_iff = (λ e. ground arith, λ h. ground arith);
}

-- The sample at `i` that the last reading may be compared with: two to eight seconds old, and no two
-- neighbouring samples from it on are more than five seconds apart.
pub record IsBasis (f : FollowScent) (i : ℕ) : Type 0 where
  pub in_use : suc i < f.count
  pub oldest : f.last_ms ≤ (get_or f.history i blank_sample).ms + 8000
  pub newest : (get_or f.history i blank_sample).ms + 2000 ≤ f.last_ms
  pub no_gap :
      (j : ℕ)
      → i ≤ j
      → suc j < f.count
      → (get_or f.history (suc j) blank_sample).ms ≤ (get_or f.history j blank_sample).ms + 5000

abbrev pub HasTrend : FollowScent → ℤ → Type 0
HasTrend f z =
    (z ≡ pos 0) ⊎ ((i : ℕ) × IsBasis f i × (z ≡ f.rssi -ℤ (get_or f.history i blank_sample).rssi))

abbrev Steady : FollowScent → ℕ → Type 0
Steady f n =
    (j : ℕ)
    → n ≤ j
    → suc j < f.count
    → (get_or f.history (suc j) blank_sample).ms ≤ (get_or f.history j blank_sample).ms + 5000

module _ (f : FollowScent) (v : IsOrdered f) (word : f.last_ms < 2 ^ 64) where
  abbrev sample : ℕ → Sample
  sample i = get_or f.history i blank_sample

  Steady-pred :
      (i : ℕ)
      → suc i < f.count
      → ltb 5000 (sub64 (sample (suc i)).ms (sample i).ms) ≡ false
      → Steady f (suc i)
      → Steady f i
  Steady-pred i lt near steady j le lt' = elim (Bool-cases (j == i)) [
    | inl same ↦ ground (arith, samples_earlier f (suc i) v lt, samples_earlier f i v (omega arith))
    | inr other ↦ steady j (ground arith) lt'
  ]

  trend_from-HasTrend : (n : ℕ) → n < f.count → Steady f n → HasTrend f (trend_from f n)
  unfolding trend_from
  trend_from-HasTrend zero lt steady = inl refl
  trend_from-HasTrend (suc i) lt steady =
      elim (Bool-cases (ltb 5000 (sub64 (sample (suc i)).ms (sample i).ms))) [
        | inl far ↦ rw (far, trend_from) (inl refl)
        | inr near ↦
            elim (Bool-cases (
              leb 2000 (sub64 f.last_ms (sample i).ms)
              && leb (sub64 f.last_ms (sample i).ms) 8000)) [
                | inl fits ↦ rw (near, trend_from, fits) (inr (i, basis near fits, refl))
                | inr misfit ↦
                    rw (near, trend_from, misfit)
                      (trend_from-HasTrend i (omega arith) (Steady-pred i lt near steady))
              ]
      ]
    where
      basis :
          ltb 5000 (sub64 (sample (suc i)).ms (sample i).ms) ≡ false
          → (leb 2000 (sub64 f.last_ms (sample i).ms) && leb (sub64 f.last_ms (sample i).ms) 8000)
            ≡ true
          → IsBasis f i
      basis near fits = record {
        in_use = lt;
        oldest = ground (arith, samples_earlier f i v (omega arith));
        newest = ground (arith, samples_earlier f i v (omega arith));
        no_gap = Steady-pred i lt near steady;
      }

  -- The trend of a valid history is zero, or the last reading less that of a sample two to eight
  -- seconds before it, with no gap of more than five seconds between the samples from there on.
  pub trend-HasTrend : (now : ℕ) → HasTrend f (trend f now)
  unfolding trend
  trend-HasTrend now =
      elim (Bool-cases (ltb f.count 2 || ltb now f.last_ms || ltb 5000 (now - f.last_ms))) [
        | inl off ↦ rw (off, trend) (inl refl)
        | inr on ↦
            rw (on, trend)
              (trend_from-HasTrend (f.count - 1) (ground arith) (λ j le lt. absurd (ground arith)))
      ]
