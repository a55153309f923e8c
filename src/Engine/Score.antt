-- ===== src/Engine/Score.antt =====
-- Bounds of the score of an entry.
use surveillance_hound.Common.{
  ℕ, suc, ◌+◌, ◌/◌, ◌≤◌, max, ◌≡◌, refl, ◌∙◌, false, not, ◌&&◌, List, [], ◌∷◌, arith, if◌then◌else◌,
  All,
}
use surveillance_hound.Core.{Observation, Rule}
use surveillance_hound.Signatures.{cap}
use surveillance_hound.Engine.{tally, tally_rule, Tally, no_tally, total_score, worth}

-- The ceiling never exceeds a bound of every cap.
ceiling-tally :
    (o : Observation) (bound i : ℕ) (rs : List Rule) (t : Tally)
    → All (λ r. cap r o ≤ bound) rs
    → t.ceiling ≤ bound
    → (tally o i rs t).ceiling ≤ bound
unfolding tally tally_rule
ceiling-tally o bound i [] t caps small = small
ceiling-tally o bound i (r ∷ rs) t caps small =
    ceiling-tally o bound (suc i) rs (tally_rule o i r t) caps.1 (ground (arith, caps.0, small))

-- Whatever evidence an entry has, its score is within any bound of its rules' caps for the
-- observation (a contradiction leaves at least one).
pub total_score-le :
    (o : Observation) (bound : ℕ) (rs : List Rule)
    → All (λ r. cap r o ≤ bound) rs
    → total_score o rs ≤ max 1 bound
unfolding total_score
total_score-le o bound rs caps =
    let ceiling = ceiling-tally o bound 0 rs no_tally caps (omega arith) in ground (arith, ceiling)

-- From the third rule on, evidence does not raise the score.
score-tally_rest :
    (o : Observation) (i : ℕ) (rs : List Rule) (t : Tally)
    → 2 ≤ i
    → (tally o i rs t).score ≡ t.score
unfolding tally tally_rule
score-tally_rest o i [] t h = refl
score-tally_rest o i (r ∷ rs) t h =
    score-tally_rest o (suc i) rs (tally_rule o i r t) (omega arith) ∙ ground arith

-- The score of two rules or more, before the ceiling and the penalty.
score-tally :
    (o : Observation) (a b : Rule) (rs : List Rule)
    → (tally o 0 (a ∷ b ∷ rs) no_tally).score
      ≡ worth o a + (if not a.generic && not b.generic then worth o b / 4 else 0)
unfolding tally tally_rule
score-tally o a b rs =
    score-tally_rest o 2 rs (tally_rule o 1 b (tally_rule o 0 a no_tally)) (omega arith)
    ∙ ground arith

-- Without a contradiction, only the two strongest rules count: a score is the first one's worth and
-- at most a quarter of the second's.
pub total_score_second :
    (o : Observation) (a b : Rule) (rs : List Rule)
    → o.contradiction ≡ false
    → total_score o (a ∷ b ∷ rs)
      ≤ worth o a + (if not a.generic && not b.generic then worth o b / 4 else 0)
unfolding total_score
total_score_second o a b rs h = ground (arith, h, score-tally o a b rs)
