-- ===== src/Engine/Emission.antt =====
-- How often detections are emitted.
use surveillance_hound.Common.{
  test_bit, ℕ, ◌+◌, ◌≤◌, ◌<◌, ◌≡◌, refl, subst, ◌∙◌, ◌⊎◌, inl, inr, none, some, List, [], ◌∷◌, ◌++◌,
  arith, Bool-cases, All, length, u64_mod,
}
use surveillance_hound.Core.{behavior, Observation, Settings, Detection, Rule}
use surveillance_hound.Behavior.{remember_ap}
use surveillance_hound.Engine.{
  kind_eq, Engine, Touched, untouched, apply_hit, probe, apply_rule, apply_rules, settle,
  settle_all, ingest,
}

next_emit-probe :
    (g : Engine) (rule : Rule) (o : Observation) → (probe g rule o).0.next_emit ≡ g.next_emit
unfolding probe
next_emit-probe g rule o = elim (Bool-cases (kind_eq rule.kind behavior)) [
  | inl e ↦ rw (e) refl
  | inr e ↦ rw (e) refl
]

next_emit-apply_hit :
    (o : Observation) (rule : Rule) (g : Engine) (touched : Touched)
    → (apply_hit o rule (g, touched)).0.next_emit ≡ g.next_emit
unfolding apply_hit
next_emit-apply_hit o rule g touched = refl

next_emit-apply_rule :
    (o : Observation) (s : Settings) (rule : Rule) (st : Engine × Touched)
    → (apply_rule o s rule st).0.next_emit ≡ st.0.next_emit
unfolding apply_rule
next_emit-apply_rule o s rule (g, touched) =
    elim (Bool-cases (test_bit s.enabled_categories rule.category)) [
      | inr e ↦ rw (e) refl
      | inl e ↦ elim (Bool-cases (probe g rule o).1) [
        | inl f ↦
            rw (e, f)
              (next_emit-apply_hit o rule (probe g rule o).0 touched ∙ next_emit-probe g rule o)
        | inr f ↦ rw (e, f) (next_emit-probe g rule o)
      ]
    ]

next_emit-apply_rules :
    (o : Observation) (s : Settings) (rules : List Rule) (st : Engine × Touched)
    → (apply_rules o s rules st).0.next_emit ≡ st.0.next_emit
unfolding apply_rules
next_emit-apply_rules o s [] st = refl
next_emit-apply_rules o s (rule ∷ rules) st =
    next_emit-apply_rules o s rules (apply_rule o s rule st) ∙ next_emit-apply_rule o s rule st

-- The two things a call can do to the emission clock: nothing, or one detection and a pause of
-- 100 ms.
pub Emits : Observation → ℕ → Engine × List Detection → Type 0
Emits o before (h, out) =
    ((out ≡ []) × (h.next_emit ≡ before))
    ⊎ ((length out ≡ 1) × (before ≤ o.ms) × (h.next_emit ≡ o.ms + 100))

settle-Emits :
    (o : Observation) (room i : ℕ) (g : Engine)
    → o.ms + 100 < u64_mod
    → Emits o g.next_emit (settle o room i (g, []))
unfolding settle Emits
settle-Emits o room i g small = ground arith

-- Within the pause nothing is emitted.
settle_quiet :
    (o : Observation) (room i : ℕ) (g : Engine) (out : List Detection)
    → o.ms < g.next_emit
    → ((settle o room i (g, out)).1 ≡ out) × ((settle o room i (g, out)).0.next_emit ≡ g.next_emit)
unfolding settle
settle_quiet o room i g out early = ground (arith, early)

settle_all_quiet :
    (o : Observation) (room : ℕ) (touched : Touched) (g : Engine) (out : List Detection)
    → o.ms < g.next_emit
    → ((settle_all o room touched (g, out)).1 ≡ out)
      × ((settle_all o room touched (g, out)).0.next_emit ≡ g.next_emit)
unfolding settle_all
settle_all_quiet o room [] g out early = (refl, refl)
settle_all_quiet o room (none ∷ touched) g out early = settle_all_quiet o room touched g out early
settle_all_quiet o room (some i ∷ touched) g out early =
    let (a, b) = settle_quiet o room i g out early in
    let (c, d) =
      settle_all_quiet o room touched (settle o room i (g, out)).0 (settle o room i (g, out)).1
        (rw (b) early) in
    (c ∙ a, d ∙ b)

Emits-quiet :
    (o : Observation) (room before : ℕ) (touched : Touched) (g : Engine) (out : List Detection)
    → o.ms < g.next_emit
    → Emits o before (g, out)
    → Emits o before (settle_all o room touched (g, out))
unfolding Emits
Emits-quiet o room before touched g out early h =
    let (a, b) = settle_all_quiet o room touched g out early in rw (a, b) h

settle_all-Emits :
    (o : Observation) (room before : ℕ) (touched : Touched) (g : Engine)
    → o.ms + 100 < u64_mod
    → g.next_emit ≡ before
    → Emits o before (settle_all o room touched (g, []))
unfolding settle_all Emits
settle_all-Emits o room before [] g small same = inl (refl, same)
settle_all-Emits o room before (none ∷ touched) g small same =
    settle_all-Emits o room before touched g small same
settle_all-Emits o room before (some i ∷ touched) g small same =
    go (λ h. settle_all-Emits o room before touched h small) (settle o room i (g, []))
      (settle-Emits o room i g small)
  where
    go :
        ((h : Engine) → h.next_emit ≡ before → Emits o before (settle_all o room touched (h, [])))
        → (st : Engine × List Detection) → Emits o g.next_emit st
        → Emits o before (settle_all o room touched st)
    go rest (h, out) (inl (e, f)) = rw (e) (rest h (f ∙ same))
    go rest (h, out) (inr (e, f, k)) =
        Emits-quiet o room before touched h out (omega arith) (inr (e, omega arith, k))

-- One observation emits at most one detection, never before the pause has passed, and starts a pause
-- of 100 ms exactly when it emits one.
pub ingest-Emits :
    (g : Engine) (o : Observation) (s : Settings) (room : ℕ)
    → o.ms + 100 < u64_mod
    → Emits o g.next_emit (ingest g o s room)
unfolding ingest
ingest-Emits g o s room small =
    let (ruled, touched) = apply_rules o s g.rules (g, untouched) in
    settle_all-Emits o room g.next_emit touched (record ruled { aps = remember_ap ruled.aps o })
      small (next_emit-apply_rules o s g.rules (g, untouched))

-- A call of `ingest`.
pub record Call : Type 0 where
  pub o : Observation
  pub settings : Settings
  pub room : ℕ

-- The time of the call, once for each detection.
unfoldable pub stamps : ℕ → List Detection → List ℕ
stamps ms [] = []
stamps ms (d ∷ ds) = ms ∷ stamps ms ds

-- When detections are emitted over a sequence of calls.
unfoldable pub emission_times : Engine → List Call → List ℕ
unfolding stamps
emission_times g [] = []
emission_times g (c ∷ calls) =
    let (h, out) = ingest g c.o c.settings c.room in stamps c.o.ms out ++ emission_times h calls

-- Every time is at least 100 ms after the one before it, and the first not before the given time.
pub IsSpaced : ℕ → List ℕ → Type 0
IsSpaced earliest [] = Unit
IsSpaced earliest (t ∷ ts) = (earliest ≤ t) × IsSpaced (t + 100) ts

one_stamp : (ms : ℕ) (out : List Detection) → length out ≡ 1 → stamps ms out ≡ ms ∷ []
unfolding stamps
one_stamp ms [] e = absurd (omega arith)
one_stamp ms (d ∷ []) e = refl
one_stamp ms (d ∷ d' ∷ ds) e = absurd (omega arith)

Emits-IsSpaced :
    (o : Observation) (before : ℕ) (h : Engine) (out : List Detection) (times : List ℕ)
    → Emits o before (h, out)
    → IsSpaced h.next_emit times
    → IsSpaced before (stamps o.ms out ++ times)
unfolding Emits stamps IsSpaced
Emits-IsSpaced o before h out times (inl (e, f)) later =
    rw (e) (subst (λ n. IsSpaced n times) f later)
Emits-IsSpaced o before h out times (inr (e, f, k)) later =
    rw (one_stamp o.ms out e) (f, subst (λ n. IsSpaced n times) k later)

-- Over any sequence of observations, whose times may run backwards but stay 100 ms below the end of the
-- 64-bit clock, detections are emitted at rising times at least 100 ms apart.
pub emission_times-IsSpaced :
    (calls : List Call) (g : Engine)
    → All (λ c. c.o.ms + 100 < u64_mod) calls
    → IsSpaced g.next_emit (emission_times g calls)
unfolding emission_times IsSpaced
emission_times-IsSpaced [] g small = tt
emission_times-IsSpaced (c ∷ calls) g small =
    let (h, out) = ingest g c.o c.settings c.room in
    Emits-IsSpaced c.o g.next_emit h out (emission_times h calls)
      (ingest-Emits g c.o c.settings c.room small.0) (emission_times-IsSpaced calls h small.1)
