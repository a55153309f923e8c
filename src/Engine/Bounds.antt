-- ===== src/Engine/Bounds.antt =====
-- Bounds of every cached entry and of what is emitted.
use surveillance_hound.Common.{
  u32_mod, ℕ, ◌+◌, ◌-◌, ◌*◌, ◌%◌, ◌^◌, ◌≤◌, ◌<◌, max, ◌≡◌, refl, sym, subst, ◌∙◌, inl, inr, Bool,
  true, false, ◌||◌, Option, none, some, List, [], ◌∷◌, arith, ltb, leb, ◌==◌, if◌then◌else◌,
  Bool-cases, All, All-set, All-replicate, length, get_or, length-set,
}
use surveillance_hound.Common.Int.{ℤ, pos_part, neg_part, ◌+ℤ◌}
use surveillance_hound.Core.{Observation, Settings, Detection, Rule}
use surveillance_hound.Signatures.{cap, group}
use surveillance_hound.Signatures.Caps.{cap-le}
use surveillance_hound.Engine.{
  new_engine, age, listed, worth, Engine, Entry, Evidence, blank_evidence, no_evidence, ingest,
  rescore, blank_entry, first_entry, see, credit, overrides, active_rules, sort_rules, insert_rule,
}
use surveillance_hound.Engine.Score.{total_score-le}
use surveillance_hound.Engine.Cache.{Kept, ingest_keeps, Given}

pub Capped : ℕ → Option Rule → Type 0
Capped bound none = Unit
Capped bound (some r) = r.cap ≤ bound

-- An entry's evidence and sums are in bounds.
pub record IsBounded (bound : ℕ) (e : Entry) : Type 0 where
  pub groups : length e.evidence ≡ 9
  pub capped : All (λ ev. Capped bound ev.rule) e.evidence
  pub seen : e.detection.seen_count < 2 ^ 32
  pub sum_low : neg_part e.detection.rssi_sum ≤ 128 * e.detection.seen_count
  pub sum_high : pos_part e.detection.rssi_sum ≤ 127 * e.detection.seen_count
  pub score : e.detection.score ≤ max 1 bound

-- int8_t
unfoldable pub IsByte : ℤ → Type 0
IsByte z = (neg_part z ≤ 128) × (pos_part z ≤ 127)

listed-Capped :
    (bound : ℕ) (r : Option Rule) (rest : List Rule)
    → Capped bound r
    → All (λ x. x.cap ≤ bound) rest
    → All (λ x. x.cap ≤ bound) (listed r rest)
unfolding listed Capped
listed-Capped bound none rest c h = h
listed-Capped bound (some r) rest c h = (c, h)

active_rules-Capped :
    (bound ms : ℕ) (evs : List Evidence)
    → All (λ ev. Capped bound ev.rule) evs
    → All (λ r. r.cap ≤ bound) (active_rules ms evs)
unfolding active_rules
active_rules-Capped bound ms [] h = tt
active_rules-Capped bound ms (ev ∷ evs) h = elim (Bool-cases (leb (age ms ev) 30000)) [
  | inl e ↦
      rw (e) (
        listed-Capped bound ev.rule (active_rules ms evs) h.0
          (active_rules-Capped bound ms evs h.1))
  | inr e ↦ rw (e) (active_rules-Capped bound ms evs h.1)
]

insert_rule-All :
    (P : Rule → Type 0) (o : Observation) (r : Rule) (rs : List Rule)
    → P r
    → All P rs
    → All P (insert_rule o r rs)
unfolding insert_rule
insert_rule-All P o r [] p h = (p, tt)
insert_rule-All P o r (x ∷ xs) p h = elim (Bool-cases (ltb (worth o x) (worth o r))) [
  | inl e ↦ rw (e) (p, h)
  | inr e ↦ rw (e) (h.0, insert_rule-All P o r xs p h.1)
]

sort_rules-All :
    (P : Rule → Type 0) (o : Observation) (rs : List Rule) → All P rs → All P (sort_rules o rs)
unfolding sort_rules
sort_rules-All P o [] h = tt
sort_rules-All P o (r ∷ rs) h =
    insert_rule-All P o r (sort_rules o rs) h.0 (sort_rules-All P o rs h.1)

caps_for :
    (o : Observation) (bound : ℕ) (rs : List Rule)
    → All (λ r. r.cap ≤ bound) rs
    → All (λ r. cap r o ≤ bound) rs
caps_for o bound [] h = tt
caps_for o bound (r ∷ rs) h = (omega (arith, cap-le r o, h.0), caps_for o bound rs h.1)

rescore-score :
    (o : Observation) (bound : ℕ) (e : Entry)
    → All (λ ev. Capped bound ev.rule) e.evidence
    → (rescore o e).detection.score ≤ max 1 bound
unfolding rescore
rescore-score o bound e h = total_score-le o bound (sort_rules o (active_rules o.ms e.evidence)) (
    sort_rules-All (λ r. cap r o ≤ bound) o (active_rules o.ms e.evidence)
      (caps_for o bound (active_rules o.ms e.evidence)
        (active_rules-Capped bound o.ms e.evidence h)))

rescore-IsBounded :
    (o : Observation) (bound : ℕ) (e : Entry) → IsBounded bound e → IsBounded bound (rescore o e)
unfolding rescore
rescore-IsBounded o bound e h = record {
  groups = h.groups;
  capped = h.capped;
  seen = h.seen;
  sum_low = h.sum_low;
  sum_high = h.sum_high;
  score = unfold rescore in rescore-score o bound e h.capped;
}

no_evidence-Capped : (bound : ℕ) → All (λ ev. Capped bound ev.rule) no_evidence
unfolding Capped
no_evidence-Capped bound = All-replicate (λ ev. Capped bound ev.rule) 9 blank_evidence tt

-- One more signal keeps the sum's bounds.
sum_step :
    (n : ℕ) (sum z : ℤ)
    → IsByte z
    → neg_part sum ≤ 128 * n
    → pos_part sum ≤ 127 * n
    → (neg_part (sum +ℤ z) ≤ 128 * (n + 1)) × (pos_part (sum +ℤ z) ≤ 127 * (n + 1))
unfolding ◌+ℤ◌ IsByte
sum_step n sum z byte low high = ground (arith, byte, low, high)

module _ (o : Observation) (bound : ℕ) (e : Entry) (h : IsBounded bound e) where
  evidence-see :
      (b : Bool)
      → (length (if b then no_evidence else e.evidence) ≡ 9)
        × All (λ ev. Capped bound ev.rule) (if b then no_evidence else e.evidence)
  evidence-see true = (refl, no_evidence-Capped bound)
  evidence-see false = (h.groups, h.capped)

  see-IsBounded : IsByte o.rssi → IsBounded bound (see o e)
  unfolding see
  see-IsBounded byte =
      let d = e.detection in
      let kept = evidence-see (ltb o.ms d.last_ms || ltb 30000 (o.ms - d.last_ms)) in
      let step = sum_step d.seen_count d.rssi_sum o.rssi byte h.sum_low h.sum_high in
      elim (Bool-cases (d.seen_count == 2 ^ 32 - 1)) [
        | inl f ↦ rw (f) (record {
          groups = kept.0;
          capped = kept.1;
          seen = h.seen;
          sum_low = h.sum_low;
          sum_high = h.sum_high;
          score = h.score;
        })
        | inr f ↦ rw (f) (record {
          groups = kept.0;
          capped = kept.1;
          seen = ground (arith, f, h.seen);
          sum_low = step.0;
          sum_high = step.1;
          score = h.score;
        })
      ]

credit-IsBounded :
    (o : Observation) (bound : ℕ) (rule : Rule) (e : Entry)
    → rule.cap ≤ bound
    → IsBounded bound e
    → IsBounded bound (credit rule o e)
unfolding credit
credit-IsBounded o bound rule e fits h =
    let ev = get_or e.evidence (group rule.kind) blank_evidence in
    let new : Evidence = record { rule = some rule; at = o.ms % u32_mod } in
    elim (Bool-cases (overrides rule o.ms ev ev.rule)) [
      | inr f ↦ rw (f) h
      | inl f ↦ rw (f) (record {
        groups = length-set e.evidence (group rule.kind) new ∙ h.groups;
        capped =
            All-set (λ ev. Capped bound ev.rule) e.evidence (group rule.kind) new h.capped
              (unfold Capped in fits);
        seen = h.seen;
        sum_low = h.sum_low;
        sum_high = h.sum_high;
        score = h.score;
      })
    ]

Kept-IsBounded :
    (o : Observation) (bound : ℕ) → IsByte o.rssi → Kept (IsBounded bound) (λ r. r.cap ≤ bound) o
unfolding first_entry
Kept-IsBounded o bound byte = record {
  blank = record {
    groups = refl;
    capped = no_evidence-Capped bound;
    seen = omega arith;
    sum_low = omega arith;
    sum_high = omega arith;
    score = omega arith;
  };
  first = λ rule r. record {
    groups = refl;
    capped = no_evidence-Capped bound;
    seen = omega arith;
    sum_low = omega arith;
    sum_high = omega arith;
    score = omega arith;
  };
  seen = λ e h. see-IsBounded o bound e h byte;
  credited = λ rule e r h. credit-IsBounded o bound rule e r h;
  rescored = λ e h. rescore-IsBounded o bound e h;
  marked = λ e h. record {
    groups = h.groups;
    capped = h.capped;
    seen = h.seen;
    sum_low = h.sum_low;
    sum_high = h.sum_high;
    score = h.score;
  };
}

pub new_engine-IsBounded :
    (rules : List Rule) (bound : ℕ) → All (IsBounded bound) (new_engine rules).cache
new_engine-IsBounded rules bound = All-replicate (IsBounded bound) 128 blank_entry (record {
  groups = refl;
  capped = no_evidence-Capped bound;
  seen = omega arith;
  sum_low = omega arith;
  sum_high = omega arith;
  score = omega arith;
})

scores :
    (o : Observation) (bound : ℕ) (out : List Detection)
    → All (λ d. (e : Entry) × IsBounded bound e × (d ≡ (rescore o e).detection)) out
    → All (λ d. d.score ≤ max 1 bound) out
scores o bound [] h = tt
scores o bound (d ∷ ds) ((e, b, same), h) = (
  subst (λ x. x.score ≤ max 1 bound) (sym same) (rescore-score o bound e b.capped),
  scores o bound ds h,
)

-- With every rule's cap within a bound and signals of one signed byte, an observation keeps every
-- entry in bounds: nine evidence groups, a counter that stops at its maximum, a signal sum within
-- that many bytes (so that it cannot overflow), and scores within the bound of the caps; and so are
-- the scores of the detections it emits.
pub ingest-IsBounded :
    (g : Engine) (o : Observation) (s : Settings) (room bound : ℕ)
    → All (λ r. r.cap ≤ bound) g.rules
    → IsByte o.rssi
    → All (IsBounded bound) g.cache
    → All (IsBounded bound) (ingest g o s room).0.cache
      × All (λ d. d.score ≤ max 1 bound) (ingest g o s room).1
unfolding Given
ingest-IsBounded g o s room bound caps byte h =
    let (cache, out) =
      ingest_keeps (IsBounded bound) (λ r. r.cap ≤ bound) o (Kept-IsBounded o bound byte) g s room
        caps h in
    (cache, scores o bound (ingest g o s room).1 out)
