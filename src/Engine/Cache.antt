-- ===== src/Engine/Cache.antt =====
-- What holds of every cached entry: a predicate that the steps on an entry keep is kept by `ingest`.
use surveillance_hound.Common.{
  test_bit, ℕ, max, ◌≡◌, refl, sym, subst, inl, inr, ◌&&◌, Option, none, some, List, [], ◌∷◌, ◌++◌,
  ltb, leb, Bool-cases, All, All-set, All-get_or, length, get_or, find_index,
}
use surveillance_hound.Core.{behavior, Observation, Settings, Detection, Rule}
use surveillance_hound.Behavior.{remember_ap}
use surveillance_hound.Signatures.{kind_eq}
use surveillance_hound.Engine.{
  Engine, Entry, Touched, untouched, apply_hit, probe, apply_rule, apply_rules, settle, settle_all,
  ingest, rescore, blank_entry, first_entry, see, credit, touch, locate, due, holds,
}

pub cache-probe : (g : Engine) (rule : Rule) (o : Observation) → (probe g rule o).0.cache ≡ g.cache
unfolding probe
cache-probe g rule o = elim (Bool-cases (kind_eq rule.kind behavior)) [
  | inl e ↦ rw (e) refl
  | inr e ↦ rw (e) refl
]

-- The entry that `settle` writes when it emits.
abbrev pub mark : Observation → Entry → Entry
mark o e = record e { emitted = max 1 o.ms; emitted_samsung_state = e.detection.samsung.state }

-- A predicate on entries and one on rules, kept by the steps on an entry.
pub record Kept (P : Entry → Type 0) (R : Rule → Type 0) (o : Observation) : Type 0 where
  pub blank : P blank_entry
  pub first : (rule : Rule) → R rule → P (first_entry rule o)
  pub seen : (e : Entry) → P e → P (see o e)
  pub credited : (rule : Rule) (e : Entry) → R rule → P e → P (credit rule o e)
  pub rescored : (e : Entry) → P e → P (rescore o e)
  pub marked : (e : Entry) → P e → P (mark o e)

module _ (P : Entry → Type 0) (R : Rule → Type 0) (o : Observation) (kept : Kept P R o) where
  locate_keeps :
      (cache : List Entry) (rule : Rule) (found : Option ℕ)
      → R rule
      → All P cache
      → P (locate cache rule o found).1
  unfolding locate
  locate_keeps cache rule none r h = kept.first rule r
  locate_keeps cache rule (some i) r h = All-get_or P cache i blank_entry h kept.blank

  touch_keeps :
      (cache : List Entry) (rule : Rule) (found : Option ℕ)
      → R rule
      → All P cache
      → P (touch cache rule o found).1
  unfolding touch
  touch_keeps cache rule none r h =
      kept.seen _ (locate_keeps cache rule (find_index (holds rule o) cache) r h)
  touch_keeps cache rule (some i) r h = All-get_or P cache i blank_entry h kept.blank

  apply_rule_keeps :
      (s : Settings) (rule : Rule) (st : Engine × Touched)
      → R rule
      → All P st.0.cache
      → All P (apply_rule o s rule st).0.cache
  unfolding apply_rule apply_hit
  apply_rule_keeps s rule (g, touched) r h =
      let kept_cache = subst (All P) (sym (cache-probe g rule o)) h in
      let c = (probe g rule o).0.cache in
      let t = touch c rule o (get_or touched rule.category none) in
      elim (Bool-cases (test_bit s.enabled_categories rule.category)) [
        | inr e ↦ rw (e) h
        | inl e ↦ elim (Bool-cases (probe g rule o).1) [
          | inl f ↦
              rw (e, f)
                (All-set P c t.0 (credit rule o t.1) kept_cache (
                  kept.credited rule t.1 r
                    (touch_keeps c rule (get_or touched rule.category none) r kept_cache)))
          | inr f ↦ rw (e, f) kept_cache
        ]
      ]

  apply_rules_keeps :
      (s : Settings) (rules : List Rule) (st : Engine × Touched)
      → All R rules
      → All P st.0.cache
      → All P (apply_rules o s rules st).0.cache
  unfolding apply_rules
  apply_rules_keeps s [] st r h = h
  apply_rules_keeps s (rule ∷ rules) st r h =
      apply_rules_keeps s rules (apply_rule o s rule st) r.1 (apply_rule_keeps s rule st r.0 h)

  -- The detections that are emitted come from entries that satisfy the predicate.
  unfoldable pub Given : Engine × List Detection → Type 0
  Given (g, out) = All P g.cache × All (λ d. (e : Entry) × P e × (d ≡ (rescore o e).detection)) out

  append_one :
      {A : Type 0} (Q : A → Type 0) (xs : List A) (x : A) → All Q xs → Q x → All Q (xs ++ (x ∷ []))
  append_one Q [] x h q = (q, tt)
  append_one Q (y ∷ xs) x h q = (h.0, append_one Q xs x h.1 q)

  settle_keeps : (room i : ℕ) (st : Engine × List Detection) → Given st → Given (settle o room i st)
  unfolding settle Given
  settle_keeps room i (g, out) (h, ds) =
      let old = get_or g.cache i blank_entry in
      let e = rescore o old in
      let held = All-get_or P g.cache i blank_entry h kept.blank in
      elim (Bool-cases
        (due o.ms old.detection.score e && leb g.next_emit o.ms && ltb (length out) room)) [
          | inl f ↦ rw (f) (
            All-set P g.cache i (mark o e) h (kept.marked e (kept.rescored old held)),
            append_one _ out e.detection ds (old, held, refl),
          )
          | inr f ↦ rw (f) (All-set P g.cache i e h (kept.rescored old held), ds)
        ]

  settle_all_keeps :
      (room : ℕ) (touched : Touched) (st : Engine × List Detection)
      → Given st
      → Given (settle_all o room touched st)
  unfolding settle_all
  settle_all_keeps room [] st h = h
  settle_all_keeps room (none ∷ touched) st h = settle_all_keeps room touched st h
  settle_all_keeps room (some i ∷ touched) st h =
      settle_all_keeps room touched (settle o room i st) (settle_keeps room i st h)

  pub ingest_keeps :
      (g : Engine) (s : Settings) (room : ℕ)
      → All R g.rules
      → All P g.cache
      → Given (ingest g o s room)
  unfolding ingest Given
  ingest_keeps g s room r h =
      let (ruled, touched) = apply_rules o s g.rules (g, untouched) in
      settle_all_keeps room touched (record ruled { aps = remember_ap ruled.aps o }, [])
        (apply_rules_keeps s g.rules (g, untouched) r h, tt)
