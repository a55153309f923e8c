-- ===== src/Engine/Current.antt =====
-- What is emitted is about the observation that was just ingested.
use surveillance_hound.Common.{
  ℕ, ◌<◌, ◌≡◌, refl, sym, subst, inl, inr, true, ◌&&◌, none, some, List, [], ◌∷◌, ◌++◌, ltb, leb,
  Bool-cases, All, All-get_or, All-replicate, length, get_or, set, length-set, get_or-set_same,
  test_bit,
}
use surveillance_hound.Core.{Observation, Settings, Detection, Rule}
use surveillance_hound.Core.Category.{category_count}
use surveillance_hound.Behavior.{remember_ap}
use surveillance_hound.Engine.{
  Engine, Entry, Touched, untouched, apply_hit, probe, apply_rule, apply_rules, settle, settle_all,
  ingest, rescore, blank_entry, credit, touch, due,
}
use surveillance_hound.Engine.Cache.{cache-probe, mark}
use surveillance_hound.Engine.Reach.{
  IsCurrent, AllCurrent, write_AllCurrent, mark_touched, credit_keeps, touch-Reaches,
}

module _ (o : Observation) (s : Settings) where
  record Ready (st : Engine × Touched) : Type 0 where
    room : 0 < length st.0.cache
    all : AllCurrent o s st.0.cache st.1

  Ready-probe :
      (g : Engine) (touched : Touched) (rule : Rule)
      → Ready (g, touched)
      → Ready ((probe g rule o).0, touched)
  Ready-probe g touched rule h = record {
    room = subst (λ c. 0 < length c) (sym (cache-probe g rule o)) h.room;
    all = subst (λ c. AllCurrent o s c touched) (sym (cache-probe g rule o)) h.all;
  }

  found-IsCurrent :
      (cache : List Entry) (touched : Touched) (k : ℕ)
      → AllCurrent o s cache touched
      → (i : ℕ) → get_or touched k none ≡ some i
      → (i < length cache) × IsCurrent o s (get_or cache i blank_entry).detection
  unfolding AllCurrent
  found-IsCurrent cache touched k h =
      All-get_or
        (λ t.
          (i : ℕ)
          → t ≡ some i
          → (i < length cache) × IsCurrent o s (get_or cache i blank_entry).detection)
        touched k none h (λ i e. absurd (cc))

  Ready-apply_hit :
      (g : Engine) (touched : Touched) (rule : Rule)
      → test_bit s.enabled_categories rule.category ≡ true
      → Ready (g, touched)
      → Ready (apply_hit o rule (g, touched))
  unfolding apply_hit
  Ready-apply_hit g touched rule on h =
      let t = touch g.cache rule o (get_or touched rule.category none) in
      let e = credit rule o t.1 in
      let reach =
        touch-Reaches o s g.cache rule (get_or touched rule.category none) h.room on
          (found-IsCurrent g.cache touched rule.category h.all) in
      let current = subst (IsCurrent o s) (sym (credit_keeps o s rule t.1)) reach.current in
      record {
        room = rw (length-set g.cache t.0 e) h.room;
        all =
            mark_touched o s (set g.cache t.0 e) touched rule.category t.0
              (rw (length-set g.cache t.0 e) reach.inside)
              (rw (get_or-set_same g.cache t.0 e blank_entry reach.inside) current)
              (write_AllCurrent o s g.cache touched t.0 e current h.all);
      }

  Ready-apply_rule :
      (rule : Rule) (st : Engine × Touched) → Ready st → Ready (apply_rule o s rule st)
  unfolding apply_rule
  Ready-apply_rule rule (g, touched) h =
      elim (Bool-cases (test_bit s.enabled_categories rule.category)) [
        | inr e ↦ rw (e) h
        | inl e ↦ elim (Bool-cases (probe g rule o).1) [
          | inl f ↦
              rw (e, f)
                (Ready-apply_hit (probe g rule o).0 touched rule e (Ready-probe g touched rule h))
          | inr f ↦ rw (e, f) (Ready-probe g touched rule h)
        ]
      ]

  Ready-apply_rules :
      (rules : List Rule) (st : Engine × Touched) → Ready st → Ready (apply_rules o s rules st)
  unfolding apply_rules
  Ready-apply_rules [] st h = h
  Ready-apply_rules (rule ∷ rules) st h =
      Ready-apply_rules rules (apply_rule o s rule st) (Ready-apply_rule rule st h)

  rescore-IsCurrent :
      (e : Entry) → IsCurrent o s e.detection → IsCurrent o s (rescore o e).detection
  unfolding rescore
  rescore-IsCurrent e c = record {
    last_ms = c.last_ms;
    address = c.address;
    address_type = c.address_type;
    channel = c.channel;
    enabled = c.enabled;
  }

  append_one :
      {A : Type 0} (Q : A → Type 0) (xs : List A) (x : A) → All Q xs → Q x → All Q (xs ++ (x ∷ []))
  append_one Q [] x h q = (q, tt)
  append_one Q (y ∷ xs) x h q = (h.0, append_one Q xs x h.1 q)

  settle-AllCurrent :
      (room i : ℕ) (touched : Touched) (g : Engine) (out : List Detection)
      → (i < length g.cache) × IsCurrent o s (get_or g.cache i blank_entry).detection
      → AllCurrent o s g.cache touched
      → All (IsCurrent o s) out
      → AllCurrent o s (settle o room i (g, out)).0.cache touched
        × All (IsCurrent o s) (settle o room i (g, out)).1
  unfolding settle
  settle-AllCurrent room i touched g out (lt, c) h q =
      let old = get_or g.cache i blank_entry in
      let e = rescore o old in
      let now = rescore-IsCurrent old c in
      elim (Bool-cases
        (due o.ms old.detection.score e && leb g.next_emit o.ms && ltb (length out) room)) [
          | inl f ↦ rw (f) (
            write_AllCurrent o s g.cache touched i (mark o e) now h,
            append_one (IsCurrent o s) out e.detection q now,
          )
          | inr f ↦ rw (f) (write_AllCurrent o s g.cache touched i e now h, q)
        ]

  settle_all-IsCurrent :
      (room : ℕ) (touched : Touched) (st : Engine × List Detection)
      → AllCurrent o s st.0.cache touched
      → All (IsCurrent o s) st.1
      → All (IsCurrent o s) (settle_all o room touched st).1
  unfolding settle_all AllCurrent
  settle_all-IsCurrent room [] st h q = q
  settle_all-IsCurrent room (none ∷ touched) st h q = settle_all-IsCurrent room touched st h.1 q
  settle_all-IsCurrent room (some i ∷ touched) (g, out) h q =
      let (h', q') = settle-AllCurrent room i touched g out (h.0 i refl) h.1 q in
      settle_all-IsCurrent room touched (settle o room i (g, out)) h' q'

untouched_current :
    (o : Observation) (s : Settings) (cache : List Entry) → AllCurrent o s cache untouched
unfolding AllCurrent
untouched_current o s cache =
    All-replicate
      (λ t.
        (i : ℕ)
        → t ≡ some i
        → (i < length cache) × IsCurrent o s (get_or cache i blank_entry).detection)
      category_count none (λ i e. absurd cc)

-- Whatever the cache holds, every detection that an observation emits is of an enabled category and
-- carries the observation's time, address and channel.
pub ingest-IsCurrent :
    (g : Engine) (o : Observation) (s : Settings) (room : ℕ)
    → 0 < length g.cache
    → All (IsCurrent o s) (ingest g o s room).1
unfolding ingest
ingest-IsCurrent g o s room some_slot =
    let (ruled, touched) = apply_rules o s g.rules (g, untouched) in
    let ready =
      Ready-apply_rules o s g.rules (g, untouched)
        (record { room = some_slot; all = untouched_current o s g.cache }) in
    settle_all-IsCurrent o s room touched (record ruled { aps = remember_ap ruled.aps o }, [])
      ready.all tt
