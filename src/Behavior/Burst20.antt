-- ===== src/Behavior/Burst20.antt =====
-- Frames of many senders in one log: when a frame is reported as a burst.
use surveillance_hound.Common.{
  ℕ, ◌≤◌, ◌<◌, ◌≡◌, refl, sym, ap, subst, ◌∙◌, ◌↔◌, inl, inr, Bool, true, false, List, [], ◌∷◌,
  arith, ◌==◌, Bool-cases, set, length-set, get_or-set_other, get_or-set_same, get_or-replicate,
}
use surveillance_hound.Core.{Observation}
use surveillance_hound.Behavior.{Burst, deauth_burst, same_sender, stamp, no_bursts, blank_burst}
use surveillance_hound.Behavior.Ring.{IsRing, Bursting, full-Bursting, stamp-IsRing}
use surveillance_hound.Behavior.Senders.{
  watched, sent, senders, after, slot, Tracks, IsOf, Agree, IsOf-same_sender, same_sender-Agree,
  Agree-same_sender, sent_own, sent-mine, sent-other, sent-unwatched,
}
use surveillance_hound.Behavior.Placing.{Placed, stamp-IsOf, apart, write}

module _ (q : Observation) (log : List Observation) (bs : List Burst) (h : Tracks log bs) where
  module _ (k : ℕ) (b : Burst) (w : watched q ≡ true) (p : Placed q log bs k b) where
    abbrev stored : List Burst
    stored = set bs k (stamp b q.ms)

    stored_here : slot stored k ≡ stamp b q.ms
    stored_here = get_or-set_same bs k (stamp b q.ms) blank_burst (rw (h.slots) p.in_table)

    stored_there : (i : ℕ) → (i == k) ≡ false → slot stored i ≡ slot bs i
    stored_there i off = get_or-set_other bs k i (stamp b q.ms) blank_burst off

    mine_here : IsOf q (slot stored k)
    mine_here = subst (IsOf q) (sym stored_here) (stamp-IsOf q b q.ms p.own)

    -- A slot of the frame's sender is the one that was written, any other one is as before.
    data At (o : Observation) (i : ℕ) : Type 0 where
      here : i ≡ k → Agree o q → At o i
      there : (i == k) ≡ false → same_sender o (slot bs i) ≡ true → ¬ Agree o q → At o i

    at : (o : Observation) (i : ℕ) → i < 16 → same_sender o (slot stored i) ≡ true → At o i
    at o i lt e = elim (Bool-cases (i == k)) [
      | inl on ↦
          let same : i ≡ k = ground arith in
          here same (
            same_sender-Agree o q (slot stored k)
              (subst (λ n. same_sender o (slot stored n) ≡ true) same e)
              (IsOf-same_sender q (slot stored k) mine_here))
      | inr off ↦
          let old = subst (λ x. same_sender o x ≡ true) (stored_there i off) e in
          there off old (λ a. apart off (p.others i lt (Agree-same_sender o q (slot bs i) a old)))
    ]

    stored-rings :
        (o : Observation) (i : ℕ)
        → i < 16
        → same_sender o (slot stored i) ≡ true
        → IsRing (slot stored i) (sent o.address o.channel (q ∷ log))
    stored-rings o i lt e = elim (at o i lt e) [
      | here same a ↦
          subst (λ n. IsRing (slot stored n) (sent o.address o.channel (q ∷ log))) (sym same)
            (subst (λ x. IsRing x (sent o.address o.channel (q ∷ log))) (sym stored_here)
              (subst (IsRing (stamp b q.ms)) (sym (sent-mine o q log w a))
                (stamp-IsRing b (sent q.address q.channel log) q.ms p.ring)))
      | there off old differ ↦
          subst (λ x. IsRing x (sent o.address o.channel (q ∷ log))) (sym (stored_there i off))
            (subst (IsRing (slot bs i)) (sym (sent-other o q log differ)) (h.rings o i lt old))
    ]

    stored_unique :
        (o : Observation) (i j : ℕ)
        → i < 16
        → j < 16
        → same_sender o (slot stored i) ≡ true
        → same_sender o (slot stored j) ≡ true
        → i ≡ j
    stored_unique o i j il jl ie je = elim (at o i il ie) [
      | here same a ↦ elim (at o j jl je) [
        | here same' a' ↦ same ∙ sym same'
        | there off old differ ↦ absurd (differ a)
      ]
      | there off old differ ↦ elim (at o j jl je) [
        | here same a ↦ absurd (differ a)
        | there off' old' differ' ↦ h.unique o i j il jl old old'
      ]
    ]

    clash : {t : Bool} → t ≡ false → t ≡ true → ⊥
    clash f t = cc

    stored-missing :
        (o : Observation)
        → ((i : ℕ) → i < 16 → same_sender o (slot stored i) ≡ false)
        → sent o.address o.channel (q ∷ log) ≡ []
    stored-missing o nobody = sent-other o q log differ ∙ h.missing o absent
      where
        differ : ¬ Agree o q
        differ a = clash (nobody k p.in_table) (
            Agree-same_sender q o (slot stored k)
              (record { address_is = sym a.address_is; channel_is = sym a.channel_is })
              (IsOf-same_sender q (slot stored k) mine_here))

        absent : (i : ℕ) → i < 16 → same_sender o (slot bs i) ≡ false
        absent i lt = elim (Bool-cases (i == k)) [
          | inr off ↦ subst (λ x. same_sender o x ≡ false) (stored_there i off) (nobody i lt)
          | inl on ↦ elim (Bool-cases (same_sender o (slot bs i))) [
            | inr no_ ↦ no_
            | inl yes_ ↦
                let same : i ≡ k = ground arith in
                absurd
                  (differ (p.before o (subst (λ n. same_sender o (slot bs n) ≡ true) same yes_)))
          ]
        ]

    stored-Tracks : Tracks (q ∷ log) stored
    stored-Tracks = record {
      slots = length-set bs k (stamp b q.ms) ∙ h.slots;
      rings = stored-rings;
      unique = stored_unique;
      missing = stored-missing;
      used_count = p.used_count;
    }

  watched-Tracks :
      watched q ≡ true → senders (q ∷ log) ≤ 16 → Tracks (q ∷ log) (deauth_burst bs q).0
  watched-Tracks w fits =
      let to = write q log bs h w fits in
      subst (Tracks (q ∷ log)) (sym (ap (λ r. r.0) to.result))
        (stored-Tracks to.place to.burst w to.placed)

  unwatched-Tracks : watched q ≡ false → Tracks (q ∷ log) (deauth_burst bs q).0
  unfolding deauth_burst
  unwatched-Tracks w = rw (w) (record {
    slots = h.slots;
    rings = λ o i lt e.
        subst (IsRing (slot bs i)) (sym (sent-unwatched o.address o.channel q log w))
          (h.rings o i lt e);
    unique = h.unique;
    missing = λ o nobody. sent-unwatched o.address o.channel q log w ∙ h.missing o nobody;
    used_count = unfold senders in omega (arith, h.used_count);
  })

empty-unsent : (o : Observation) (i : ℕ) → same_sender o (slot no_bursts i) ≡ false
unfolding same_sender
empty-unsent o i = ap (same_sender o) (get_or-replicate 16 i blank_burst)

empty-Tracks : Tracks [] no_bursts
unfolding sent senders
empty-Tracks = record {
  slots = refl;
  rings = λ o i lt e. absurd (never (empty-unsent o i) e);
  unique = λ o i j il jl e e'. absurd (never (empty-unsent o i) e);
  missing = λ o nobody. refl;
  used_count = omega arith;
}
  where
    never : {t : Bool} → t ≡ false → t ≡ true → ⊥
    never f t = cc

senders-rest : (q : Observation) (log : List Observation) → senders log ≤ senders (q ∷ log)
unfolding senders
senders-rest q log = omega arith

after-Tracks : (log : List Observation) → senders log ≤ 16 → Tracks log (after log)
unfolding after
after-Tracks [] fits = empty-Tracks
after-Tracks (q ∷ log) fits =
    let before = after-Tracks log (omega (arith, senders-rest q log, fits)) in
    elim (Bool-cases (watched q)) [
      | inl w ↦ watched-Tracks q log (after log) before w fits
      | inr w ↦ unwatched-Tracks q log (after log) before w
    ]

-- From an empty table, after any frames of at most 16 senders in any order, a deauthentication or
-- disassociation is reported as a burst exactly when it is at least the twentieth from its address on
-- its channel, and the last twenty of these came within ten seconds.
pub deauth_burst-Bursting :
    (log : List Observation) (q : Observation)
    → watched q ≡ true
    → senders (q ∷ log) ≤ 16
    → ((deauth_burst (after log) q).1 ≡ true) ↔ Bursting (sent q.address q.channel (q ∷ log)) q.ms
deauth_burst-Bursting log q w fits =
    let tracked = after-Tracks log (omega (arith, senders-rest q log, fits)) in
    let to = write q log (after log) tracked w fits in
    subst (λ r. (r ≡ true) ↔ Bursting (sent q.address q.channel (q ∷ log)) q.ms)
      (sym (ap (λ r. r.1) to.result))
      (full-Bursting (stamp to.burst q.ms) (sent q.address q.channel (q ∷ log)) q.ms (
        subst (IsRing (stamp to.burst q.ms)) (sym (sent_own q log w))
          (stamp-IsRing to.burst (sent q.address q.channel log) q.ms to.placed.ring)))
