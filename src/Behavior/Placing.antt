-- ===== src/Behavior/Placing.antt =====
-- Where a watched frame is written: into the slot of its sender, or into an unused one.
use surveillance_hound.Common.{
  ℕ, zero, suc, ◌+◌, ◌≤◌, ◌<◌, ◌≡◌, refl, sym, ap, subst, ◌≢◌, Bool, true, false, not, Option, none,
  some, List, [], ◌∷◌, arith, ◌==◌, to_bit, set, length, find_index, count_if, find_index-some,
  find_index-none,
}
use surveillance_hound.Core.{Observation}
use surveillance_hound.Behavior.{
  Burst, deauth_burst, burst_slot, same_sender, free_burst, stamp, full, blank_burst,
}
use surveillance_hound.Behavior.Ring.{IsRing, new-IsRing}
use surveillance_hound.Behavior.Senders.{
  watched, sent, senders, slot, Tracks, IsOf, Agree, same_sender-IsOf, same_sender-Agree,
}

count_if-set :
    (p : Burst → Bool) (bs : List Burst) (i : ℕ) (v : Burst)
    → i < length bs
    → count_if p (set bs i v) + to_bit (p (slot bs i)) ≡ count_if p bs + to_bit (p v)
count_if-set p [] i v lt = absurd (omega arith)
count_if-set p (b ∷ bs) zero v lt = ground arith
count_if-set p (b ∷ bs) (suc i) v lt = ground (arith, count_if-set p bs i v)

-- The slot and the burst that a watched frame is written to.
pub record Placed (q : Observation) (log : List Observation) (bs : List Burst) (k : ℕ) (b : Burst)
    : Type 0 where
  pub in_table : k < 16
  pub own : IsOf q b
  pub ring : IsRing b (sent q.address q.channel log)
  pub others : (i : ℕ) → i < 16 → same_sender q (slot bs i) ≡ true → i ≡ k
  pub before : (o : Observation) → same_sender o (slot bs k) ≡ true → Agree o q
  pub used_count : count_if (λ b. b.used) (set bs k (stamp b q.ms)) ≤ senders (q ∷ log)

pub stamp-IsOf : (q : Observation) (b : Burst) (t : ℕ) → IsOf q b → IsOf q (stamp b t)
unfolding stamp
stamp-IsOf q b t h = record {
  in_use = h.in_use;
  address_is = h.address_is;
  channel_is = h.channel_is;
}

abbrev new_burst : Observation → Burst
new_burst q = record blank_burst { used = true; address = q.address; channel = q.channel }

pub apart : {i k : ℕ} → (i == k) ≡ false → i ≢ k
apart {i} {k} off = λ e. ground (arith, off, e)

-- A table without an unused slot is used up.
all_used :
    (bs : List Burst)
    → find_index (λ b. not b.used) bs ≡ none
    → count_if (λ b. b.used) bs ≡ length bs
all_used [] e = refl
all_used (b ∷ bs) e = ground (arith, all_used bs)

module _ (q : Observation) (log : List Observation) (bs : List Burst) (h : Tracks log bs) where
  -- A sender that has a slot keeps it.
  known_place : (i : ℕ) → find_index (same_sender q) bs ≡ some i → Placed q log bs i (slot bs i)
  known_place i e =
      let (lt, same) = find_index-some (same_sender q) bs i blank_burst e in
      let mine = same_sender-IsOf q (slot bs i) same in
      let inside : i < 16 = rw (sym h.slots) lt in
      record {
        in_table = inside;
        own = mine;
        ring = h.rings q i inside same;
        others = λ j jt js. h.unique q j i jt inside js same;
        before = λ o os. same_sender-Agree o q (slot bs i) os same;
        used_count =
            unfold senders stamp in
            omega (
              arith,
              count_if-set (λ b. b.used) bs i (stamp (slot bs i) q.ms) lt,
              ap to_bit mine.in_use,
              h.used_count,
            );
      }

  -- A sender without a slot has sent nothing, and takes an unused slot.
  unheard : find_index (same_sender q) bs ≡ none → sent q.address q.channel log ≡ []
  unheard e =
      h.missing q (λ i lt. find_index-none (same_sender q) bs i blank_burst e (rw (h.slots) lt))

  senders-unheard :
      watched q ≡ true → sent q.address q.channel log ≡ [] → senders (q ∷ log) ≡ 1 + senders log
  unfolding senders
  senders-unheard w e = rw (w, e) refl

  fresh_place :
      (k : ℕ)
      → watched q ≡ true
      → find_index (same_sender q) bs ≡ none
      → find_index (λ b. not b.used) bs ≡ some k
      → Placed q log bs k (new_burst q)
  fresh_place k w e free =
      let (lt, unused) = find_index-some (λ b. not b.used) bs k blank_burst free in
      record {
        in_table = rw (sym h.slots) lt;
        own = record { in_use = refl; address_is = refl; channel_is = refl };
        ring =
            subst (IsRing (new_burst q)) (sym (unheard e))
              (new-IsRing (new_burst q) refl refl refl);
        others = λ j jt js.
            absurd
              (clash (find_index-none (same_sender q) bs j blank_burst e (rw (h.slots) jt)) js);
        before =
            λ o os. absurd (clash (unused_slot unused) (same_sender-IsOf o (slot bs k) os).in_use);
        used_count =
            unfold stamp in
            omega (
              arith,
              count_if-set (λ b. b.used) bs k (stamp (new_burst q) q.ms) lt,
              senders-unheard w (unheard e),
              h.used_count,
            );
      }
    where
      clash : {b : Bool} → b ≡ false → b ≡ true → ⊥
      clash f t = cc

      unused_slot : {b : Bool} → not b ≡ true → b ≡ false
      unused_slot {b} e = ground arith

  -- What a watched frame does to the table.
  pub record Write : Type 0 where
    pub place : ℕ
    pub burst : Burst
    pub placed : Placed q log bs place burst
    pub result : deauth_burst bs q ≡ (set bs place (stamp burst q.ms), full (stamp burst q.ms) q.ms)

  module _ (w : watched q ≡ true) where
    writes :
        (k : ℕ) (b : Burst)
        → burst_slot bs q ≡ (k, b)
        → deauth_burst bs q ≡ (set bs k (stamp b q.ms), full (stamp b q.ms) q.ms)
    unfolding deauth_burst
    writes k b e = rw (w, e) refl

    pub write : senders (q ∷ log) ≤ 16 → Write
    write fits = by_search (find_index (same_sender q) bs) refl
      where
        by_free :
            (r : Option ℕ)
            → find_index (same_sender q) bs ≡ none
            → find_index (λ b. not b.used) bs ≡ r
            → Write
        by_free (some k) e free = record {
          place = k;
          burst = new_burst q;
          placed = fresh_place k w e free;
          result =
              writes k (new_burst q)
                (unfold burst_slot free_burst in rw (e, burst_slot, free, free_burst) refl);
        }
        by_free none e free = absurd (
            omega
              (arith, fits, senders-unheard w (unheard e), h.used_count, h.slots, all_used bs free))

        by_search : (r : Option ℕ) → find_index (same_sender q) bs ≡ r → Write
        by_search (some i) e = record {
          place = i;
          burst = slot bs i;
          placed = known_place i e;
          result = writes i (slot bs i) (unfold burst_slot in rw (e, burst_slot) refl);
        }
        by_search none e = by_free (find_index (λ b. not b.used) bs) e refl
