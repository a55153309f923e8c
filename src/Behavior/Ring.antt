-- ===== src/Behavior/Ring.antt =====
-- A burst's ring of times as the log of its frames, newest first.
use surveillance_hound.Common.{
  get_or-set_other, get_or-set_same, ℕ, zero, suc, ◌+◌, ◌-◌, ◌%◌, ◌≤◌, ◌<◌, min, ◌≡◌, sym, ap,
  subst, ◌∙◌, ◌↔◌, true, false, List, [], ◌∷◌, arith, ◌==◌, get_or, set, length, length-set,
  replicate,
}
use surveillance_hound.Behavior.{Burst, stamp, full}

pub record IsRing (b : Burst) (log : List ℕ) : Type 0 where
  pub slots : length b.times ≡ 20
  pub next_lt : b.next < 20
  pub count_is : b.count ≡ min 20 (length log)
  pub reads :
      (k : ℕ) → k < 20 → k < length log → get_or b.times ((b.next + 19 - k) % 20) 0 ≡ get_or log k 0

-- The k-th newest of the ring sits k places before the newest.
turned : (n k : ℕ) → n < 20 → suc k < 20 → ((n + 1) % 20 + 19 - suc k) % 20 ≡ (n + 19 - k) % 20
turned n k hn hk = ground arith

newest : (n : ℕ) → n < 20 → ((n + 1) % 20 + 19 - 0) % 20 ≡ n
newest n hn = ground arith

apart :
    (n k : ℕ) → n < 20 → suc k < 20 → ((n + 19 - k) % 20 < 20) × (((n + 19 - k) % 20 == n) ≡ false)
apart n k hn hk = (omega arith, ground arith)

reads-stamp :
    (b : Burst) (log : List ℕ) (t k : ℕ)
    → IsRing b log
    → k < 20
    → k < length (t ∷ log)
    → get_or (set b.times b.next t) (((b.next + 1) % 20 + 19 - k) % 20) 0 ≡ get_or (t ∷ log) k 0
reads-stamp b log t zero h hk lt =
    ap (λ i. get_or (set b.times b.next t) i 0) (newest b.next h.next_lt)
    ∙ get_or-set_same b.times b.next t 0 (rw (h.slots) (h.next_lt))
reads-stamp b log t (suc k) h hk lt =
    ap (λ i. get_or (set b.times b.next t) i 0) (turned b.next k h.next_lt hk)
    ∙ get_or-set_other b.times b.next ((b.next + 19 - k) % 20) t 0 (apart b.next k h.next_lt hk).1
    ∙ h.reads k (omega arith) (omega arith)

-- Stamping a burst adds the time to the log that its ring holds.
pub stamp-IsRing : (b : Burst) (log : List ℕ) (t : ℕ) → IsRing b log → IsRing (stamp b t) (t ∷ log)
unfolding stamp
stamp-IsRing b log t h = record {
  slots = length-set b.times b.next t ∙ h.slots;
  next_lt = omega arith;
  count_is = ground (arith, h.count_is);
  reads = λ k. reads-stamp b log t k h;
}

-- Twenty frames of a log, newest first, in ten seconds.
pub record Bursting (log : List ℕ) (ms : ℕ) : Type 0 where
  pub enough : 20 ≤ length log
  pub started : get_or log 19 0 ≤ ms
  pub within : ms ≤ get_or log 19 0 + 10000

oldest : (n : ℕ) → n < 20 → (n + 19 - 19) % 20 ≡ n
oldest n lt = omega arith

oldest-reads :
    (b : Burst) (log : List ℕ)
    → IsRing b log
    → 20 ≤ length log
    → get_or b.times b.next 0 ≡ get_or log 19 0
oldest-reads b log h enough =
    ap (λ i. get_or b.times i 0) (sym (oldest b.next h.next_lt))
    ∙ h.reads 19 (omega arith) (omega arith)

full_parts :
    (b : Burst) (ms : ℕ)
    → full b ms ≡ true
    → (b.count ≡ 20) × (get_or b.times b.next 0 ≤ ms) × (ms ≤ get_or b.times b.next 0 + 10000)
unfolding full
full_parts b ms e = ground arith

-- The test for a burst is right about the log.
pub full-Bursting :
    (b : Burst) (log : List ℕ) (ms : ℕ) → IsRing b log → (full b ms ≡ true) ↔ Bursting log ms
unfolding full
full-Bursting b log ms h = (forth, back)
  where
    forth : full b ms ≡ true → Bursting log ms
    forth e =
        let (a, started, within) = full_parts b ms e in
        let enough : 20 ≤ length log = omega (arith, h.count_is) in
        let here = oldest-reads b log h enough in
        record {
          enough = enough;
          started = subst (λ x. x ≤ ms) here started;
          within = subst (λ x. ms ≤ x + 10000) here within;
        }

    back : Bursting log ms → full b ms ≡ true
    back g =
        ground (arith, oldest-reads b log h g.enough, h.count_is, g.enough, g.started, g.within)

pub new-IsRing : (b : Burst) → b.times ≡ replicate 20 0 → b.next ≡ 0 → b.count ≡ 0 → IsRing b []
new-IsRing b ht hn hc = record {
  slots = ap length ht;
  next_lt = omega arith;
  count_is = hc;
  reads = λ k hk lt. absurd (omega arith);
}
