-- ===== src/Behavior/Senders.antt =====
-- The table of bursts as the logs of the frames of each sender, while it has room for all of them.
use surveillance_hound.Common.{
  ℕ, ◌+◌, ◌≤◌, ◌<◌, ◌≡◌, refl, sym, ap₂, ◌∙◌, inl, inr, Bool, true, false, ◌&&◌, ◌||◌, List, [],
  ◌∷◌, arith, ◌==◌, if◌then◌else◌, to_bit, Bool-cases, get_or, length, count_if, list_eq,
  list_eq_refl, eq_of_list_eq,
}
use surveillance_hound.Core.{Observation}
use surveillance_hound.Behavior.{Burst, deauth_burst, same_sender, no_bursts, blank_burst}
use surveillance_hound.Behavior.Ring.{IsRing}

-- A deauthentication or a disassociation.
abbrev pub watched : Observation → Bool
watched q = (q.subtype == 10) || (q.subtype == 12)

-- The times of a sender's watched frames on a channel in a log, newest first.
unfoldable pub sent : List ℕ → ℕ → List Observation → List ℕ
sent address channel [] = []
sent address channel (q ∷ log) =
    let rest = sent address channel log in
    if watched q && list_eq q.address address && (q.channel == channel) then q.ms ∷ rest else rest

-- How many senders a log has watched frames of.
unfoldable pub senders : List Observation → ℕ
unfolding sent
senders [] = 0
senders (q ∷ log) = to_bit (watched q && (length (sent q.address q.channel log) == 0)) + senders log

-- The table after the frames of a log, from an empty one on.
unfoldable pub after : List Observation → List Burst
after [] = no_bursts
after (q ∷ log) = (deauth_burst (after log) q).0

abbrev pub slot : List Burst → ℕ → Burst
slot bs i = get_or bs i blank_burst

-- Every slot in use holds the log of its sender, no two are of one sender, and none is missing.
pub record Tracks (log : List Observation) (bs : List Burst) : Type 0 where
  pub slots : length bs ≡ 16
  pub rings :
      (o : Observation) (i : ℕ)
      → i < 16
      → same_sender o (slot bs i) ≡ true
      → IsRing (slot bs i) (sent o.address o.channel log)
  pub unique :
      (o : Observation) (i j : ℕ)
      → i < 16
      → j < 16
      → same_sender o (slot bs i) ≡ true
      → same_sender o (slot bs j) ≡ true
      → i ≡ j
  pub missing :
      (o : Observation)
      → ((i : ℕ) → i < 16 → same_sender o (slot bs i) ≡ false)
      → sent o.address o.channel log ≡ []
  pub used_count : count_if (λ b. b.used) bs ≤ senders log

-- The burst of the sender.
pub record IsOf (o : Observation) (b : Burst) : Type 0 where
  pub in_use : b.used ≡ true
  pub address_is : b.address ≡ o.address
  pub channel_is : b.channel ≡ o.channel

pub same_sender-IsOf : (o : Observation) (b : Burst) → same_sender o b ≡ true → IsOf o b
unfolding same_sender
same_sender-IsOf o b e = record {
  in_use = ground (arith, e);
  address_is = eq_of_list_eq b.address o.address (ground (arith, e));
  channel_is = ground (arith, e);
}

pub IsOf-same_sender : (o : Observation) (b : Burst) → IsOf o b → same_sender o b ≡ true
unfolding same_sender
IsOf-same_sender o b h =
    rw (h.in_use, h.address_is, h.channel_is) (ground (arith, list_eq_refl o.address))

-- Two frames of one sender.
pub record Agree (o q : Observation) : Type 0 where
  pub address_is : o.address ≡ q.address
  pub channel_is : o.channel ≡ q.channel

pub same_sender-Agree :
    (o q : Observation) (b : Burst) → same_sender o b ≡ true → same_sender q b ≡ true → Agree o q
same_sender-Agree o q b ho hq =
    let mine = same_sender-IsOf o b ho in
    let yours = same_sender-IsOf q b hq in
    record {
      address_is = sym mine.address_is ∙ yours.address_is;
      channel_is = sym mine.channel_is ∙ yours.channel_is;
    }

pub Agree-same_sender :
    (o q : Observation) (b : Burst) → Agree o q → same_sender o b ≡ true → same_sender q b ≡ true
Agree-same_sender o q b h e =
    let mine = same_sender-IsOf o b e in
    IsOf-same_sender q b (record {
      in_use = mine.in_use;
      address_is = mine.address_is ∙ h.address_is;
      channel_is = mine.channel_is ∙ h.channel_is;
    })

-- A watched frame comes in front of its sender's log, and leaves the other logs alone.
pub sent_own :
    (q : Observation) (log : List Observation)
    → watched q ≡ true
    → sent q.address q.channel (q ∷ log) ≡ q.ms ∷ sent q.address q.channel log
unfolding sent
sent_own q log w = rw (w, list_eq_refl q.address) (ground arith)

pub sent-mine :
    (o q : Observation) (log : List Observation)
    → watched q ≡ true
    → Agree o q
    → sent o.address o.channel (q ∷ log) ≡ q.ms ∷ sent q.address q.channel log
sent-mine o q log w h = ap₂ (λ a c. sent a c (q ∷ log)) h.address_is h.channel_is ∙ sent_own q log w

pub sent-other :
    (o q : Observation) (log : List Observation)
    → ¬ Agree o q
    → sent o.address o.channel (q ∷ log) ≡ sent o.address o.channel log
unfolding sent
sent-other o q log differ =
    elim (Bool-cases (watched q && list_eq q.address o.address && (q.channel == o.channel))) [
      | inl e ↦ absurd (
          differ (record {
            address_is = sym (eq_of_list_eq q.address o.address (ground (arith, e)));
            channel_is = ground (arith, e);
          }))
      | inr e ↦ rw (e) refl
    ]

pub sent-unwatched :
    (address : List ℕ) (channel : ℕ) (q : Observation) (log : List Observation)
    → watched q ≡ false
    → sent address channel (q ∷ log) ≡ sent address channel log
unfolding sent
sent-unwatched address channel q log w = rw (w) refl
