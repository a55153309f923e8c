-- ===== src/Drones/Expiry.antt =====
-- What expiry and storing do to a track.
use surveillance_hound.Common.{
  ==→eq, and-true, ℕ, ◌-◌, ◌<◌, ◌≡◌, refl, sym, ap, subst, ◌∙◌, ◌≢◌, inl, inr, Bool, true, false,
  not, ◌&&◌, ◌||◌, arith, ltb, ◌==◌, Bool-cases, get_or, length, get_or-set_same, list_eq, test_bit,
  test_bit-set_bit, test_bit-clear_bit,
}
use surveillance_hound.Core.{Observation}
use surveillance_hound.Parsers.RemoteId.{RemoteId}
use surveillance_hound.Drones.{
  DroneTrack, stale, expire_one, expire, renew, message_slot, message, put_message, store, latest,
}

-- Expiry changes nothing of a track but its bits.
pub record Survives (t u : DroneTrack) : Type 0 where
  pub updated : u.updated ≡ t.updated
  pub address : u.address ≡ t.address
  pub address_type : u.address_type ≡ t.address_type
  pub messages : (j : ℕ) → message j u ≡ message j t

expire_one-Survives : (ms i : ℕ) (t : DroneTrack) → Survives t (expire_one ms i t)
unfolding expire_one message
expire_one-Survives ms i t = elim (Bool-cases (test_bit t.present i && stale ms t i)) [
  | inr e ↦
      rw (e) (record { updated = refl; address = refl; address_type = refl; messages = λ j. refl })
  | inl e ↦
      rw (e) (record { updated = refl; address = refl; address_type = refl; messages = λ j. refl })
]

Survives-then : (t u v : DroneTrack) → Survives t u → Survives u v → Survives t v
Survives-then t u v a b = record {
  updated = b.updated ∙ a.updated;
  address = b.address ∙ a.address;
  address_type = b.address_type ∙ a.address_type;
  messages = λ j. b.messages j ∙ a.messages j;
}

pub expire-Survives : (ms : ℕ) (t : DroneTrack) → Survives t (expire ms t)
unfolding expire
expire-Survives ms t =
    let t1 = expire_one ms 0 t in
    let t2 = expire_one ms 1 t1 in
    Survives-then t t2 (expire_one ms 2 t2)
      (Survives-then t t1 t2 (expire_one-Survives ms 0 t) (expire_one-Survives ms 1 t1))
      (expire_one-Survives ms 2 t2)

-- The bit of a message that is not stale stays.
bit-expire_one :
    (ms i k : ℕ) (t : DroneTrack)
    → stale ms t k ≡ false
    → test_bit (expire_one ms i t).present k ≡ test_bit t.present k
unfolding expire_one
bit-expire_one ms i k t fresh = elim (Bool-cases (test_bit t.present i && stale ms t i)) [
  | inr e ↦ rw (e) refl
  | inl e ↦ elim (Bool-cases (i == k)) [
    | inr f ↦ rw (e, test_bit-clear_bit t.present i k, f) refl
    | inl f ↦ absurd (clash (subst (λ x. stale ms t x ≡ true) (==→eq i k f) (stale_there e)) fresh)
  ]
]
  where
    stale_there : (test_bit t.present i && stale ms t i) ≡ true → stale ms t i ≡ true
    stale_there e = (and-true (test_bit t.present i) (stale ms t i) e).1

    clash : {b : Bool} → b ≡ true → b ≢ false
    clash h g = ground (arith, h, g)

still_fresh :
    (ms k : ℕ) (t u : DroneTrack)
    → u.updated ≡ t.updated
    → stale ms t k ≡ false
    → stale ms u k ≡ false
unfolding stale
still_fresh ms k t u same fresh = rw (same) fresh

pub bit-expire :
    (ms k : ℕ) (t : DroneTrack)
    → stale ms t k ≡ false
    → test_bit (expire ms t).present k ≡ test_bit t.present k
unfolding expire
bit-expire ms k t fresh =
    let t1 = expire_one ms 0 t in
    let t2 = expire_one ms 1 t1 in
    let f1 = still_fresh ms k t t1 (expire_one-Survives ms 0 t).updated fresh in
    let f2 = still_fresh ms k t1 t2 (expire_one-Survives ms 1 t1).updated f1 in
    bit-expire_one ms 2 k t2 f2 ∙ bit-expire_one ms 1 k t1 f1 ∙ bit-expire_one ms 0 k t fresh

-- Right after a message is stored, it is there.
pub record Stored (o : Observation) (r : RemoteId) (t : DroneTrack) : Type 0 where
  pub bit : test_bit t.present (message_slot r) ≡ true
  pub time : get_or t.updated (message_slot r) 0 ≡ o.ms
  pub address : t.address ≡ o.address
  pub address_type : t.address_type ≡ o.address_type
  pub message_is : message (message_slot r) t ≡ r

renewed :
    (o : Observation) (t : DroneTrack)
    → length t.updated ≡ 3
    → (length (renew o t).updated ≡ 3)
      × ((renew o t).address ≡ o.address)
      × ((renew o t).address_type ≡ o.address_type)
unfolding renew
renewed o t three =
    elim (Bool-cases (
      not (list_eq t.address o.address)
      || not (t.address_type == o.address_type)
      || ltb o.ms (latest t)
      || ltb 60000 (o.ms - latest t))) [
        | inl e ↦ rw (e) (refl, refl, refl)
        | inr e ↦ rw (e) (three, refl, refl)
      ]

message_slot-lt : (r : RemoteId) → message_slot r < 3
message_slot-lt r = ground arith

message-put_message :
    (slot : ℕ) (r : RemoteId) (t : DroneTrack) → message slot (put_message slot r t) ≡ r
unfolding message put_message
message-put_message slot r t = elim (Bool-cases (slot == 0)) [
  | inl e ↦ rw (e) refl
  | inr e ↦ elim (Bool-cases (slot == 1)) [ inl f ↦ rw (e, f) refl | inr f ↦ rw (e, f) refl ]
]

put_message_keeps :
    (slot : ℕ) (r : RemoteId) (t : DroneTrack)
    → ((put_message slot r t).updated ≡ t.updated)
      × ((put_message slot r t).address ≡ t.address)
      × ((put_message slot r t).address_type ≡ t.address_type)
unfolding put_message
put_message_keeps slot r t = elim (Bool-cases (slot == 0)) [
  | inl e ↦ rw (e) (refl, refl, refl)
  | inr e ↦ elim (Bool-cases (slot == 1)) [
    | inl f ↦ rw (e, f) (refl, refl, refl)
    | inr f ↦ rw (e, f) (refl, refl, refl)
  ]
]

pub store-Stored :
    (o : Observation) (r : RemoteId) (t : DroneTrack)
    → length t.updated ≡ 3
    → Stored o r (store o r t)
unfolding store
store-Stored o r t three =
    let n = renew o t in
    let (size, address, type) = renewed o t three in
    let u = expire o.ms n in
    let kept = expire-Survives o.ms n in
    let k = message_slot r in
    let (times, put_address, put_type) = put_message_keeps k r u in
    let v = put_message k r u in
    let size' : length v.updated ≡ 3 = ap length (times ∙ kept.updated) ∙ size in
    record {
      bit = test_bit-set_bit v.present k k ∙ ground arith;
      time =
          get_or-set_same v.updated k o.ms 0 (subst (λ x. k < x) (sym size') (message_slot-lt r));
      address = put_address ∙ kept.address ∙ address;
      address_type = put_type ∙ kept.address_type ∙ type;
      message_is = unfold message in message-put_message k r u;
    }
