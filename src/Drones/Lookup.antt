-- ===== src/Drones/Lookup.antt =====
-- A message that comes in is found.
use surveillance_hound.Common.{
  ==→eq, ℕ, zero, suc, ◌+◌, ◌^◌, ◌≤◌, ◌<◌, ◌≡◌, refl, subst, ◌∙◌, inl, inr, Bool, true, false,
  Option, none, some, List, [], ◌∷◌, arith, ◌==◌, Bool-cases, get_or, set, take, length,
  get_or-set_same, find_index, find_index-some, min_index, min_index-lt, list_eq_refl, test_bit,
  All, All-get_or,
}
use native.Mathlib.Nat.{zero-div}
use surveillance_hound.Core.{Observation, ble, radio_eq}
use surveillance_hound.Parsers.RemoteId.{RemoteId, parse_remote_id}
use surveillance_hound.Drones.{
  DroneTrack, blank_track, tracks_address, track_slot, stale, expire, latest, message_slot, message,
  store, ingest, ingest_message, find, find_at,
}
use surveillance_hound.Drones.Expiry.{expire-Survives, bit-expire, Stored, store-Stored}

module _ {A : Type 0} (p : A → Bool) where
  find_index-set_found :
      (xs : List A) (i : ℕ) (v : A)
      → p v ≡ true
      → find_index p xs ≡ some i
      → find_index p (set xs i v) ≡ some i
  find_index-set_found [] i v h e = cc
  find_index-set_found (x ∷ xs) zero v h e = rw (h) refl
  find_index-set_found (x ∷ xs) (suc i) v h e = ground (arith, h, find_index-set_found xs i v h)

  find_index-set_new :
      (xs : List A) (i : ℕ) (v : A)
      → p v ≡ true
      → find_index p xs ≡ none
      → i < length xs
      → find_index p (set xs i v) ≡ some i
  find_index-set_new [] i v h e lt = absurd (omega arith)
  find_index-set_new (x ∷ xs) zero v h e lt = rw (h) refl
  find_index-set_new (x ∷ xs) (suc i) v h e lt = ground (arith, h, find_index-set_new xs i v h)

track_slot-set :
    (tracks : List DroneTrack) (p : DroneTrack → Bool) (found : Option ℕ) (v : DroneTrack)
    → find_index p tracks ≡ found
    → 0 < length tracks
    → p v ≡ true
    → (track_slot tracks found < length tracks)
      × (find_index p (set tracks (track_slot tracks found) v) ≡ some (track_slot tracks found))
unfolding track_slot
track_slot-set tracks p (some i) v e room h =
    ((find_index-some p tracks i blank_track e).0, find_index-set_found p tracks i v h e)
track_slot-set tracks p none v e room h =
    let lt = min_index-lt latest tracks room in
    (lt, find_index-set_new p tracks (min_index latest tracks) v h e lt)

test_bit-present : (m k : ℕ) → test_bit m k ≡ true → (m == 0) ≡ false
test_bit-present m k e = elim (Bool-cases (m == 0)) [
  | inr f ↦ f
  | inl f ↦
      absurd (ground (arith, zero-div (2 ^ k), subst (λ x. test_bit x k ≡ true) (==→eq m 0 f) e))
]

Stored-tracks_address :
    (o : Observation) (r : RemoteId) (t : DroneTrack)
    → Stored o r t
    → tracks_address o.address o.address_type t ≡ true
unfolding tracks_address
Stored-tracks_address o r t h =
    rw
      (
        test_bit-present t.present (message_slot r) h.bit,
        h.address,
        h.address_type,
        list_eq_refl o.address,
      )
      (ground arith)

-- The track of a drone shows a message.
pub Shows : RemoteId → Option DroneTrack → Type 0
Shows r none = ⊥
Shows r (some t) = (message (message_slot r) t ≡ r) × (test_bit t.present (message_slot r) ≡ true)

find_at-Shows :
    (tracks : List DroneTrack) (o : Observation) (r : RemoteId) (now i : ℕ)
    → o.ms ≤ now
    → now ≤ o.ms + 60000
    → Stored o r (get_or tracks i blank_track)
    → Shows r (find_at tracks now (some i)).1
unfolding find_at Shows
find_at-Shows tracks o r now i after soon h =
    let t = get_or tracks i blank_track in
    let u = expire now t in
    let k = message_slot r in
    let bit : test_bit u.present k ≡ true =
      bit-expire now k t (unfold stale in rw (h.time) (ground arith)) ∙ h.bit in
    rw (test_bit-present u.present k bit) ((expire-Survives now t).messages k ∙ h.message_is, bit)

-- A Remote ID message that is read from an advertisement is found under the sender's address for the
-- next minute.
pub find-ingest :
    (tracks : List DroneTrack) (o : Observation) (r : RemoteId) (now : ℕ)
    → 0 < length tracks
    → All (λ t. length t.updated ≡ 3) tracks
    → radio_eq o.radio ble ≡ true
    → parse_remote_id (take o.service_len o.service) ≡ some r
    → o.ms ≤ now
    → now ≤ o.ms + 60000
    → Shows r (find (ingest tracks o) o.address o.address_type now).1
unfolding ingest ingest_message find
find-ingest tracks o r now room sized heard read after soon =
    let p = tracks_address o.address o.address_type in
    let i = track_slot tracks (find_index p tracks) in
    let t = store o r (get_or tracks i blank_track) in
    let stored =
      store-Stored o r (get_or tracks i blank_track)
        (All-get_or (λ t. length t.updated ≡ 3) tracks i blank_track sized refl) in
    let (lt, found) =
      track_slot-set tracks p (find_index p tracks) t refl room
        (Stored-tracks_address o r t stored) in
    rw (heard, read, found)
      (find_at-Shows (set tracks i t) o r now i after soon
        (rw (get_or-set_same tracks i t blank_track lt) stored))
