-- ===== src/Drones.antt =====
-- `DroneCache` of components/sniffer_core/utilities.cpp: the last Remote ID messages of eight drones.
-- The three messages of a track are its basic id, its location and its system message.
pub mod Expiry
pub mod Lookup
mod Tests
use surveillance_hound.Common.{
  ℕ, zero, suc, ◌+◌, ◌-◌, ◌*◌, ◌/◌, ◌%◌, ◌^◌, ◌≤◌, ◌<◌, min, max, pred, ◌≡◌, refl, sym, ap, ap₂,
  subst, ◌∙◌, ◌≢◌, ◌↔◌, ◌⊎◌, inl, inr, Bool, true, false, not, ◌&&◌, ◌||◌, Option, none, some, List,
  [], ◌∷◌, ◌++◌, map, arith, ltb, leb, ◌==◌, if◌then◌else◌, bool_eq, to_bit, Bool-cases,
  Option-cases, get_or, set, take, replicate, find_index, min_index, list_eq, test_bit, set_bit,
  clear_bit,
}
use surveillance_hound.Core.{Observation, ble, radio_eq}
use surveillance_hound.Parsers.RemoteId.{RemoteId, blank_remote_id, parse_remote_id}

pub record DroneTrack : Type 0 where
  pub address : List ℕ
  pub address_type : ℕ
  pub present : ℕ
  pub updated : List ℕ
  pub basic : RemoteId
  pub location : RemoteId
  pub system : RemoteId

-- DroneTrack{}
abbrev pub blank_track : DroneTrack
blank_track = record {
  address = replicate 6 0;
  address_type = 0;
  present = 0;
  updated = 0 ∷ 0 ∷ 0 ∷ [];
  basic = blank_remote_id;
  location = blank_remote_id;
  system = blank_remote_id;
}

abbrev pub no_tracks : List DroneTrack
no_tracks = replicate 8 blank_track

-- std::max_element of `updated`
abbrev pub latest : DroneTrack → ℕ
latest t = max (get_or t.updated 0 0) (max (get_or t.updated 1 0) (get_or t.updated 2 0))

-- A present track of this address.
unfoldable pub tracks_address : List ℕ → ℕ → DroneTrack → Bool
tracks_address address type t =
    not (t.present == 0) && list_eq t.address address && (t.address_type == type)

-- The drone's own track, or the one that was updated first.
unfoldable pub track_slot : List DroneTrack → Option ℕ → ℕ
track_slot tracks (some i) = i
track_slot tracks none = min_index latest tracks

-- The message is absent or older than a minute, or the clock went back.
unfoldable pub stale : ℕ → DroneTrack → ℕ → Bool
stale ms t i = ltb ms (get_or t.updated i 0) || ltb 60000 (ms - get_or t.updated i 0)

unfoldable pub expire_one : ℕ → ℕ → DroneTrack → DroneTrack
unfolding stale
expire_one ms i t =
    if test_bit t.present i && stale ms t i then record t { present = clear_bit t.present i } else t

-- Drops the messages that are stale.
unfoldable pub expire : ℕ → DroneTrack → DroneTrack
unfolding expire_one
expire ms t = expire_one ms 2 (expire_one ms 1 (expire_one ms 0 t))

-- Another drone, or this one after more than a minute, starts a new track.
unfoldable pub renew : Observation → DroneTrack → DroneTrack
renew o t =
    let clear =
      not (list_eq t.address o.address)
      || not (t.address_type == o.address_type)
      || ltb o.ms (latest t)
      || ltb 60000 (o.ms - latest t) in
    record (if clear then blank_track else t) { address = o.address; address_type = o.address_type }

abbrev pub message_slot : RemoteId → ℕ
message_slot r = if r.type == 0 then 0 else if r.type == 1 then 1 else 2

-- (slot == 0 ? t->basic : slot == 1 ? t->location : t->system)
unfoldable pub message : ℕ → DroneTrack → RemoteId
message slot t = if slot == 0 then t.basic else if slot == 1 then t.location else t.system

unfoldable pub put_message : ℕ → RemoteId → DroneTrack → DroneTrack
put_message slot r t =
    if slot == 0
    then record t { basic = r }
    else if slot == 1
    then record t { location = r }
    else record t { system = r }

-- A message that was read, into its track.
unfoldable pub store : Observation → RemoteId → DroneTrack → DroneTrack
unfolding renew expire put_message
store o r t =
    let u = put_message (message_slot r) r (expire o.ms (renew o t)) in
    record u {
      updated = set u.updated (message_slot r) o.ms;
      present = set_bit u.present (message_slot r);
    }

unfoldable pub ingest_message : List DroneTrack → Observation → Option RemoteId → List DroneTrack
unfolding track_slot tracks_address store
ingest_message tracks o none = tracks
ingest_message tracks o (some r) =
    let i = track_slot tracks (find_index (tracks_address o.address o.address_type) tracks) in
    set tracks i (store o r (get_or tracks i blank_track))

unfoldable pub ingest : List DroneTrack → Observation → List DroneTrack
unfolding ingest_message parse_remote_id
ingest tracks o =
    if not (radio_eq o.radio ble)
    then tracks
    else ingest_message tracks o (parse_remote_id (take o.service_len o.service))

unfoldable pub find_at : List DroneTrack → ℕ → Option ℕ → List DroneTrack × Option DroneTrack
unfolding expire
find_at tracks now none = (tracks, none)
find_at tracks now (some i) =
    let t = expire now (get_or tracks i blank_track) in
    (set tracks i t, if t.present == 0 then none else some t)

-- The tracks afterwards, and the drone's track with the messages of the last minute.
unfoldable pub find : List DroneTrack → List ℕ → ℕ → ℕ → List DroneTrack × Option DroneTrack
unfolding find_at tracks_address
find tracks address type now = find_at tracks now (find_index (tracks_address address type) tracks)
