-- ===== src/Drones/Tests.antt =====
-- A drone's location at concrete bytes.
use surveillance_hound.Common.{
  ℕ, ◌≡◌, refl, some, List, [], ◌∷◌, ◌++◌, arith, take, replicate, All-replicate, length,
}
use surveillance_hound.Common.Int.{negsuc}
use surveillance_hound.Core.{Observation, blank_observation, ble}
use surveillance_hound.Parsers.RemoteId.{RemoteId, blank_remote_id, parse_remote_id}
use surveillance_hound.Drones.{no_tracks, blank_track, ingest, find}
use surveillance_hound.Drones.Lookup.{Shows, find-ingest}

-- Type 1, status 0, no position and no altitude.
abbrev location_message : List ℕ
location_message = 0xfa ∷ 0xff ∷ 0x0d ∷ 0 ∷ 0x12 ∷ replicate 24 0

abbrev report : RemoteId
report = record blank_remote_id { type = 1; altitude_dm = negsuc 9999 }

abbrev drone_advert : Observation
drone_advert = record blank_observation {
  ms = 7000;
  radio = ble;
  service = location_message ++ (0 ∷ 0 ∷ []);
  service_len = 29;
}

message_is_read : parse_remote_id (take 29 (location_message ++ (0 ∷ 0 ∷ []))) ≡ some report
unfolding parse_remote_id
message_is_read = refl

find-ingest_example : Shows report (find (ingest no_tracks drone_advert) (replicate 6 0) 0 60000).1
find-ingest_example =
    find-ingest no_tracks drone_advert report 60000 (omega arith)
      (All-replicate (λ t. length t.updated ≡ 3) 8 blank_track refl) refl message_is_read
      (omega arith) (omega arith)
