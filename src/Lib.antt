-- ===== src/Lib.antt =====
-- Surveillance Hound: a verification of the firmware's core logic.
--
-- The program is an ESP32 firmware that listens to Wi-Fi management frames and Bluetooth
-- advertisements. `components/radio` hands each frame to a parser of `components/sniffer_core`, which
-- fills an observation; the engine matches it against rules and emits detections; the application
-- (`main/app_main.cpp`) passes these to the hound's needs and meals, the scent book, Travel Watch, Follow
-- Scent, the user interface and the storage worker.
--
-- Which file models which part (paths under components/sniffer_core unless they say otherwise):
--   Core, Core/Category     include/sniffer/core.hpp: Observation, Rule, Detection, Settings, should_alert
--   TagWatch                include/sniffer/tag_watch.hpp: start, clear, drop, observe, warning
--   FollowScent             include/sniffer/follow.hpp: select, restart, observe, state, trend
--   Companion               include/sniffer/companion.hpp: observe, unlock, ignore, validation, migration
--   Signatures              engine.cpp: hex, hex_prefix, group, cap, matches
--   Behavior                engine.cpp: Engine::behavior, Engine::remember_ap
--   Engine                  engine.cpp: Engine::ingest, Engine::recent_counts
--   Pet                     engine.cpp: decay_needs, tick, nourish, feed, stroke
--   MealGuard               engine.cpp: award, restore, snapshot
--   Parsers                 parsers.cpp: parse_ble, parse_wifi, parse_samsung_tag, parse_remote_id
--   Json                    json.cpp: parse, member, string, integer, raw
--   Records                 records.cpp: Writer, json_escape, valid_log_record
--   Privacy                 privacy.cpp: private_token, address_hash, meal_hash
--   Display                 include/sniffer/display.hpp: from_portrait, to_portrait
--   Storage/State, Store    components/storage/include/state.hpp and state_store.cpp
--   Storage/Snapshots       components/storage/include/storage_message.hpp: Snapshots, DeferredBackup
--   Storage/SaveRetry       include/sniffer/save_retry.hpp
--   Storage/IgnoreBackup    components/storage/ignore_backup.cpp
--   Storage/Recovery        components/storage/history_recovery.cpp
--   Drones                  utilities.cpp: DroneCache::ingest, DroneCache::find
--   Utilities               utilities.cpp: valid_battery, battery_mv, battery_percent, parse_utc
--   Appearance              include/sniffer/appearance.hpp: timeouts, validation, migration
--   Common                  arrays, machine words, bits and integers that the parts share
--
-- State and operations: an object is a record with the fields of the class, a method a function that
-- returns the new record (and what the method returns). A pointer into an array is an index. A fixed
-- array is a list of its length, which the invariants keep. A parser that returns false gives `none`.
-- A card or a disk is a function from paths to contents; which calls fail, and where a write is cut off,
-- is an argument; so it is for the flash store. hmac_sha256 and the memory layout of the saved records
-- are parameters. uint64_t times are natural numbers; where the source subtracts without a test that
-- keeps the difference from wrapping, or adds to the clock, the wrap-around is written out.
--
-- Fuel: the loop over the structures of an advertisement takes one round more than there are bytes;
-- each round consumes its length byte, and the framing theorem shows that this is enough; likewise the
-- loop over the elements of a management frame. The loop over the members of a JSON object or array
-- takes one round more than there are characters left; each round consumes one at least. A JSON value
-- takes one level of nesting from nine, which is the source's own limit, and a walk over the members
-- of an object that is already read takes as many rounds as there are token slots.
--
-- Not modelled: drivers and drawing (board, radio, ui), generated tables, the cryptographic library, the
-- writers of the log and export records, the export of the history, the storage worker's loop and the
-- application's.
pub mod Appearance
pub mod Behavior
pub mod Common
pub mod Companion
pub mod Core
pub mod Display
pub mod Drones
pub mod Engine
pub mod FollowScent
pub mod Json
pub mod MealGuard
pub mod Parsers
pub mod Pet
pub mod Privacy
pub mod Records
pub mod Signatures
pub mod Storage
pub mod TagWatch
pub mod Utilities
