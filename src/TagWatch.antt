-- ===== src/TagWatch.antt =====
-- components/sniffer_core/include/sniffer/tag_watch.hpp: the Travel Watch table of tags that stay
-- nearby. A pointer to an entry is its index in `entries`. Times are uint64_t milliseconds; every
-- subtraction of the source stands behind a test that keeps it from wrapping.
pub mod Outcome
pub mod Invariant
pub mod History
mod Tests
use surveillance_hound.Common.{
  ℕ, ◌+◌, ◌-◌, ◌/◌, ◌^◌, ◌==◌, ltb, leb, bool_eq, if◌then◌else◌, min, List, replicate, get_or, set,
  find_index, Option, none, some, Bool, true, false, not, ◌&&◌, ◌||◌,
}
use surveillance_hound.Core.{Detection, ble, radio_eq, samsung_connected}
use surveillance_hound.Core.Category.{airtag, samsung_tag, tile, google_tag}

abbrev pub duration : ℕ
duration = 600000

abbrev pub gap : ℕ
gap = 120000

abbrev pub required_minutes : ℕ
required_minutes = 8

pub record Entry : Type 0 where
  pub hash : ℕ
  pub first : ℕ
  pub last : ℕ
  pub minutes : ℕ
  pub category : ℕ
  pub score : ℕ
  pub acknowledged : Bool

abbrev pub blank_entry : Entry
blank_entry = record {
  hash = 0;
  first = 0;
  last = 0;
  minutes = 0;
  category = 0;
  score = 0;
  acknowledged = false;
}

unfoldable pub fresh : Entry → ℕ → Bool
fresh e now = not (e.hash == 0) && leb e.last now && leb (now - e.last) gap

unfoldable pub ready : Entry → ℕ → Bool
unfolding fresh
ready e now =
    fresh e now
    && leb e.first e.last
    && leb duration (e.last - e.first)
    && leb required_minutes e.minutes

pub record TagWatch : Type 0 where
  pub entries : List Entry
  pub started : ℕ
  pub gap_resets : ℕ
  pub filter_resets : ℕ
  pub clock_skips : ℕ
  pub armed : Bool
  pub demo : Bool
  pub flash : Bool

abbrev pub no_entries : List Entry
no_entries = replicate 16 blank_entry

-- TagWatch{}
abbrev pub idle_watch : TagWatch
idle_watch = record {
  entries = no_entries;
  started = 0;
  gap_resets = 0;
  filter_resets = 0;
  clock_skips = 0;
  armed = false;
  demo = false;
  flash = true;
}

unfoldable pub tag : ℕ → Bool
tag c = (c == airtag) || (c == samsung_tag) || (c == tile) || (c == google_tag)

unfoldable pub start : TagWatch → ℕ → Bool → TagWatch
start w now synthetic = record w {
  entries = no_entries;
  started = now;
  demo = synthetic;
  armed = true;
  gap_resets = 0;
  filter_resets = 0;
  clock_skips = 0;
}

unfoldable pub clear : TagWatch → TagWatch
clear w = record w { entries = no_entries; armed = false }

unfoldable pub find : ℕ → List Entry → Option ℕ
find hash es = find_index (λ e. not (hash == 0) && (e.hash == hash)) es

-- A uint32_t counter that stops at its maximum.
unfoldable pub bump : ℕ → ℕ
bump n = if n == 2 ^ 32 - 1 then n else n + 1

unfoldable pub drop : TagWatch → ℕ → Bool → TagWatch
unfolding bump
drop w i gap_expired =
    if (get_or w.entries i blank_entry).hash == 0
    then w
    else if gap_expired
    then record w { gap_resets = bump w.gap_resets; entries = set w.entries i blank_entry }
    else record w { filter_resets = bump w.filter_resets; entries = set w.entries i blank_entry }

-- The first test of `observe`: what is not watched at all.
unfoldable pub admits : TagWatch → ℕ → Detection → Bool
unfolding tag
admits w hash d =
    w.armed
    && not (hash == 0)
    && tag d.category
    && radio_eq d.radio ble
    && bool_eq d.demo w.demo
    && leb 50 d.score
    && leb d.score 100
    && leb w.started d.last_ms

-- {hash, d.last_ms, d.last_ms, 1, d.category, d.score, false}
unfoldable pub first_sighting : ℕ → Detection → Entry
first_sighting hash d = record {
  hash = hash;
  first = d.last_ms;
  last = d.last_ms;
  minutes = 1;
  category = d.category;
  score = d.score;
  acknowledged = false;
}

-- Counts an occupied minute bin, then moves `last`.
unfoldable pub next_sighting : Detection → Entry → Entry
next_sighting d e = record e {
  minutes =
      if (d.last_ms - e.first) / 60000 == (e.last - e.first) / 60000
      then e.minutes
      else min 65535 (e.minutes + 1);
  last = d.last_ms;
  score = d.score;
}

-- The end of `observe`, at the entry that was chosen.
unfoldable pub sight : TagWatch → ℕ → Detection → ℕ → TagWatch
unfolding drop first_sighting next_sighting
sight w hash d i =
    let e = get_or w.entries i blank_entry in
    if e.hash == 0
    then record w { entries = set w.entries i (first_sighting hash d) }
    else if ltb gap (d.last_ms - e.last)
    then record (drop w i true) { entries = set (drop w i true).entries i (first_sighting hash d) }
    else record w { entries = set w.entries i (next_sighting d e) }

-- A known identity: a sighting that is no newer is ignored.
unfoldable pub resight : TagWatch → ℕ → Detection → ℕ → TagWatch
unfolding sight
resight w hash d i =
    if leb d.last_ms (get_or w.entries i blank_entry).last then w else sight w hash d i

-- A new identity takes the first slot that is not fresh, or none.
unfoldable pub enrol : TagWatch → ℕ → Detection → Option ℕ → TagWatch
unfolding sight
enrol w hash d none = w
enrol w hash d (some i) = sight (record w { entries = set w.entries i blank_entry }) hash d i

unfoldable pub stale_slot : List Entry → ℕ → Option ℕ
unfolding fresh
stale_slot es now = find_index (λ e. not (fresh e now)) es

unfoldable pub track : TagWatch → ℕ → Detection → ℕ → Option ℕ → TagWatch
unfolding resight enrol stale_slot
track w hash d now none = enrol w hash d (stale_slot w.entries now)
track w hash d now (some i) = resight w hash d i

-- A connected Samsung tag is with its owner: its entry goes.
unfoldable pub dismiss : TagWatch → Detection → Option ℕ → TagWatch
unfolding drop
dismiss w d none = w
dismiss w d (some i) =
    if leb (get_or w.entries i blank_entry).last d.last_ms then drop w i false else w

unfoldable pub observe : TagWatch → ℕ → Detection → ℕ → TagWatch
unfolding admits find track dismiss bump
observe w hash d now =
    if not (admits w hash d)
    then w
    else if ltb now d.last_ms
    then record w { clock_skips = bump w.clock_skips }
    else if ltb gap (now - d.last_ms)
    then w
    else if samsung_connected d
    then dismiss w d (find hash w.entries)
    else track w hash d now (find hash w.entries)

unfoldable pub warning : TagWatch → ℕ → Option ℕ
unfolding ready
warning w now =
    if w.armed then find_index (λ e. ready e now && not e.acknowledged) w.entries else none
