-- ===== src/FollowScent.antt =====
-- components/sniffer_core/include/sniffer/follow.hpp: the one identity that is being followed.
-- `history` is the array of 30 samples, of which the first `count` are used. A uint64_t difference
-- that no test guards is written with its wrap-around.
pub mod Samples
pub mod Invariant
pub mod Signal
mod Tests
use surveillance_hound.Common.{
  ℕ, zero, suc, ◌+◌, ◌-◌, ◌/◌, Bool, true, false, not, ◌&&◌, ◌||◌, List, [], ◌∷◌, ◌++◌, ltb, leb,
  ◌==◌, if◌then◌else◌, bool_eq, get_or, set, replicate, drop, list_eq, sub64, length,
}
use surveillance_hound.Common.Int.{ℤ, pos, negsuc, ltb_ℤ, ◌-ℤ◌}
use surveillance_hound.Core.{
  Detection, Observation, Radio, radio_eq, wifi, SamsungTag, no_samsung_tag, samsung_valid,
  samsung_identity,
}
use surveillance_hound.Core.Category.{category_count}

pub data ScentSignal : Type 0 where
  none paused waiting fresh stale lost : ScentSignal

pub record Sample : Type 0 where
  pub ms : ℕ
  pub rssi : ℤ

abbrev pub blank_sample : Sample
blank_sample = record { ms = 0; rssi = pos 0 }

abbrev pub history_size : ℕ
history_size = 30

pub record FollowScent : Type 0 where
  pub address : List ℕ
  pub samsung : SamsungTag
  pub radio : Radio
  pub address_type : ℕ
  pub category : ℕ
  pub active : Bool
  pub demo : Bool
  pub received : Bool
  pub started : ℕ
  pub last_ms : ℕ
  pub accept_after : ℕ
  pub rssi : ℤ
  pub history : List Sample
  pub count : ℕ

-- FollowScent{}
abbrev pub idle_scent : FollowScent
idle_scent = record {
  address = replicate 6 0;
  samsung = no_samsung_tag;
  radio = wifi;
  address_type = 0;
  category = 0;
  active = false;
  demo = false;
  received = false;
  started = 0;
  last_ms = 0;
  accept_after = 0;
  rssi = pos 0;
  history = replicate history_size blank_sample;
  count = 0;
}

unfoldable pub select : Detection → ℕ → FollowScent
select d now = if leb category_count d.category then idle_scent else record idle_scent {
  active = true;
  demo = d.demo;
  address = d.address;
  samsung = if samsung_identity d then d.samsung else no_samsung_tag;
  radio = d.radio;
  address_type = d.address_type;
  category = d.category;
  started = now;
  accept_after = now;
}

unfoldable pub restart : FollowScent → ℕ → FollowScent
restart f now = record f { received = false; count = 0; started = now; accept_after = now }

-- The identity test of `observe`: an exact Samsung broadcast id, otherwise the address and its type.
unfoldable pub same_identity : FollowScent → Observation → Bool
same_identity f o =
    if samsung_valid f.samsung
    then samsung_valid o.samsung && list_eq f.samsung.id o.samsung.id
    else list_eq o.address f.address && (o.address_type == f.address_type)

unfoldable pub accepts : FollowScent → Observation → Bool → Bool
unfolding same_identity
accepts f o synthetic =
    f.active
    && bool_eq synthetic f.demo
    && same_identity f o
    && radio_eq o.radio f.radio
    && ltb f.accept_after o.ms
    && not (f.received && ltb o.ms f.last_ms)
    && not (ltb_ℤ (pos 0) o.rssi)
    && not (ltb_ℤ o.rssi (negsuc 125))

-- `std::move(begin + 1, end, begin)`: the last element stays where it is.
unfoldable pub shift : List Sample → List Sample
shift h = drop 1 h ++ (get_or h (length h - 1) blank_sample ∷ [])

-- One sample for each second: a sample of the same second is replaced; a full history is shifted.
unfoldable pub remember : FollowScent → Sample → FollowScent
unfolding shift
remember f s =
    if ltb 0 f.count && ((get_or f.history (f.count - 1) blank_sample).ms / 1000 == s.ms / 1000)
    then record f { history = set f.history (f.count - 1) s }
    else if f.count == history_size
    then record f { history = set (shift f.history) (f.count - 1) s; count = f.count - 1 + 1 }
    else record f { history = set f.history f.count s; count = f.count + 1 }

unfoldable pub observe : FollowScent → Observation → Bool → FollowScent × Bool
unfolding accepts remember
observe f o synthetic =
    if accepts f o synthetic
    then (
      remember
          (record f {
            address = o.address;
            address_type = o.address_type;
            received = true;
            last_ms = o.ms;
            rssi = o.rssi;
          })
          (record { ms = o.ms; rssi = o.rssi }),
      true,
    )
    else (f, false)

unfoldable pub state : FollowScent → ℕ → Bool → ScentSignal
state f now listening =
    if not f.active
    then none
    else if not listening
    then paused
    else if not f.received
    then if leb f.started now && leb 15000 (now - f.started) then lost else waiting
    else if ltb now f.last_ms || leb 15000 (now - f.last_ms)
    then lost
    else if leb (now - f.last_ms) 5000
    then fresh
    else stale

-- The loop of `trend`: `i` counts down over the pairs of neighbouring samples.
unfoldable pub trend_from : FollowScent → ℕ → ℤ
trend_from f zero = pos 0
trend_from f (suc i) =
    let before = get_or f.history i blank_sample in
    let age = sub64 f.last_ms before.ms in
    let rest = trend_from f i in
    if ltb 5000 (sub64 (get_or f.history (suc i) blank_sample).ms before.ms)
    then pos 0
    else if leb 2000 age && leb age 8000
    then f.rssi -ℤ before.rssi
    else rest

unfoldable pub trend : FollowScent → ℕ → ℤ
unfolding trend_from
trend f now =
    if ltb f.count 2 || ltb now f.last_ms || ltb 5000 (now - f.last_ms)
    then pos 0
    else trend_from f (f.count - 1)
