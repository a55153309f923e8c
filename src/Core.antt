-- ===== src/Core.antt =====
-- components/sniffer_core/include/sniffer/core.hpp: the data that every component exchanges.
-- An enum that the code range-checks (Category) is its uint8_t value; the others are data types.
-- A `const Rule *` is the rule it points to, a null one `none`. A C string is its list of bytes.
pub mod Category
pub mod Text
use surveillance_hound.Common.{
  ℕ, ◌-◌, ◌^◌, ◌==◌, ltb, leb, test_bit, list_eq, replicate, List, [], ◌∷◌, Option, none, Bool,
  true, false, not, ◌&&◌,
}
use surveillance_hound.Common.Int.{ℤ, pos}
use Category.{category_count, samsung_tag}

pub data Radio : Type 0 where
  wifi ble : Radio

abbrev pub radio_index : Radio → ℕ
radio_index wifi = 0
radio_index ble = 1

abbrev pub radio_eq : Radio → Radio → Bool
radio_eq wifi wifi = true
radio_eq ble ble = true
radio_eq _ _ = false

pub data Kind : Type 0 where
  oui ssid_exact ssid_prefix name_exact name_prefix uuid16 uuid128 company payload protocol : Kind
  behavior : Kind

-- The enum's value.
abbrev pub kind_index : Kind → ℕ
kind_index oui = 0
kind_index ssid_exact = 1
kind_index ssid_prefix = 2
kind_index name_exact = 3
kind_index name_prefix = 4
kind_index uuid16 = 5
kind_index uuid128 = 6
kind_index company = 7
kind_index payload = 8
kind_index protocol = 9
kind_index behavior = 10

abbrev pub kind_count : ℕ
kind_count = 11

pub data SamsungState : Type 0 where
  unavailable unknown recently_separated offline long_offline connected : SamsungState

abbrev pub samsung_state_index : SamsungState → ℕ
samsung_state_index unavailable = 0
samsung_state_index unknown = 1
samsung_state_index recently_separated = 2
samsung_state_index offline = 3
samsung_state_index long_offline = 4
samsung_state_index connected = 5

abbrev pub samsung_state_eq : SamsungState → SamsungState → Bool
samsung_state_eq a b = samsung_state_index a == samsung_state_index b

pub record SamsungTag : Type 0 where
  pub id : List ℕ
  pub state : SamsungState

abbrev pub no_samsung_tag : SamsungTag
no_samsung_tag = record { id = replicate 8 0; state = unavailable }

abbrev pub samsung_valid : SamsungTag → Bool
samsung_valid t = not (samsung_state_eq t.state unavailable)

pub record Observation : Type 0 where
  pub ms : ℕ
  pub address : List ℕ
  pub radio : Radio
  pub address_type : ℕ
  pub channel : ℕ
  pub subtype : ℕ
  pub rssi : ℤ
  pub protected_network : Bool
  pub rsn : Bool
  pub contradiction : Bool
  pub rsn_caps : ℕ
  pub ssid : List ℕ
  pub ssid_len : ℕ
  pub name : List ℕ
  pub uuids : List ℕ
  pub uuid_count : ℕ
  pub uuid128_count : ℕ
  pub uuids128 : List (List ℕ)
  pub pwnagotchi : Bool
  pub vendor_fingerprint : ℕ
  pub manufacturer : List ℕ
  pub service : List ℕ
  pub manufacturer_len : ℕ
  pub service_len : ℕ
  pub vendor : List ℕ
  pub vendor_len : ℕ
  pub samsung : SamsungTag

-- Observation{}
abbrev pub blank_observation : Observation
blank_observation = record {
  ms = 0;
  address = replicate 6 0;
  radio = wifi;
  address_type = 0;
  channel = 0;
  subtype = 0;
  rssi = pos 0;
  protected_network = false;
  rsn = false;
  contradiction = false;
  rsn_caps = 0;
  ssid = replicate 32 0;
  ssid_len = 0;
  name = replicate 33 0;
  uuids = replicate 8 0;
  uuid_count = 0;
  uuid128_count = 0;
  uuids128 = replicate 16 0 ∷ [];
  pwnagotchi = false;
  vendor_fingerprint = 0;
  manufacturer = replicate 31 0;
  service = replicate 31 0;
  manufacturer_len = 0;
  service_len = 0;
  vendor = replicate 128 0;
  vendor_len = 0;
  samsung = no_samsung_tag;
}

pub record Rule : Type 0 where
  pub id : List ℕ
  pub category : ℕ
  pub kind : Kind
  pub value : List ℕ
  pub score : ℕ
  pub cap : ℕ
  pub generic : Bool
  pub label : List ℕ
  pub reason : List ℕ

pub record Detection : Type 0 where
  pub first_ms : ℕ
  pub last_ms : ℕ
  pub unix_seconds : ℕ
  pub rssi_sum : ℤ
  pub rules : List (Option Rule)
  pub seen_count : ℕ
  pub samsung : SamsungTag
  pub address : List ℕ
  pub category : ℕ
  pub radio : Radio
  pub address_type : ℕ
  pub channel : ℕ
  pub score : ℕ
  pub rule_count : ℕ
  pub rssi_min : ℤ
  pub rssi_max : ℤ
  pub meal : Bool
  pub demo : Bool

-- Detection{}
abbrev pub blank_detection : Detection
blank_detection = record {
  first_ms = 0;
  last_ms = 0;
  unix_seconds = 0;
  rssi_sum = pos 0;
  rules = replicate 4 none;
  seen_count = 0;
  samsung = no_samsung_tag;
  address = replicate 6 0;
  category = 0;
  radio = wifi;
  address_type = 0;
  channel = 0;
  score = 0;
  rule_count = 0;
  rssi_min = pos 0;
  rssi_max = pos 0;
  meal = false;
  demo = false;
}

unfoldable pub samsung_identity : Detection → Bool
samsung_identity d = (d.category == samsung_tag) && radio_eq d.radio ble && samsung_valid d.samsung

unfoldable pub samsung_connected : Detection → Bool
unfolding samsung_identity
samsung_connected d = samsung_identity d && samsung_state_eq d.samsung.state connected

pub record Settings : Type 0 where
  pub version : ℕ
  pub enabled_categories : ℕ
  pub threshold : ℕ
  pub region : ℕ
  pub brightness : ℕ
  pub character : ℕ
  pub sound : Bool
  pub low_feeding : Bool
  pub reduced_animation : Bool
  pub research : Bool
  pub raw_ssid : Bool
  pub onboarded : Bool
  pub ibeacon_alerts : Bool
  pub name : List ℕ
  pub portrait : Bool
  pub rotation_locked : Bool
  pub alert_categories : ℕ

unfoldable pub should_alert : Settings → Detection → Bool
should_alert s d =
    ltb d.category category_count
    && test_bit s.alert_categories d.category
    && leb s.threshold d.score
    && not (samsung_connected d)
