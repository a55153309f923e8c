-- ===== src/Storage/State.antt =====
-- components/storage/include/state.hpp: what the firmware saves, its checks, and the older layouts. A float
-- is its 32-bit pattern. A flag is a truth value here, so the tests that a flag's byte is 0 or 1 hold.
use surveillance_hound.Common.{
  ℕ, ◌-◌, ◌/◌, ◌%◌, ◌^◌, Bool, true, false, not, ◌&&◌, ◌||◌, Option, none, some, List, [], ◌∷◌, ltb,
  leb, ◌==◌, if◌then◌else◌, all, byte_at, replicate, set_bit,
}
use surveillance_hound.Core.{Settings}
use surveillance_hound.Core.Category.{category_count, ibeacon}
use surveillance_hound.Pet.{Pet, new_pet}
use surveillance_hound.MealGuard.{MealStamp, blank_stamp}
use surveillance_hound.Utilities.{BatteryCalibration, valid_battery}
use surveillance_hound.Companion.{Companion, new_companion, valid_companion}
use surveillance_hound.Appearance.{Appearance, new_appearance, valid_appearance}

pub record Calibration : Type 0 where
  pub ax : ℕ
  pub bx : ℕ
  pub cx : ℕ
  pub ay : ℕ
  pub by : ℕ
  pub cy : ℕ
  pub valid : Bool

pub record State : Type 0 where
  pub version : ℕ
  pub settings : Settings
  pub pet : Pet
  pub calibration : Calibration
  pub recent : List MealStamp
  pub meal_key : List ℕ
  pub boots : ℕ
  pub reset_reason : ℕ
  pub battery : BatteryCalibration
  pub companion : Companion
  pub appearance : Appearance

-- Settings{}
abbrev pub new_settings : Settings
new_settings = record {
  version = 2;
  enabled_categories = 2 ^ category_count - 1;
  threshold = 50;
  region = 0;
  brightness = 70;
  character = 0;
  sound = false;
  low_feeding = false;
  reduced_animation = false;
  research = false;
  raw_ssid = false;
  onboarded = false;
  ibeacon_alerts = false;
  name = b'S' ∷ b'C' ∷ b'O' ∷ b'U' ∷ b'T' ∷ replicate 8 0;
  portrait = false;
  rotation_locked = true;
  alert_categories = 2 ^ category_count - 1 - 2 ^ ibeacon;
}

-- State{}
abbrev pub new_state : State
new_state = record {
  version = 5;
  settings = new_settings;
  pet = new_pet;
  calibration = record { ax = 0; bx = 0; cx = 0; ay = 0; by = 0; cy = 0; valid = false };
  recent = replicate 32 blank_stamp;
  meal_key = replicate 32 0;
  boots = 0;
  reset_reason = 0;
  battery = record { adc = replicate 3 0; millivolts = 3300 ∷ 3700 ∷ 4200 ∷ []; enabled = false };
  companion = new_companion;
  appearance = new_appearance;
}

-- StateV1 and StateV2 have these fields; the settings of the first layout are those that SettingsV1 has.
pub record OldState : Type 0 where
  pub version : ℕ
  pub settings : Settings
  pub pet : Pet
  pub calibration : Calibration
  pub recent : List MealStamp
  pub meal_key : List ℕ
  pub boots : ℕ
  pub reset_reason : ℕ

-- !std::isfinite(f) || std::abs(f) > 100000: the exponent is all ones, or the pattern without its sign is
-- above that of 100000.
unfoldable pub bad_float : ℕ → Bool
bad_float f = (f / 2 ^ 23 % 256 == 255) || ltb 0x47c35000 (f % 2 ^ 31)

unfoldable pub good_calibration : Calibration → Bool
unfolding bad_float
good_calibration c =
    not c.valid || all (λ f. not (bad_float f)) (c.ax ∷ c.bx ∷ c.cx ∷ c.ay ∷ c.by ∷ c.cy ∷ [])

unfoldable pub good_settings : Settings → ℕ → Bool
good_settings v version =
    (v.version == (if version == 1 then 1 else 2))
    && ltb v.character 6
    && ltb v.region 2
    && leb v.brightness 100
    && leb 1 v.brightness
    && (byte_at v.name 12 == 0)
    && ((v.threshold == 20) || (v.threshold == 50) || (v.threshold == 80))
    && (v.enabled_categories / 2 ^ category_count == 0)
    && all (λ c. (c == 0) || (leb 32 c && leb c 126)) v.name

unfoldable pub valid_state : ℕ → Settings → Pet → Calibration → ℕ → Bool
unfolding good_calibration good_settings
valid_state version settings pet calibration expected =
    good_calibration calibration
    && (version == expected)
    && good_settings settings expected
    && leb pet.fullness 100
    && leb pet.mood 100

unfoldable pub valid_current : State → Bool
unfolding valid_state
valid_current s =
    valid_state s.version s.settings s.pet s.calibration 5
    && valid_companion s.companion
    && valid_appearance s.appearance
    && (s.settings.alert_categories / 2 ^ category_count == 0)
    && (not s.battery.enabled || valid_battery s.battery)
    && all (λ (m : MealStamp). leb m.remaining_ms 1800000) s.recent
    && not (all (λ b. b == 0) s.meal_key)

unfoldable pub migrate_v2 : OldState → Option State
unfolding valid_state
migrate_v2 old =
    if not (valid_state old.version old.settings old.pet old.calibration 2)
      || not (old.settings.alert_categories / 2 ^ category_count == 0)
    then none
    else some (record new_state {
      settings = old.settings;
      pet = old.pet;
      calibration = old.calibration;
      recent = old.recent;
      meal_key = old.meal_key;
      boots = old.boots;
      reset_reason = old.reset_reason;
    })

-- The settings of the second layout that have the choices of the first; the version, the portrait mode,
-- the rotation lock and the alerts are those of a new device, with the iBeacon alerts as they were chosen.
unfoldable pub migrate_settings : Settings → Settings
migrate_settings old = record old {
  version = new_settings.version;
  portrait = new_settings.portrait;
  rotation_locked = new_settings.rotation_locked;
  alert_categories =
      if old.ibeacon_alerts
      then set_bit new_settings.alert_categories ibeacon
      else new_settings.alert_categories;
}

unfoldable pub migrate_v1 : OldState → Option State
unfolding valid_state migrate_settings
migrate_v1 old =
    if not (valid_state old.version old.settings old.pet old.calibration 1)
    then none
    else some (record new_state {
      settings = migrate_settings old.settings;
      pet = old.pet;
      calibration = old.calibration;
      recent = old.recent;
      meal_key = old.meal_key;
      boots = old.boots;
      reset_reason = old.reset_reason;
    })
