-- ===== src/Storage/Store/Layout.antt =====
-- The records of the saved state with their layouts, and the checksum that runs over them.
use Prim.Native.Nat.{bit_xor}
use surveillance_hound.Common.{
  ℕ, zero, suc, ◌-◌, ◌*◌, ◌/◌, ◌%◌, ◌^◌, Option, none, some, List, [], ◌∷◌,
}
use surveillance_hound.Core.{Settings}
use surveillance_hound.Pet.{Pet}
use surveillance_hound.MealGuard.{MealStamp}
use surveillance_hound.Utilities.{BatteryCalibration}
use surveillance_hound.Companion.{Companion, OldCompanion}
use surveillance_hound.Appearance.{Appearance, AppearanceV1, AppearanceV2}
use surveillance_hound.Storage.State.{Calibration}

-- One of the eight rounds of `checksum` for a byte.
unfoldable pub crc_bits : ℕ → ℕ → ℕ
crc_bits zero crc = crc
crc_bits (suc n) crc = crc_bits n (bit_xor (crc / 2) (0xedb88320 * (crc % 2)))

unfoldable pub crc_bytes : ℕ → List ℕ → ℕ
unfolding crc_bits
crc_bytes crc [] = crc
crc_bytes crc (b ∷ bytes) = crc_bytes (crc_bits 8 (bit_xor crc b)) bytes

unfoldable pub checksum : List ℕ → ℕ
unfolding crc_bytes
checksum bytes = 2 ^ 32 - 1 - crc_bytes (2 ^ 32 - 1) bytes

pub record ConfigRecord : Type 0 where
  pub settings : Settings
  pub calibration : Calibration
  pub battery : BatteryCalibration

pub record PetRecord : Type 0 where
  pub pet : Pet
  pub recent : List MealStamp
  pub key : List ℕ

pub record BootRecordV3 : Type 0 where
  pub boots : ℕ
  pub reason : ℕ

pub record BootRecord : Type 0 where
  pub boots : ℕ
  pub reason : ℕ
  pub version : ℕ

-- The value of an envelope, with its layout.
pub data Part : Type 0 where
  config : ConfigRecord → Part
  pets : PetRecord → Part
  boot : BootRecord → Part
  boot_v3 : BootRecordV3 → Part
  scents : Companion → Part
  scents_v1 : OldCompanion → Part
  look : Appearance → Part
  look_v2 : AppearanceV2 → Part
  look_v1 : AppearanceV1 → Part

pub record Envelope : Type 0 where
  pub version : ℕ
  pub generation : ℕ
  pub crc : ℕ
  pub value : Part

-- The names of the parts of the store.
pub data Space : Type 0 where
  hound_settings hound_pet hound_system hound_companion hound_look : Space

abbrev pub space_index : Space → ℕ
space_index hound_settings = 0
space_index hound_pet = 1
space_index hound_system = 2
space_index hound_companion = 3
space_index hound_look = 4

unfoldable pub as_config : Part → Option ConfigRecord
as_config (config c) = some c
as_config p = none

unfoldable pub as_pets : Part → Option PetRecord
as_pets (pets c) = some c
as_pets p = none

unfoldable pub as_boot : Part → Option BootRecord
as_boot (boot c) = some c
as_boot p = none

unfoldable pub as_boot_v3 : Part → Option BootRecordV3
as_boot_v3 (boot_v3 c) = some c
as_boot_v3 p = none

unfoldable pub as_scents : Part → Option Companion
as_scents (scents c) = some c
as_scents p = none

unfoldable pub as_scents_v1 : Part → Option OldCompanion
as_scents_v1 (scents_v1 c) = some c
as_scents_v1 p = none

unfoldable pub as_look : Part → Option Appearance
as_look (look c) = some c
as_look p = none

unfoldable pub as_look_v2 : Part → Option AppearanceV2
as_look_v2 (look_v2 c) = some c
as_look_v2 p = none

unfoldable pub as_look_v1 : Part → Option AppearanceV1
as_look_v1 (look_v1 c) = some c
as_look_v1 p = none
