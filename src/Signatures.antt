-- ===== src/Signatures.antt =====
-- Rule matching of components/sniffer_core/engine.cpp: hex prefixes, the evidence group and the
-- score cap of a rule, and `matches` for every kind of rule but behaviours.
pub mod Hex
pub mod Caps
mod Tests
use surveillance_hound.Common.{
  ℕ, zero, suc, ◌+◌, ◌-◌, ◌*◌, ◌/◌, ◌%◌, ◌^◌, ◌≤◌, ◌<◌, min, max, pred, ◌≡◌, refl, sym, ap, ap₂,
  subst, ◌∙◌, ◌≢◌, ◌↔◌, ◌⊎◌, inl, inr, Bool, true, false, not, ◌&&◌, ◌||◌, Option, none, some, List,
  [], ◌∷◌, ◌++◌, map, arith, ltb, leb, ◌==◌, if◌then◌else◌, bool_eq, to_bit, Bool-cases,
  Option-cases, byte_at, take, length, list_eq, test_bit,
}
use surveillance_hound.Common.Int.{ℤ, pos, negsuc, ltb_ℤ}
use surveillance_hound.Core.{
  Radio, wifi, ble, radio_eq, Kind, oui, ssid_exact, ssid_prefix, name_exact, name_prefix, uuid16,
  uuid128, company, payload, protocol, behavior, kind_index, Observation, Rule,
}
use surveillance_hound.Core.Text.{codes, c_string, starts_with}
use surveillance_hound.Parsers.RemoteId.{parse_remote_id}

-- -1 is `none`.
unfoldable pub hex : ℕ → Option ℕ
hex c =
    if leb b'0' c && leb c b'9'
    then some (c - b'0')
    else if leb b'A' c && leb c b'F'
    then some (c - b'A' + 10)
    else none

unfoldable pub hex_byte : Option ℕ → Option ℕ → ℕ → Bool
hex_byte (some a) (some b) d = d == a * 16 + b
hex_byte _ _ d = false

-- The loop of `hex_prefix`: two digits for each byte.
unfoldable pub hex_pairs : List ℕ → List ℕ → Bool
unfolding hex hex_byte
hex_pairs (a ∷ b ∷ value) (d ∷ bytes) = hex_byte (hex a) (hex b) d && hex_pairs value bytes
hex_pairs _ _ = true

unfoldable pub hex_prefix : List ℕ → List ℕ → Bool
unfolding hex_pairs
hex_prefix value bytes =
    if (length value == 0) || not (length value % 2 == 0) || ltb (length bytes) (length value / 2)
    then false
    else hex_pairs value bytes

-- Exact and prefix rules for SSIDs share a group, and so do those for names.
unfoldable pub group : Kind → ℕ
group k =
    kind_index k
    - to_bit (leb (kind_index ssid_prefix) (kind_index k))
    - to_bit (leb (kind_index name_prefix) (kind_index k))

abbrev pub kind_eq : Kind → Kind → Bool
kind_eq a b = kind_index a == kind_index b

unfoldable pub by_name : Kind → Bool
by_name k =
    kind_eq k name_exact || kind_eq k name_prefix || kind_eq k ssid_exact || kind_eq k ssid_prefix

unfoldable pub cap : Rule → Observation → ℕ
unfolding by_name
cap rule o =
    let limit =
      if rule.generic || (kind_eq rule.kind oui && test_bit (byte_at o.address 0) 1)
      then min rule.cap 49
      else rule.cap in
    if by_name rule.kind then min limit 79 else limit

abbrev pub signed8 : ℕ → ℤ
signed8 b = if leb 128 b then negsuc (255 - b) else pos b

-- Beacons and probe responses.
abbrev pub hosts_network : Observation → Bool
hosts_network o = (o.subtype == 8) || (o.subtype == 5)

abbrev pub ssid_of : Observation → List ℕ
ssid_of o = take o.ssid_len o.ssid

unfoldable pub any_uuid : List ℕ → List ℕ → Bool
unfolding hex_prefix
any_uuid v [] = false
any_uuid v (u ∷ us) = hex_prefix v (u / 256 % 256 ∷ u % 256 ∷ []) || any_uuid v us

unfoldable pub matches_ble_protocol : List ℕ → Observation → Bool
unfolding hex_prefix parse_remote_id
matches_ble_protocol v o =
    if list_eq v (codes "apple_find_my")
    then (o.manufacturer_len == 29) && hex_prefix (codes "4C001219") o.manufacturer
    else if list_eq v (codes "ibeacon")
    then (o.manufacturer_len == 25)
      && hex_prefix (codes "4C000215") o.manufacturer
      && not (ltb_ℤ (signed8 (byte_at o.manufacturer 24)) (negsuc 125))
      && not (ltb_ℤ (pos 20) (signed8 (byte_at o.manufacturer 24)))
    else if list_eq v (codes "find_hub")
    then ((o.service_len == 23) || (o.service_len == 24))
      && hex_prefix (codes "AAFE") o.service
      && ((byte_at o.service 2 == 0x40) || (byte_at o.service 2 == 0x41))
    else if list_eq v (codes "fast_pair_model")
    then (o.service_len == 5) && hex_prefix (codes "2CFE") o.service
    else if list_eq v (codes "remote_id")
    then elim (parse_remote_id (take o.service_len o.service)) [ none ↦ false | some rid ↦ true ]
    else false

unfoldable pub matches_protocol : List ℕ → Observation → Bool
unfolding matches_ble_protocol
matches_protocol v o =
    if list_eq v (codes "pwnagotchi")
    then radio_eq o.radio wifi && o.pwnagotchi
    else radio_eq o.radio ble && matches_ble_protocol v o

unfoldable pub matches_payload : List ℕ → Observation → Bool
unfolding hex_prefix
matches_payload v o =
    if radio_eq o.radio wifi
    then hex_prefix v (take o.vendor_len o.vendor)
    else hex_prefix v (take o.manufacturer_len o.manufacturer)

unfoldable pub matches_kind : Kind → List ℕ → Observation → Bool
unfolding hex_prefix any_uuid matches_payload matches_protocol c_string starts_with
matches_kind oui v o =
    radio_eq o.radio wifi && (byte_at o.address 0 % 4 == 0) && hex_prefix v o.address
matches_kind ssid_exact v o = radio_eq o.radio wifi && hosts_network o && list_eq (ssid_of o) v
matches_kind ssid_prefix v o = radio_eq o.radio wifi && hosts_network o && starts_with (ssid_of o) v
matches_kind name_exact v o = radio_eq o.radio ble && list_eq (c_string o.name) v
matches_kind name_prefix v o = radio_eq o.radio ble && starts_with (c_string o.name) v
matches_kind uuid16 v o =
    radio_eq o.radio ble && (length v == 4) && any_uuid v (take o.uuid_count o.uuids)
matches_kind uuid128 v o =
    radio_eq o.radio ble
    && (length v == 32)
    && not (o.uuid128_count == 0)
    && elim o.uuids128 [ [] ↦ false | u ∷ us ↦ hex_prefix v u ]
matches_kind company v o =
    radio_eq o.radio ble
    && leb 2 o.manufacturer_len
    && hex_prefix v (byte_at o.manufacturer 1 ∷ byte_at o.manufacturer 0 ∷ [])
matches_kind payload v o = matches_payload v o
matches_kind protocol v o = matches_protocol v o
matches_kind behavior v o = false

unfoldable pub matches : Rule → Observation → Bool
unfolding matches_kind
matches r o = matches_kind r.kind r.value o
