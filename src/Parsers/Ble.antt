-- ===== src/Parsers/Ble.antt =====
-- `parse_ble` of components/sniffer_core/parsers.cpp: a legacy advertisement, a chain of structures
-- of a length byte, a type byte and a value. The list is `data[i..]`. Each round of the loop consumes
-- the length byte at least, so as many rounds as there are bytes, and one more, are enough.
pub mod Framing
pub mod Fields
pub mod Bounds
mod Tests
use surveillance_hound.Common.{
  ℕ, zero, suc, ◌+◌, ◌-◌, ◌*◌, ◌/◌, ◌%◌, ◌^◌, ◌≤◌, ◌<◌, min, max, pred, ◌≡◌, refl, sym, ap, ap₂,
  subst, ◌∙◌, ◌≢◌, ◌↔◌, ◌⊎◌, inl, inr, Bool, true, false, not, ◌&&◌, ◌||◌, Option, none, some, List,
  [], ◌∷◌, ◌++◌, map, arith, ltb, leb, ◌==◌, if◌then◌else◌, bool_eq, to_bit, Bool-cases,
  Option-cases, get_or, set, byte_at, take, drop, length, all, replicate,
}
use mathlib.Core.Option
use surveillance_hound.Core.{Observation, SamsungTag, blank_observation, no_samsung_tag, ble}
use surveillance_hound.Parsers.Bytes.{le16, sanitize, copy_into}
use surveillance_hound.Parsers.Samsung.{parse_samsung_tag}
use mathlib.Core.List.{reverse}

-- The observation so far, and whether a complete name was seen.
pub record Progress : Type 0 where
  pub o : Observation
  pub full_name : Bool

unfoldable pub add_uuid16 : ℕ → Observation → Observation
add_uuid16 u o =
    if ltb o.uuid_count 8
    then record o { uuids = set o.uuids o.uuid_count u; uuid_count = o.uuid_count + 1 }
    else o

-- The loop over the pairs of bytes of a list of 16-bit identifiers.
unfoldable pub add_uuids16 : List ℕ → Observation → Observation
unfolding add_uuid16
add_uuids16 [] o = o
add_uuids16 (a ∷ []) o = o
add_uuids16 (a ∷ b ∷ v) o = add_uuids16 v (add_uuid16 (a + 256 * b) o)

-- `uuids128` has one place, so the body of the loop runs at most once, at the start of the value.
unfoldable pub add_uuids128 : List ℕ → Observation → Observation
add_uuids128 v o =
    if leb 16 (length v) && ltb o.uuid128_count 1
    then record o {
      uuids128 = set o.uuids128 o.uuid128_count (reverse (take 16 v));
      uuid128_count = o.uuid128_count + 1;
    }
    else o

unfoldable pub add_name : ℕ → List ℕ → Progress → Progress
add_name type v p = record {
  o = if type == 9 || not p.full_name then record (p.o) { name = sanitize v p.o.name } else p.o;
  full_name = p.full_name || type == 9;
}

unfoldable pub add_manufacturer : List ℕ → Observation → Observation
add_manufacturer v o = record o {
  manufacturer_len = length v;
  manufacturer = copy_into v o.manufacturer;
}

unfoldable pub add_service : List ℕ → Observation → Observation
unfolding add_uuid16
add_service v o =
    add_uuid16 (le16 v 0) (record o { service_len = length v; service = copy_into v o.service })

-- One structure. `none` refuses the advertisement.
unfoldable pub add_structure : ℕ → List ℕ → Progress → Option Progress
unfolding add_uuids16 add_uuids128 add_name add_manufacturer add_service
add_structure type v p =
    if type == 2 || type == 3
    then if length v % 2 == 0 then some (record p { o = add_uuids16 v p.o }) else none
    else if type == 6 || type == 7 || type == 0x21
    then if (if type == 0x21 then ltb (length v) 16 else not (length v % 16 == 0))
      then none
      else some (record p { o = add_uuids128 v p.o })
    else if type == 8 || type == 9
    then some (add_name type v p)
    else if type == 0xff
    then if ltb (length v) 2 || not (p.o.manufacturer_len == 0)
      then none
      else some (record p { o = add_manufacturer v p.o })
    else if type == 0x16
    then if ltb (length v) 2 || not (p.o.service_len == 0)
      then none
      else some (record p { o = add_service v p.o })
    else some p

unfoldable pub parse_structures : ℕ → List ℕ → Progress → Option Progress
parse_structures zero bytes p = none
parse_structures (suc fuel) [] p = some p
parse_structures (suc fuel) (n ∷ tail) p =
    let rest =
      Option.bind (add_structure (byte_at tail 0) (take (n - 1) (drop 1 tail)) p)
        (parse_structures fuel (drop n tail)) in
    if n == 0
    then if all (λ b. b == 0) tail then some p else none
    else if ltb (length tail) n
    then none
    else rest

-- What the parser starts from.
unfoldable pub begin_ble : Observation → Progress
begin_ble output = record {
  o = record blank_observation {
    ms = output.ms;
    rssi = output.rssi;
    address = output.address;
    address_type = output.address_type;
    radio = ble;
  };
  full_name = false;
}

-- A failed Samsung parse leaves the default tag.
unfoldable pub with_samsung : Observation → Observation
with_samsung o = elim (parse_samsung_tag (take o.service_len o.service)) [
  | none ↦ o
  | some tag ↦ record o { samsung = tag }
]

unfoldable pub parse_ble : List ℕ → Observation → Option Observation
unfolding begin_ble parse_structures with_samsung
parse_ble bytes output =
    if ltb 31 (length bytes)
    then none
    else Option.map (λ p. with_samsung p.o)
        (parse_structures (length bytes + 1) bytes (begin_ble output))
