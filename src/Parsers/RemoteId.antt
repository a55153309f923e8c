-- ===== src/Parsers/RemoteId.antt =====
-- `parse_remote_id` of components/sniffer_core/parsers.cpp: one drone Remote ID message, of the type
-- basic id (0), location (1) or system (4). `m` is the message behind the four service bytes.
pub mod Bounds
mod Tests
use surveillance_hound.Common.{
  ℕ, zero, suc, ◌+◌, ◌-◌, ◌*◌, ◌/◌, ◌%◌, ◌^◌, ◌≤◌, ◌<◌, min, max, pred, ◌≡◌, refl, sym, ap, ap₂,
  subst, ◌∙◌, ◌≢◌, ◌↔◌, ◌⊎◌, inl, inr, Bool, true, false, not, ◌&&◌, ◌||◌, Option, none, some, List,
  [], ◌∷◌, ◌++◌, map, arith, ltb, leb, ◌==◌, if◌then◌else◌, bool_eq, to_bit, Bool-cases,
  Option-cases, byte_at, take, drop, length, all, replicate, test_bit,
}
use surveillance_hound.Common.Int.{ℤ, pos, negsuc, sub_ℕ, ltb_ℤ}
use mathlib.Core.Option
use surveillance_hound.Parsers.Bytes.{le16, le32s}

pub record RemoteId : Type 0 where
  pub type : ℕ
  pub latitude_e7 : ℤ
  pub longitude_e7 : ℤ
  pub location_valid : Bool
  pub id : List ℕ
  pub id_type : ℕ
  pub aircraft_type : ℕ
  pub status : ℕ
  pub altitude_dm : ℤ
  pub altitude_valid : Bool

-- RemoteId{}
abbrev pub blank_remote_id : RemoteId
blank_remote_id = record {
  type = 0;
  latitude_e7 = pos 0;
  longitude_e7 = pos 0;
  location_valid = false;
  id = replicate 20 0;
  id_type = 0;
  aircraft_type = 0;
  status = 0;
  altitude_dm = pos 0;
  altitude_valid = false;
}

abbrev zero_ℤ : ℤ → Bool
zero_ℤ z = not (ltb_ℤ z (pos 0)) && not (ltb_ℤ (pos 0) z)

-- The lambda `coordinates`; `none` is its false.
unfoldable pub coordinates : List ℕ → ℕ → RemoteId → Option RemoteId
coordinates m at r =
    let lat = le32s m at in
    let lon = le32s m (at + 4) in
    if ltb_ℤ lat (negsuc 899999999)
      || ltb_ℤ (pos 900000000) lat
      || ltb_ℤ lon (negsuc 1799999999)
      || ltb_ℤ (pos 1800000000) lon
    then none
    else some (record r {
      latitude_e7 = lat;
      longitude_e7 = lon;
      location_valid = not (zero_ℤ lat) || not (zero_ℤ lon);
    })

-- altitude_dm = alt * 5 - 10000
unfoldable pub altitude : ℕ → RemoteId → RemoteId
altitude alt r = record r { altitude_valid = not (alt == 0); altitude_dm = sub_ℕ (alt * 5) 10000 }

-- Printable characters, then zeros only.
unfoldable pub text_id : List ℕ → Bool → Bool
text_id [] ended = true
text_id (b ∷ bs) ended =
    let rest = text_id bs (ended || b == 0) in
    if b == 0 then rest else if ended || ltb b 32 || ltb 126 b then false else rest

unfoldable pub bad_basic : List ℕ → Bool
unfolding text_id
bad_basic m =
    let id = take 20 (drop 2 m) in
    let id_type = byte_at m 1 / 16 in
    ltb id_type 1
    || ltb 4 id_type
    || all (λ b. b == 0) id
    || (leb id_type 2 && not (text_id id false))
    || not (byte_at m 22 == 0)
    || not (byte_at m 23 == 0)
    || not (byte_at m 24 == 0)

unfoldable pub parse_basic : List ℕ → RemoteId → Option RemoteId
unfolding bad_basic
parse_basic m r =
    if bad_basic m
    then none
    else some (record r {
      id_type = byte_at m 1 / 16;
      aircraft_type = byte_at m 1 % 16;
      id = take 20 (drop 2 m);
    })

unfoldable pub bad_location : List ℕ → Bool
bad_location m =
    ltb 3 (byte_at m 1 / 16)
    || test_bit (byte_at m 1) 3
    || ltb 180 (byte_at m 2)
    || not (byte_at m 23 / 16 == 0)
    || not (byte_at m 24 == 0)

-- The time of the location, and then its altitude.
unfoldable pub finish_location : List ℕ → Option RemoteId → Option RemoteId
unfolding altitude
finish_location m none = none
finish_location m (some located) =
    if not (le16 m 21 == 0xffff) && ltb 36000 (le16 m 21)
    then none
    else some (altitude (le16 m 15) located)

unfoldable pub parse_location : List ℕ → RemoteId → Option RemoteId
unfolding bad_location coordinates finish_location
parse_location m r =
    if bad_location m
    then none
    else finish_location m (coordinates m 5 (record r { status = byte_at m 1 / 16 }))

unfoldable pub bad_system : List ℕ → Bool
bad_system m =
    not (byte_at m 1 / 32 == 0)
    || ltb 2 (byte_at m 1 % 4)
    || ltb 1 ((byte_at m 1 / 4) % 8)
    || not (byte_at m 24 == 0)

unfoldable pub parse_system : List ℕ → RemoteId → Option RemoteId
unfolding bad_system coordinates altitude
parse_system m r =
    if bad_system m then none else Option.map (altitude (le16 m 18)) (coordinates m 2 r)

unfoldable pub bad_header : List ℕ → Bool
bad_header p =
    not (length p == 29)
    || not (byte_at p 0 == 0xfa)
    || not (byte_at p 1 == 0xff)
    || not (byte_at p 2 == 0x0d)
    || not (byte_at p 4 % 16 == 2)

-- By the type of the message.
unfoldable pub parse_body : ℕ → List ℕ → RemoteId → Option RemoteId
unfolding parse_basic parse_location parse_system
parse_body type m r =
    if type == 0
    then parse_basic m r
    else if type == 1
    then parse_location m r
    else if type == 4
    then parse_system m r
    else none

unfoldable pub parse_remote_id : List ℕ → Option RemoteId
unfolding bad_header parse_body
parse_remote_id p =
    if bad_header p
    then none
    else parse_body (byte_at p 4 / 16) (drop 4 p)
        (record blank_remote_id { type = byte_at p 4 / 16 })
