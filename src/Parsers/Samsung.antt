-- ===== src/Parsers/Samsung.antt =====
-- `parse_samsung_tag` of components/sniffer_core/parsers.cpp.
pub mod RoundTrip
mod Tests
use surveillance_hound.Common.{
  ℕ, zero, suc, ◌+◌, ◌-◌, ◌*◌, ◌/◌, ◌%◌, ◌^◌, ◌≤◌, ◌<◌, min, max, pred, ◌≡◌, refl, sym, ap, ap₂,
  subst, ◌∙◌, ◌≢◌, ◌↔◌, ◌⊎◌, inl, inr, Bool, true, false, not, ◌&&◌, ◌||◌, Option, none, some, List,
  [], ◌∷◌, ◌++◌, map, arith, ltb, leb, ◌==◌, if◌then◌else◌, bool_eq, to_bit, Bool-cases,
  Option-cases, byte_at, take, drop, length, all,
}
use surveillance_hound.Core.{
  SamsungTag, SamsungState, unknown, recently_separated, offline, long_offline, connected,
}

-- service[2] & 7
unfoldable pub samsung_state : ℕ → SamsungState
samsung_state k =
    if k == 1
    then recently_separated
    else if k == 2
    then offline
    else if k == 3
    then long_offline
    else if k == 5
    then connected
    else unknown

-- All zeros and all ones are no identities.
unfoldable pub blank_id : List ℕ → Bool
blank_id id = all (λ b. b == 0) id || all (λ b. b == 0xff) id

-- Not FD5A with the documented 20-byte version-1 payload.
unfoldable pub bad_packet : List ℕ → Bool
bad_packet service =
    not (length service == 22)
    || not (byte_at service 0 == 0x5a)
    || not (byte_at service 1 == 0xfd)
    || not ((byte_at service 2 / 8) % 32 == 2)

unfoldable pub parse_samsung_tag : List ℕ → Option SamsungTag
unfolding bad_packet samsung_state blank_id
parse_samsung_tag service =
    if bad_packet service
    then none
    else if blank_id (take 8 (drop 6 service))
    then none
    else some
        (record { id = take 8 (drop 6 service); state = samsung_state (byte_at service 2 % 8) })
