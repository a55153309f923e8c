-- ===== src/Parsers/Wifi.antt =====
-- `parse_wifi`, `rsn_valid` and `parse_pwnagotchi` of components/sniffer_core/parsers.cpp: a management
-- frame, a chain of elements of a type byte, a length byte and a value. Each round of the loop consumes
-- two bytes at least, so as many rounds as there are bytes, and one more, are enough.
pub mod Frames
pub mod Names
pub mod Elements
pub mod Reading
mod Tests
use Prim.Native.Nat.{bit_xor}
use surveillance_hound.Common.{
  ℕ, zero, suc, ◌+◌, ◌-◌, ◌*◌, ◌/◌, ◌%◌, ◌^◌, ◌≤◌, ◌<◌, min, max, pred, ◌≡◌, refl, sym, ap, ap₂,
  subst, ◌∙◌, ◌≢◌, ◌↔◌, ◌⊎◌, inl, inr, Bool, true, false, not, ◌&&◌, ◌||◌, Option, none, some, List,
  [], ◌∷◌, ◌++◌, map, arith, ltb, leb, ◌==◌, if◌then◌else◌, bool_eq, to_bit, Bool-cases,
  Option-cases, byte_at, take, drop, length, all, list_eq, test_bit, ◌>>=◌, ◌>>◌, guard,
}
use surveillance_hound.Common.Int.{ℤ, pos, negsuc}
use surveillance_hound.Core.{Observation, blank_observation, wifi}
use surveillance_hound.Core.Text.{codes, c_string}
use surveillance_hound.Json.{
  Reader, token, object, type_eq, parse, member, integer, string_into, string_of,
}
use surveillance_hound.Parsers.Bytes.{le16, sanitize, copy_into}

-- One round of the loop over the suite groups; the list is the rest of the element.
unfoldable pub skip_suites : List ℕ → Option (List ℕ)
skip_suites v =
    if ltb (length v) 2 || (le16 v 0 == 0) || ltb ((length v - 2) / 4) (le16 v 0)
    then none
    else some (drop (le16 v 0 * 4) (drop 2 v))

-- The capabilities; none at all are zero.
unfoldable pub rsn_caps_of : List ℕ → Option ℕ
rsn_caps_of [] = some 0
rsn_caps_of (a ∷ v) = if ltb (length (a ∷ v)) 2 then none else some (le16 (a ∷ v) 0)

unfoldable pub rsn_valid : List ℕ → Option ℕ
unfolding skip_suites rsn_caps_of
rsn_valid v = do
  guard (not (ltb (length v) 8) && (le16 v 0 == 1))
  v1 ← skip_suites (drop 6 v)
  v2 ← skip_suites v1
  rsn_caps_of v2

unfoldable pub small_total : Option ℤ → Bool
small_total none = false
small_total (some (negsuc n)) = false
small_total (some (pos n)) = leb n 0xffffffff

-- A text that is read and not empty.
unfoldable pub filled : Option (List ℕ) → Bool
filled none = false
filled (some v) = not (byte_at v 0 == 0)

unfoldable pub text_member : List ℕ → Reader → List ℕ → ℕ → Option (List ℕ)
text_member text r key size = do t ← member text r (some 0) key; string_of text r t size

-- `parse_pwnagotchi` once the text is read.
unfoldable pub read_pwnagotchi : List ℕ → Reader → List ℕ → List ℕ × Bool
unfolding small_total filled text_member
read_pwnagotchi text r name =
    let (name', read) = string_into text r (member text r (some 0) (codes "name")) name in
    let printable =
      not (byte_at name' 0 == 0) && all (λ c. leb 32 c && leb c 126) (c_string name') in
    if not (type_eq (token r 0).type object)
      || not (small_total (integer text r (member text r (some 0) (codes "pwnd_tot"))))
    then (name, false)
    else (name', read && printable && filled (text_member text r (codes "version") 33))

-- The name buffer afterwards, and whether the text is an advertisement of a Pwnagotchi.
unfoldable pub parse_pwnagotchi : List ℕ → List ℕ → List ℕ × Bool
unfolding read_pwnagotchi
parse_pwnagotchi text name = elim (parse text) as (λ o. List ℕ × Bool) [
  | none ↦ (name, false)
  | some r ↦ read_pwnagotchi text r name
]

-- The observation so far, the used part of `pwn`, and whether an SSID was seen.
pub record Progress : Type 0 where
  pub o : Observation
  pub pwn : List ℕ
  pub ssid_seen : Bool

unfoldable pub fingerprint : ℕ → List ℕ → ℕ
fingerprint h [] = h
fingerprint h (b ∷ bs) = fingerprint (bit_xor h b * 16777619 % 2 ^ 32) bs

unfoldable pub add_ssid : List ℕ → Progress → Option Progress
unfolding sanitize copy_into
add_ssid v p =
    if p.ssid_seen || ltb 32 (length v)
    then none
    else some (record p {
      ssid_seen = true;
      o = record p.o {
        ssid_len = length v;
        ssid = copy_into v p.o.ssid;
        name = sanitize v p.o.name;
      };
    })

unfoldable pub add_rsn : List ℕ → Progress → Option Progress
unfolding rsn_valid
add_rsn v p = do
  guard (not p.o.rsn)
  caps ← rsn_valid v
  some (record p { o = record p.o { rsn = true; rsn_caps = caps; protected_network = true } })

unfoldable pub add_pwn : List ℕ → Progress → Option Progress
add_pwn v p =
    if ltb 472 (length p.pwn + length v) then none else some (record p { pwn = p.pwn ++ v })

unfoldable pub add_vendor : List ℕ → Progress → Progress
unfolding fingerprint copy_into
add_vendor v p = record p {
  o = record p.o {
    vendor_fingerprint = fingerprint 2166136261 (take 4 v);
    vendor_len = min (length v) 128;
    vendor = copy_into (take (min (length v) 128) v) p.o.vendor;
  };
}

unfoldable pub add_element : ℕ → List ℕ → Progress → Option Progress
unfolding add_ssid add_rsn add_pwn add_vendor
add_element type v p =
    if type == 0
    then add_ssid v p
    else if type == 48
    then add_rsn v p
    else if type == 222
    then add_pwn v p
    else if (type == 221) && leb 3 (length v) && (p.o.vendor_len == 0)
    then some (add_vendor v p)
    else some p

-- The loop over the elements; the list is the rest of the frame.
unfoldable pub parse_elements : ℕ → List ℕ → Progress → Option Progress
unfolding add_element
parse_elements zero bytes p = none
parse_elements (suc fuel) [] p = some p
parse_elements (suc fuel) (type ∷ []) p = none
parse_elements (suc fuel) (type ∷ n ∷ bytes) p =
    if ltb (length bytes) n
    then none
    else (do p' ← add_element type (take n bytes) p; parse_elements fuel (drop n bytes) p')

abbrev pub mesh : List ℕ
mesh = 0xde ∷ 0xad ∷ 0xbe ∷ 0xef ∷ 0xde ∷ 0xad ∷ []

-- A beacon that carries the text of a Pwnagotchi takes its address from the frame's third address.
unfoldable pub add_pwnagotchi : List ℕ → Progress → Observation
unfolding parse_pwnagotchi
add_pwnagotchi frame p =
    let (name, found) = parse_pwnagotchi p.pwn p.o.name in
    if (length p.pwn == 0) || not (p.o.subtype == 8) || not (list_eq p.o.address mesh)
    then p.o
    else record p.o {
      name = name;
      pwnagotchi = found;
      address = if found then take 6 (drop 16 frame) else p.o.address;
    }

-- What every frame starts with.
unfoldable pub begin_wifi : List ℕ → Observation → Observation
begin_wifi frame output = record blank_observation {
  ms = output.ms;
  channel = output.channel;
  rssi = output.rssi;
  radio = wifi;
  subtype = byte_at frame 0 / 16;
  address = take 6 (drop 10 frame);
}

abbrev pub fixed_size : ℕ → ℕ
fixed_size subtype = if subtype == 4 then 24 else 36

unfoldable pub finish_wifi : List ℕ → Progress → Option Observation
unfolding add_pwnagotchi
finish_wifi frame p =
    let o = add_pwnagotchi frame p in if not p.ssid_seen && not o.pwnagotchi then none else some o

unfoldable pub parse_body : List ℕ → Observation → Option Observation
unfolding parse_elements finish_wifi
parse_body frame o = do
  guard ((o.subtype == 8) || (o.subtype == 5) || (o.subtype == 4))
  guard (not (ltb (length frame) (fixed_size o.subtype)))
  let protected = not (o.subtype == 4) && test_bit (le16 frame 34) 4
  p ←
      parse_elements (suc (length frame)) (drop (fixed_size o.subtype) frame)
        (record { o = record o { protected_network = protected }; pwn = []; ssid_seen = false })
  finish_wifi frame p

unfoldable pub parse_wifi : List ℕ → Observation → Option Observation
unfolding begin_wifi parse_body
parse_wifi frame output =
    let o = begin_wifi frame output in
    if ltb (length frame) 24 || not (byte_at frame 0 % 16 == 0) || not (byte_at frame 1 % 4 == 0)
    then none
    else if (o.subtype == 10) || (o.subtype == 12)
    then if ltb (length frame) 26 || test_bit (byte_at frame 1) 6 then none else some o
    else parse_body frame o
