-- ===== src/Parsers/Wifi/Reading.antt =====
-- What an accepted management frame leaves in the observation.
use surveillance_hound.Common.{
  length-drop, ℕ, ◌+◌, ◌/◌, ◌%◌, ◌≤◌, ◌≡◌, subst, ◌⊎◌, inl, inr, true, false, not, ◌||◌, some, List,
  arith, ltb, ◌==◌, Bool-cases, length, take, drop, test_bit, byte_at, length-take, guard-eq-some,
  some-inj, unless-some,
}
use surveillance_hound.Core.{Observation}
use surveillance_hound.Parsers.Wifi.{begin_wifi, parse_body, parse_wifi}
use surveillance_hound.Parsers.Wifi.Elements.{
  InFrame, FromHead, AddressOf, Fine, Done, parse_body-IsRead, begin_wifi-IsRead,
}

-- Association and authentication frames are not read: a probe request, a probe response, a beacon, a
-- disassociation or a deauthentication.
abbrev pub IsReadKind : ℕ → Type 0
IsReadKind s = (s ≡ 4) ⊎ (s ≡ 5) ⊎ (s ≡ 8) ⊎ (s ≡ 10) ⊎ (s ≡ 12)

parse_body-IsReadKind :
    (frame : List ℕ) (o q : Observation) → parse_body frame o ≡ some q → IsReadKind o.subtype
unfolding parse_body
parse_body-IsReadKind frame o q e =
    let (ok, _) = guard-eq-some ((o.subtype == 8) || (o.subtype == 5) || (o.subtype == 4)) _ e in
    ground (arith, ok)

-- A frame of 24 bytes at least, whose first bytes say: management, version 0.
abbrev pub IsManagement : List ℕ → Type 0
IsManagement frame = (24 ≤ length frame) × (byte_at frame 0 % 16 ≡ 0) × (byte_at frame 1 % 4 ≡ 0)

management :
    (frame : List ℕ)
    → (ltb (length frame) 24 || not (byte_at frame 0 % 16 == 0) || not (byte_at frame 1 % 4 == 0))
      ≡ false
    → IsManagement frame
management frame ok = (ground (arith, ok), ground (arith, ok), ground (arith, ok))

dropped_kind : (s : ℕ) → ((s == 10) || (s == 12)) ≡ true → IsReadKind s
dropped_kind s bare = ground (arith, bare)

six_bytes : (frame : List ℕ) (i : ℕ) → i + 6 ≤ length frame → length (take 6 (drop i frame)) ≡ 6
six_bytes frame i fits = omega (arith, length-take 6 (drop i frame), length-drop i frame)

address-length :
    (frame : List ℕ) (o : Observation)
    → IsManagement frame
    → AddressOf frame o
    → length o.address ≡ 6
address-length frame o m (inl a) = rw (a.1) (six_bytes frame 10 (omega (arith, m.0)))
address-length frame o m (inr a) = rw (a.1) (six_bytes frame 16 (omega (arith, m.0)))

-- What a frame that is read is, and what the observation holds.
pub record IsReadFrame (frame : List ℕ) (output o : Observation) : Type 0 where
  pub is_management : IsManagement frame
  pub kind : IsReadKind (byte_at frame 0 / 16)
  pub from_head : FromHead frame output o
  pub in_frame : InFrame o
  pub address_of : AddressOf frame o
  pub address_size : length o.address ≡ 6

read_frame :
    (frame : List ℕ) (output o : Observation)
    → IsManagement frame
    → IsReadKind (byte_at frame 0 / 16)
    → Done frame output o
    → IsReadFrame frame output o
read_frame frame output o m k d = record {
  is_management = m;
  kind = k;
  from_head = d.0;
  in_frame = d.1;
  address_of = d.2;
  address_size = address-length frame o m d.2;
}

-- Whatever bytes come in and whatever the text of a beacon is, a frame that is read has 24 bytes at
-- least, is a management frame of version 0 and of one of the five kinds, and keeps the time, the
-- channel and the strength that the radio gave. Its address is the six bytes at 10, or those at 16
-- exactly when it is a Pwnagotchi's; the arrays of SSID, name and vendor data have their sizes with
-- their counts within them, and all fields of an advertisement stay blank.
pub parse_wifi-IsReadKind :
    (frame : List ℕ) (output o : Observation)
    → parse_wifi frame output ≡ some o
    → IsReadFrame frame output o
unfolding parse_wifi
parse_wifi-IsReadKind frame output o e =
    let head = begin_wifi frame output in
    let (ok, e1) =
      unless-some
        (ltb (length frame) 24 || not (byte_at frame 0 % 16 == 0) || not (byte_at frame 1 % 4 == 0))
        _ e in
    let m = management frame ok in
    elim (Bool-cases ((head.subtype == 10) || (head.subtype == 12))) [
      | inl bare ↦
          let (_, e2) =
            unless-some (ltb (length frame) 26 || test_bit (byte_at frame 1) 6) _
              (rw (bare) at e1) in
          let fine = subst (Fine frame output) (some-inj e2) (begin_wifi-IsRead frame output) in
          read_frame frame output o m (dropped_kind head.subtype bare) (fine.0, fine.1, inl fine.2)
      | inr full ↦
          let e2 : parse_body frame head ≡ some o = rw (full) at e1 in
          read_frame frame output o m (unfold begin_wifi in parse_body-IsReadKind frame head o e2)
            (parse_body-IsRead frame output head o (begin_wifi-IsRead frame output) e2)
    ]
