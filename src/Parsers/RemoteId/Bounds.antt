-- ===== src/Parsers/RemoteId/Bounds.antt =====
-- Everything that `parse_remote_id` accepts is a plausible report.
use surveillance_hound.Common.{
  ==→eq, some-inj, unless-some, ℕ, zero, suc, ◌+◌, ◌/◌, ◌%◌, ◌≤◌, ◌<◌, ◌≡◌, ◌≢◌, refl, subst, ◌⊎◌,
  inl, inr, Bool, false, not, ◌&&◌, ◌||◌, Option, none, some, List, [], ◌∷◌, arith, ltb, ◌==◌,
  Bool-cases, byte_at, take, drop, All, All-get_or,
}
use mathlib.Core.Option
use surveillance_hound.Common.Int.{pos, negsuc, ◌≤ℤ◌}
use surveillance_hound.Parsers.Bytes.{le16}
use surveillance_hound.Parsers.RemoteId.{
  RemoteId, blank_remote_id, coordinates, altitude, bad_basic, bad_location, bad_system, bad_header,
  finish_location, parse_body, parse_basic, parse_location, parse_system, parse_remote_id,
}

abbrev pub AreBytes : List ℕ → Type 0
AreBytes = All (λ b. b < 256)

pub record IsPlausible (r : RemoteId) : Type 0 where
  pub type_is : (r.type ≡ 0) ⊎ (r.type ≡ 1) ⊎ (r.type ≡ 4)
  pub latitude : (negsuc 899999999 ≤ℤ r.latitude_e7) × (r.latitude_e7 ≤ℤ pos 900000000)
  pub longitude : (negsuc 1799999999 ≤ℤ r.longitude_e7) × (r.longitude_e7 ≤ℤ pos 1800000000)
  pub id_type_is :
      ((r.type ≡ 0) × (1 ≤ r.id_type) × (r.id_type ≤ 4)) ⊎ ((r.type ≢ 0) × (r.id_type ≡ 0))
  pub status_is : r.status ≤ 3
  pub altitude_range : (negsuc 9999 ≤ℤ r.altitude_dm) × (r.altitude_dm ≤ℤ pos 317675)

drop-AreBytes : (n : ℕ) (xs : List ℕ) → AreBytes xs → AreBytes (drop n xs)
drop-AreBytes zero xs h = h
drop-AreBytes (suc n) [] h = tt
drop-AreBytes (suc n) (x ∷ xs) h = drop-AreBytes n xs h.1

le16-lt : (m : List ℕ) (at : ℕ) → AreBytes m → le16 m at < 65536
le16-lt m at b = omega (
  arith,
  All-get_or (λ x. x < 256) m at 0 b (omega arith),
  All-get_or (λ x. x < 256) m (at + 1) 0 b (omega arith),
)

coordinates-IsPlausible :
    (m : List ℕ) (at : ℕ) (r q : RemoteId)
    → IsPlausible r
    → coordinates m at r ≡ some q
    → IsPlausible q
unfolding coordinates
coordinates-IsPlausible m at r q v e = record {
  type_is = ground arith;
  latitude = ground arith;
  longitude = ground arith;
  id_type_is = ground arith;
  status_is = ground arith;
  altitude_range = ground arith;
}

altitude-IsPlausible :
    (alt : ℕ) (r : RemoteId) → alt < 65536 → IsPlausible r → IsPlausible (altitude alt r)
unfolding altitude
altitude-IsPlausible alt r lt v = ground arith

first_two_of_seven :
    (a b c d e f g : Bool) → (a || b || c || d || e || f || g) ≡ false → (a ≡ false) × (b ≡ false)
first_two_of_seven a b c d e f g h = ground arith

ltb-false : (a b : ℕ) → ltb a b ≡ false → b ≤ a
ltb-false a b h = ground arith

bad_basic-false :
    (m : List ℕ) → bad_basic m ≡ false → (1 ≤ byte_at m 1 / 16) × (byte_at m 1 / 16 ≤ 4)
unfolding bad_basic
bad_basic-false m good =
    let (low, high) = first_two_of_seven _ _ _ _ _ _ _ good in
    (ltb-false (byte_at m 1 / 16) 1 low, ltb-false 4 (byte_at m 1 / 16) high)

bad_location-false : (m : List ℕ) → bad_location m ≡ false → byte_at m 1 / 16 ≤ 3
unfolding bad_location
bad_location-false m good = ground arith

parse_basic-IsPlausible :
    (m : List ℕ) (type : ℕ) (q : RemoteId)
    → type ≡ 0
    → parse_basic m (record blank_remote_id { type = type }) ≡ some q
    → IsPlausible q
parse_basic-IsPlausible m type q zero_ e = subst IsPlausible (some-inj accepted.1) (record {
  type_is = inl zero_;
  latitude = omega arith;
  longitude = omega arith;
  id_type_is = inl (zero_, (bad_basic-false m accepted.0).0, (bad_basic-false m accepted.0).1);
  status_is = omega arith;
  altitude_range = omega arith;
})
  where
    fields : RemoteId
    fields = record blank_remote_id {
      type = type;
      id_type = byte_at m 1 / 16;
      aircraft_type = byte_at m 1 % 16;
      id = take 20 (drop 2 m);
    }

    accepted : (bad_basic m ≡ false) × (◌≡◌ {A = Option RemoteId} (some fields) (some q))
    accepted = unless-some (bad_basic m) (some fields) (unfold parse_basic in e)

module _ (m : List ℕ) (r q : RemoteId) (bytes : AreBytes m) (v : IsPlausible r) where
  finish_location-IsPlausible :
      (o : Option RemoteId)
      → byte_at m 1 / 16 ≤ 3
      → coordinates m 5 (record r { status = byte_at m 1 / 16 }) ≡ o
      → finish_location m o ≡ some q
      → IsPlausible q
  unfolding finish_location
  finish_location-IsPlausible none st c e = cc
  finish_location-IsPlausible (some l) st c e =
      subst IsPlausible
        (some-inj
          (unless-some (not (le16 m 21 == 0xffff) && ltb 36000 (le16 m 21))
            (some (altitude (le16 m 15) l)) e).1)
        (altitude-IsPlausible (le16 m 15) l (le16-lt m 15 bytes) (
          coordinates-IsPlausible m 5 _ l
            (record {
              type_is = v.type_is;
              latitude = v.latitude;
              longitude = v.longitude;
              id_type_is = v.id_type_is;
              status_is = st;
              altitude_range = v.altitude_range;
            })
            c))

  parse_location-IsPlausible : parse_location m r ≡ some q → IsPlausible q
  parse_location-IsPlausible e =
      let (good, rest) =
        unless-some (bad_location m)
          (finish_location m (coordinates m 5 (record r { status = byte_at m 1 / 16 }))) {q = q}
          (unfold parse_location in e) in
      finish_location-IsPlausible (coordinates m 5 (record r { status = byte_at m 1 / 16 }))
        (bad_location-false m good) refl rest

  system-IsPlausible :
      (o : Option RemoteId)
      → coordinates m 2 r ≡ o
      → Option.map (altitude (le16 m 18)) o ≡ some q
      → IsPlausible q
  system-IsPlausible none c e = cc
  system-IsPlausible (some l) c e = subst IsPlausible (some-inj e) (
      altitude-IsPlausible (le16 m 18) l (le16-lt m 18 bytes) (coordinates-IsPlausible m 2 r l v c))

  parse_system-IsPlausible : parse_system m r ≡ some q → IsPlausible q
  parse_system-IsPlausible e =
      system-IsPlausible (coordinates m 2 r) refl
        (unless-some (bad_system m) (Option.map (altitude (le16 m 18)) (coordinates m 2 r)) {q = q}
          (unfold parse_system in e)).1

typed-IsPlausible : (t : ℕ) → (t ≡ 1) ⊎ (t ≡ 4) → IsPlausible (record blank_remote_id { type = t })
typed-IsPlausible t h = record {
  type_is = inr h;
  latitude = omega arith;
  longitude = omega arith;
  id_type_is = inr (ground (arith, h), refl);
  status_is = omega arith;
  altitude_range = omega arith;
}

parse_body-IsPlausible :
    (type : ℕ) (m : List ℕ) (r : RemoteId)
    → AreBytes m
    → parse_body type m (record blank_remote_id { type = type }) ≡ some r
    → IsPlausible r
unfolding parse_body
parse_body-IsPlausible type m r bytes e = elim (Bool-cases (type == 0)) [
  | inl zero_ ↦ parse_basic-IsPlausible m type r (==→eq type 0 zero_) (rw zero_ at e)
  | inr other ↦ elim (Bool-cases (type == 1)) [
    | inl one ↦
        parse_location-IsPlausible m _ r bytes (typed-IsPlausible type (inl (==→eq type 1 one)))
          (rw (other, one) at e)
    | inr other' ↦ elim (Bool-cases (type == 4)) [
      | inl four ↦
          parse_system-IsPlausible m _ r bytes (typed-IsPlausible type (inr (==→eq type 4 four)))
            (rw (other, other', four) at e)
      | inr none_ ↦ let impossible : none ≡ some r = rw (other, other', none_) at e in cc
    ]
  ]
]

-- Whatever bytes come in, an accepted report is a basic id, a location or a system message, lies on
-- the globe, has a known status and an altitude from -1000 to 31767.5 metres. A basic id is of one of
-- the four id types, the other messages have none.
pub parse_remote_id-IsPlausible :
    (p : List ℕ) (r : RemoteId) → AreBytes p → parse_remote_id p ≡ some r → IsPlausible r
parse_remote_id-IsPlausible p r bytes e =
    parse_body-IsPlausible (byte_at p 4 / 16) (drop 4 p) r (drop-AreBytes 4 p bytes)
      (unless-some (bad_header p)
        (parse_body (byte_at p 4 / 16) (drop 4 p)
          (record blank_remote_id { type = byte_at p 4 / 16 }))
        {q = r} (unfold parse_remote_id in e)).1
