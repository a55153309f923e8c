-- ===== src/Parsers/Wifi/Elements.antt =====
-- What the elements of a frame leave of its head and of the sizes of the arrays.
use surveillance_hound.Parsers.Wifi.Names.{parse_pwnagotchi-length}
use surveillance_hound.Common.{
  list_eq, replicate, if◌then◌else◌, ℕ, zero, suc, ◌+◌, ◌/◌, ◌≤◌, min, ◌≡◌, refl, subst, ◌∙◌, ◌⊎◌,
  inl, inr, Bool, true, false, not, ◌&&◌, ◌||◌, some, List, [], ◌∷◌, arith, ltb, leb, ◌==◌,
  Bool-cases, length, take, drop, byte_at, length-take, >>=-eq-some, guard-eq-some, some-inj,
  unless-some,
}
use surveillance_hound.Core.{Observation, no_samsung_tag, wifi}
use surveillance_hound.Parsers.Ble.Fields.{length-sanitize, length-copy_into}
use surveillance_hound.Parsers.Wifi.{
  mesh, rsn_valid, fixed_size, Progress, add_ssid, add_rsn, add_pwn, add_vendor, add_element,
  parse_elements, parse_pwnagotchi, add_pwnagotchi, begin_wifi, finish_wifi, parse_body,
}

-- A frame leaves all fields of an advertisement blank.
abbrev pub NoAdvertisement : Observation → Type 0
NoAdvertisement o =
    (o.uuids ≡ replicate 8 0)
    × (o.uuid_count ≡ 0)
    × (o.uuids128 ≡ replicate 16 0 ∷ [])
    × (o.uuid128_count ≡ 0)
    × (o.manufacturer ≡ replicate 31 0)
    × (o.manufacturer_len ≡ 0)
    × (o.service ≡ replicate 31 0)
    × (o.service_len ≡ 0)
    × (o.samsung ≡ no_samsung_tag)

-- The arrays have their sizes, and the counts stay within them.
abbrev pub InFrame : Observation → Type 0
InFrame o =
    (length o.ssid ≡ 32)
    × (o.ssid_len ≤ 32)
    × (length o.name ≡ 33)
    × (length o.vendor ≡ 128)
    × (o.vendor_len ≤ 128)
    × NoAdvertisement o

-- What the frame's head and the caller say of an observation.
abbrev pub FromHead : List ℕ → Observation → Observation → Type 0
FromHead frame output o =
    (o.ms ≡ output.ms)
    × (o.channel ≡ output.channel)
    × (o.rssi ≡ output.rssi)
    × (o.radio ≡ wifi)
    × (o.subtype ≡ byte_at frame 0 / 16)

-- The address is the frame's second one, or the third one of a Pwnagotchi.
abbrev pub AddressOf : List ℕ → Observation → Type 0
AddressOf frame o =
    ((o.pwnagotchi ≡ false) × (o.address ≡ take 6 (drop 10 frame)))
    ⊎ ((o.pwnagotchi ≡ true) × (o.address ≡ take 6 (drop 16 frame)))

module _ (frame : List ℕ) (output : Observation) where
  abbrev pub Unnamed : Observation → Type 0
  Unnamed o = (o.pwnagotchi ≡ false) × (o.address ≡ take 6 (drop 10 frame))

  abbrev pub Fine : Observation → Type 0
  Fine o = FromHead frame output o × InFrame o × Unnamed o

  abbrev pub Done : Observation → Type 0
  Done o = FromHead frame output o × InFrame o × AddressOf frame o

  add_vendor-IsRead : (v : List ℕ) (p : Progress) → Fine p.o → Fine (add_vendor v p).o
  unfolding add_vendor
  add_vendor-IsRead v p h = (
    h.0,
    (
      h.1.0,
      h.1.1,
      h.1.2,
      length-copy_into (take (min (length v) 128) v) p.o.vendor
            (omega (arith, length-take (min (length v) 128) v, h.1.3))
          ∙ h.1.3,
      omega arith,
      h.1.5,
    ),
    h.2,
  )

  add_ssid-IsRead : (v : List ℕ) (p q : Progress) → Fine p.o → add_ssid v p ≡ some q → Fine q.o
  unfolding add_ssid
  add_ssid-IsRead v p q h e =
      let (ok, e1) = unless-some (p.ssid_seen || ltb 32 (length v)) _ e in
      subst (λ (r : Progress). Fine r.o) (some-inj e1)
        (
          h.0,
          (
            length-copy_into v p.o.ssid (ground (arith, h.1.0, ok)) ∙ h.1.0,
            ground (arith, ok),
            length-sanitize v p.o.name ∙ h.1.2,
            h.1.3,
            h.1.4,
            h.1.5,
          ),
          h.2,
        )

  add_rsn-IsRead : (v : List ℕ) (p q : Progress) → Fine p.o → add_rsn v p ≡ some q → Fine q.o
  unfolding add_rsn
  add_rsn-IsRead v p q h e =
      let (_, e1) = guard-eq-some (not p.o.rsn) _ e in
      let (caps, e2, e3) = >>=-eq-some (rsn_valid v) _ e1 in
      subst (λ (r : Progress). Fine r.o) (some-inj e3) h

  add_pwn-IsRead : (v : List ℕ) (p q : Progress) → Fine p.o → add_pwn v p ≡ some q → Fine q.o
  unfolding add_pwn
  add_pwn-IsRead v p q h e =
      let (ok, e1) = unless-some (ltb 472 (length p.pwn + length v)) _ e in
      subst (λ (r : Progress). Fine r.o) (some-inj e1) h

  add_element-IsRead :
      (type : ℕ) (v : List ℕ) (p q : Progress) → Fine p.o → add_element type v p ≡ some q → Fine q.o
  unfolding add_element
  add_element-IsRead type v p q h e = elim (Bool-cases (type == 0)) [
    | inl e1 ↦ add_ssid-IsRead v p q h (rw (e1) at e)
    | inr e1 ↦ elim (Bool-cases (type == 48)) [
      | inl e2 ↦ add_rsn-IsRead v p q h (rw (e1, e2) at e)
      | inr e2 ↦ elim (Bool-cases (type == 222)) [
        | inl e3 ↦ add_pwn-IsRead v p q h (rw (e1, e2, e3) at e)
        | inr e3 ↦ elim (Bool-cases ((type == 221) && leb 3 (length v) && (p.o.vendor_len == 0))) [
          | inl e4 ↦
              subst (λ (r : Progress). Fine r.o) (some-inj (rw (e1, e2, e3, e4) at e))
                (add_vendor-IsRead v p h)
          | inr e4 ↦ subst (λ (r : Progress). Fine r.o) (some-inj (rw (e1, e2, e3, e4) at e)) h
        ]
      ]
    ]
  ]

  parse_elements-IsRead :
      (fuel : ℕ) (bytes : List ℕ) (p q : Progress)
      → Fine p.o
      → parse_elements fuel bytes p ≡ some q
      → Fine q.o
  unfolding parse_elements
  parse_elements-IsRead zero bytes p q h e = cc
  parse_elements-IsRead (suc fuel) [] p q h e = subst (λ (r : Progress). Fine r.o) (some-inj e) h
  parse_elements-IsRead (suc fuel) (type ∷ []) p q h e = cc
  parse_elements-IsRead (suc fuel) (type ∷ n ∷ bytes) p q h e =
      let (_, e1) = unless-some (ltb (length bytes) n) _ e in
      let (p1, e2, e3) = >>=-eq-some (add_element type (take n bytes) p) _ e1 in
      parse_elements-IsRead fuel (drop n bytes) p1 q
        (add_element-IsRead type (take n bytes) p p1 h e2) e3

  address_of :
      (found : Bool) (a : List ℕ)
      → a ≡ take 6 (drop 10 frame)
      → ((found ≡ false) × ((if found then take 6 (drop 16 frame) else a) ≡ take 6 (drop 10 frame)))
        ⊎ ((found ≡ true)
            × ((if found then take 6 (drop 16 frame) else a) ≡ take 6 (drop 16 frame)))
  address_of false a e = inl (refl, e)
  address_of true a e = inr (refl, refl)

  add_pwnagotchi-IsRead : (p : Progress) → Fine p.o → Done (add_pwnagotchi frame p)
  unfolding add_pwnagotchi
  add_pwnagotchi-IsRead p h =
      elim (Bool-cases
        ((length p.pwn == 0) || not (p.o.subtype == 8) || not (list_eq p.o.address mesh))) [
          | inl e ↦ rw (e) (h.0, h.1, inl h.2)
          | inr e ↦ rw (e) (
            h.0,
            (
              h.1.0,
              h.1.1,
              parse_pwnagotchi-length p.pwn p.o.name (omega (arith, h.1.2)) ∙ h.1.2,
              h.1.3,
              h.1.4,
              h.1.5,
            ),
            address_of (parse_pwnagotchi p.pwn p.o.name).1 p.o.address h.2.1,
          )
        ]

  finish_wifi-IsRead :
      (p : Progress) (o : Observation) → Fine p.o → finish_wifi frame p ≡ some o → Done o
  unfolding finish_wifi
  finish_wifi-IsRead p o h e =
      let (_, e1) = unless-some (not p.ssid_seen && not (add_pwnagotchi frame p).pwnagotchi) _ e in
      subst Done (some-inj e1) (add_pwnagotchi-IsRead p h)

  pub parse_body-IsRead : (o q : Observation) → Fine o → parse_body frame o ≡ some q → Done q
  unfolding parse_body
  parse_body-IsRead o q h e =
      let (_, e1) = guard-eq-some ((o.subtype == 8) || (o.subtype == 5) || (o.subtype == 4)) _ e in
      let (_, e2) = guard-eq-some (not (ltb (length frame) (fixed_size o.subtype))) _ e1 in
      let (p, e3, e4) =
        >>=-eq-some (parse_elements (suc (length frame)) (drop (fixed_size o.subtype) frame) _) _
          e2 in
      finish_wifi-IsRead p q
        (parse_elements-IsRead (suc (length frame)) (drop (fixed_size o.subtype) frame) _ p h e3) e4

  pub begin_wifi-IsRead : Fine (begin_wifi frame output)
  unfolding begin_wifi
  begin_wifi-IsRead = (
    (refl, refl, refl, refl, refl),
    (
      refl,
      omega arith,
      refl,
      refl,
      omega arith,
      (refl, refl, refl, refl, refl, refl, refl, refl, refl),
    ),
    (refl, refl),
  )
