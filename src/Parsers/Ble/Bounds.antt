-- ===== src/Parsers/Ble/Bounds.antt =====
-- The bounds of what `parse_ble` fills in, which the fixed arrays of an observation rest on.
use surveillance_hound.Common.{
  unless-some, all, some-inj, ℕ, zero, suc, ◌+◌, ◌-◌, ◌%◌, ◌≤◌, ◌≡◌, refl, ap, subst, ◌∙◌, inl, inr,
  Bool, false, not, ◌||◌, Option, none, some, List, [], ◌∷◌, arith, ltb, ◌==◌, if◌then◌else◌,
  Bool-cases, byte_at, take, drop, length, length-take, length-drop,
}
use mathlib.Core.Option
use surveillance_hound.Core.{SamsungTag, Observation}
use surveillance_hound.Parsers.Samsung.RoundTrip.{parse_samsung_tag-Reads}
use surveillance_hound.Parsers.Ble.{
  parse_samsung_tag, Progress, add_uuids16, add_uuids128, add_name, add_manufacturer, add_service,
  add_structure, parse_structures, begin_ble, with_samsung, parse_ble,
}
use surveillance_hound.Parsers.Ble.Fields.{
  InBounds, add_uuids16-InBounds, add_uuids128-InBounds, add_name-InBounds,
  add_manufacturer-InBounds, add_service-InBounds,
}

-- What a structure that is accepted leads to.
data Added (v : List ℕ) (p : Progress) : Progress → Type 0 where
  uuids16 : Added v p (record p { o = add_uuids16 v p.o })
  uuids128 : Added v p (record p { o = add_uuids128 v p.o })
  name : (type : ℕ) → Added v p (add_name type v p)
  manufacturer : Added v p (record p { o = add_manufacturer v p.o })
  service : Added v p (record p { o = add_service v p.o })
  other : Added v p p

Added-InBounds :
    {v : List ℕ} {p q : Progress} → length v ≤ 31 → InBounds p.o → Added v p q → InBounds q.o
Added-InBounds {v} {p} fits h uuids16 = add_uuids16-InBounds v p.o h
Added-InBounds {v} {p} fits h uuids128 = add_uuids128-InBounds v p.o h
Added-InBounds {v} {p} fits h (name type) = add_name-InBounds type v p h
Added-InBounds {v} {p} fits h manufacturer = add_manufacturer-InBounds v p.o fits h
Added-InBounds {v} {p} fits h service = add_service-InBounds v p.o fits h
Added-InBounds fits h other = h

module _ (type : ℕ) (v : List ℕ) (p q : Progress) where
  guarded :
      (b : Bool) (r : Progress) → Added v p r → (if b then none else some r) ≡ some q → Added v p q
  guarded b r a e = subst (Added v p) (some-inj (unless-some b (some r) e).1) a

  add_structure-Added : add_structure type v p ≡ some q → Added v p q
  unfolding add_structure
  add_structure-Added e = elim (Bool-cases (type == 2 || type == 3)) [
    | inl short ↦ elim (Bool-cases (length v % 2 == 0)) [
      | inl even ↦ subst (Added v p) (some-inj (rw (short, even) at e)) uuids16
      | inr odd ↦ let impossible : none ≡ some q = rw (short, odd) at e in cc
    ]
    | inr e1 ↦ elim (Bool-cases (type == 6 || type == 7 || type == 0x21)) [
      | inl long ↦
          guarded (if type == 0x21 then ltb (length v) 16 else not (length v % 16 == 0)) _ uuids128
            (rw (e1, long) at e)
      | inr e2 ↦ elim (Bool-cases (type == 8 || type == 9)) [
        | inl named ↦ subst (Added v p) (some-inj (rw (e1, e2, named) at e)) (name type)
        | inr e3 ↦ elim (Bool-cases (type == 0xff)) [
          | inl maker ↦
              guarded (ltb (length v) 2 || not (p.o.manufacturer_len == 0)) _ manufacturer
                (rw (e1, e2, e3, maker) at e)
          | inr e4 ↦ elim (Bool-cases (type == 0x16)) [
            | inl served ↦
                guarded (ltb (length v) 2 || not (p.o.service_len == 0)) _ service
                  (rw (e1, e2, e3, e4, served) at e)
            | inr e5 ↦ subst (Added v p) (some-inj (rw (e1, e2, e3, e4, e5) at e)) other
          ]
        ]
      ]
    ]
  ]

bind-some :
    (o : Option Progress) (f : Progress → Option Progress) (q : Progress)
    → Option.bind o f ≡ some q
    → (r : Progress) × (o ≡ some r) × (f r ≡ some q)
unfolding Option.bind
bind-some none f q e = cc
bind-some (some r) f q e = (r, refl, e)

parse_structures-InBounds :
    (fuel : ℕ) (bytes : List ℕ) (p q : Progress)
    → length bytes ≤ 31
    → InBounds p.o
    → parse_structures fuel bytes p ≡ some q
    → InBounds q.o
unfolding parse_structures
parse_structures-InBounds zero bytes p q small h e = cc
parse_structures-InBounds (suc fuel) [] p q small h e =
    subst (λ (r : Progress). InBounds r.o) (some-inj e) h
parse_structures-InBounds (suc fuel) (n ∷ tail) p q small h e = elim (Bool-cases (n == 0)) [
  | inl stop ↦ elim (Bool-cases (all (λ b. b == 0) tail)) [
    | inl zeros ↦ subst (λ (r : Progress). InBounds r.o) (some-inj (rw (stop, zeros) at e)) h
    | inr junk ↦ let impossible : none ≡ some q = rw (stop, junk) at e in cc
  ]
  | inr more ↦ elim (Bool-cases (ltb (length tail) n)) [
    | inl cut ↦ let impossible : none ≡ some q = rw (more, cut) at e in cc
    | inr whole ↦
        let (r, added, rest) =
          bind-some (add_structure (byte_at tail 0) (take (n - 1) (drop 1 tail)) p)
            (parse_structures fuel (drop n tail)) q (rw (more, whole) at e) in
        parse_structures-InBounds fuel (drop n tail) r q (omega (arith, length-drop n tail))
          (Added-InBounds (omega (arith, length-take (n - 1) (drop 1 tail), length-drop 1 tail)) h
            (add_structure-Added (byte_at tail 0) (take (n - 1) (drop 1 tail)) p r added))
          rest
  ]
]

samsung_id_size : (s : List ℕ) (t : SamsungTag) → parse_samsung_tag s ≡ some t → length t.id ≡ 8
samsung_id_size s t e =
    let r = parse_samsung_tag-Reads s t e in
    ap length r.id_is ∙ omega (arith, length-take 8 (drop 6 s), length-drop 6 s, r.size)

with_samsung-InBounds : (o : Observation) → InBounds o → InBounds (with_samsung o)
with_samsung-InBounds o h = by_tag (parse_samsung_tag (take o.service_len o.service)) refl
  where
    by_tag :
        (t : Option SamsungTag)
        → parse_samsung_tag (take o.service_len o.service) ≡ t
        → InBounds (with_samsung o)
    by_tag none e = unfold with_samsung in rw (e, with_samsung) h
    by_tag (some t) e =
        unfold with_samsung in
        rw (e, with_samsung)
          (record {
            uuids_size = h.uuids_size;
            uuids_used = h.uuids_used;
            uuids128_size = h.uuids128_size;
            uuids128_used = h.uuids128_used;
            uuids128_inner = h.uuids128_inner;
            name_size = h.name_size;
            manufacturer_size = h.manufacturer_size;
            manufacturer_used = h.manufacturer_used;
            service_size = h.service_size;
            service_used = h.service_used;
            samsung_size = samsung_id_size (take o.service_len o.service) t e;
            ssid_size = h.ssid_size;
            ssid_used = h.ssid_used;
            vendor_size = h.vendor_size;
            vendor_used = h.vendor_used;
            address_size = h.address_size;
          })

-- Whatever bytes come in, an advertisement that is read, for an address of six bytes, leaves every
-- array of the observation at its size and every count within its array: the 16-bit identifiers, the
-- 128-bit one and its 16 bytes, name, manufacturer and service data, the tag's identity, SSID, vendor
-- data and the address.
pub parse_ble-InBounds :
    (bytes : List ℕ) (output o : Observation)
    → length output.address ≡ 6
    → parse_ble bytes output ≡ some o
    → InBounds o
parse_ble-InBounds bytes output o six e =
    finish (parse_structures (length bytes + 1) bytes (begin_ble output)) refl opened.1
  where
    opened :
        (ltb 31 (length bytes) ≡ false)
        × (Option.map
              (λ (p : Progress). with_samsung p.o)
              (parse_structures (length bytes + 1) bytes (begin_ble output))
            ≡ some o)
    opened =
        unless-some (ltb 31 (length bytes))
          (Option.map (λ (p : Progress). with_samsung p.o)
            (parse_structures (length bytes + 1) bytes (begin_ble output)))
          {q = o} (unfold parse_ble in e)

    blank : InBounds (begin_ble output).o
    blank = unfold begin_ble in omega (arith, six)

    finish :
        (r : Option Progress)
        → parse_structures (length bytes + 1) bytes (begin_ble output) ≡ r
        → Option.map (λ (p : Progress). with_samsung p.o) r ≡ some o
        → InBounds o
    finish none r e' = cc
    finish (some p) r e' = subst InBounds (some-inj e') (
        with_samsung-InBounds p.o (
          parse_structures-InBounds (length bytes + 1) bytes (begin_ble output) p
            (ground (arith, opened.0)) blank r))
