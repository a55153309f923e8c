-- ===== src/Parsers/Ble/Fields.antt =====
-- The sizes of an observation's arrays, and that every field of an advertisement keeps them.
use surveillance_hound.Common.{
  ℕ, suc, ◌+◌, ◌*◌, ◌≤◌, min, ◌≡◌, refl, ap, ◌∙◌, inl, inr, not, ◌||◌, List, [], ◌∷◌, map, arith,
  ltb, ◌==◌, Bool-cases, take, drop, length, length-set, length-take, length-drop, All, All-set,
  set, leb, ◌&&◌, true, length-append,
}
use mathlib.Core.List.{reverse_aux}
use surveillance_hound.Core.{Observation}
use surveillance_hound.Parsers.Bytes.{printable, sanitize, copy_into}
use surveillance_hound.Parsers.Ble.{
  reverse, Progress, add_uuid16, add_uuids16, add_uuids128, add_name, add_manufacturer, add_service,
}

-- The arrays have their sizes, and the counts stay within them.
pub record InBounds (o : Observation) : Type 0 where
  pub uuids_size : length o.uuids ≡ 8
  pub uuids_used : o.uuid_count ≤ 8
  pub uuids128_size : length o.uuids128 ≡ 1
  pub uuids128_used : o.uuid128_count ≤ 1
  pub uuids128_inner : All (λ u. length u ≡ 16) o.uuids128
  pub name_size : length o.name ≡ 33
  pub manufacturer_size : length o.manufacturer ≡ 31
  pub manufacturer_used : o.manufacturer_len ≤ 31
  pub service_size : length o.service ≡ 31
  pub service_used : o.service_len ≤ 31
  pub samsung_size : length o.samsung.id ≡ 8
  pub ssid_size : length o.ssid ≡ 32
  pub ssid_used : o.ssid_len ≤ 32
  pub vendor_size : length o.vendor ≡ 128
  pub vendor_used : o.vendor_len ≤ 128
  pub address_size : length o.address ≡ 6

add_uuid16-InBounds : (u : ℕ) (o : Observation) → InBounds o → InBounds (add_uuid16 u o)
unfolding add_uuid16
add_uuid16-InBounds u o v = ground (arith, length-set o.uuids o.uuid_count u)

pub add_uuids16-InBounds : (v : List ℕ) (o : Observation) → InBounds o → InBounds (add_uuids16 v o)
unfolding add_uuids16
add_uuids16-InBounds [] o h = h
add_uuids16-InBounds (a ∷ []) o h = h
add_uuids16-InBounds (a ∷ b ∷ v) o h =
    add_uuids16-InBounds v (add_uuid16 (a + 256 * b) o) (add_uuid16-InBounds (a + 256 * b) o h)

length-reverse_aux : (xs ys : List ℕ) → length (reverse_aux xs ys) ≡ length xs + length ys
length-reverse_aux [] ys = omega arith
length-reverse_aux (x ∷ xs) ys = omega (arith, length-reverse_aux xs (x ∷ ys))

length-reverse : (xs : List ℕ) → length (reverse xs) ≡ length xs
length-reverse xs = omega (arith, length-reverse_aux xs [])

inner_sizes :
    (us : List (List ℕ)) (i : ℕ) (v : List ℕ)
    → All (λ u. length u ≡ 16) us
    → length v ≡ 16
    → All (λ u. length u ≡ 16) (set us i v)
inner_sizes us i v h e = All-set (λ u. length u ≡ 16) us i v h e

pub add_uuids128-InBounds :
    (v : List ℕ) (o : Observation) → InBounds o → InBounds (add_uuids128 v o)
unfolding add_uuids128
add_uuids128-InBounds v o h = elim (Bool-cases (leb 16 (length v) && ltb o.uuid128_count 1)) [
  | inl fits ↦
      let inner : length (reverse (take 16 v)) ≡ 16 =
        length-reverse (take 16 v) ∙ omega (arith, length-take 16 v, sixteen fits) in
      rw (fits) (
        ground (
          arith,
          length-set o.uuids128 o.uuid128_count (reverse (take 16 v)),
          inner_sizes o.uuids128 o.uuid128_count (reverse (take 16 v)) h.uuids128_inner inner,
        ))
  | inr full ↦ rw (full) h
]
  where
    sixteen : (leb 16 (length v) && ltb o.uuid128_count 1) ≡ true → 16 ≤ length v
    sixteen fits = ground (arith, fits)

length-map : (f : ℕ → ℕ) (xs : List ℕ) → length (map f xs) ≡ length xs
length-map f [] = refl
length-map f (x ∷ xs) = ap suc (length-map f xs)

-- A text array keeps its size.
pub length-sanitize : (bytes dst : List ℕ) → length (sanitize bytes dst) ≡ length dst
unfolding sanitize
length-sanitize bytes [] = refl
length-sanitize bytes (d ∷ dst) = omega (
  arith,
  length-append (map printable (take n bytes)) (0 ∷ drop n dst),
  length-map printable (take n bytes),
  length-take n bytes,
  length-drop n dst,
)
  where
    n : ℕ
    n = min (length bytes) (length dst)

pub length-copy_into :
    (v dst : List ℕ) → length v ≤ length dst → length (copy_into v dst) ≡ length dst
unfolding copy_into
length-copy_into v dst fits =
    omega (arith, length-append v (drop (length v) dst), length-drop (length v) dst)

pub add_name-InBounds :
    (type : ℕ) (v : List ℕ) (p : Progress) → InBounds p.o → InBounds (add_name type v p).o
unfolding add_name
add_name-InBounds type v p h = elim (Bool-cases (type == 9 || not p.full_name)) [
  | inl written ↦
      rw (written, add_name)
        (record {
          uuids_size = h.uuids_size;
          uuids_used = h.uuids_used;
          uuids128_size = h.uuids128_size;
          uuids128_used = h.uuids128_used;
          uuids128_inner = h.uuids128_inner;
          name_size = length-sanitize v p.o.name ∙ h.name_size;
          manufacturer_size = h.manufacturer_size;
          manufacturer_used = h.manufacturer_used;
          service_size = h.service_size;
          service_used = h.service_used;
          samsung_size = h.samsung_size;
          ssid_size = h.ssid_size;
          ssid_used = h.ssid_used;
          vendor_size = h.vendor_size;
          vendor_used = h.vendor_used;
          address_size = h.address_size;
        })
  | inr kept ↦ rw (kept, add_name) h
]

pub add_manufacturer-InBounds :
    (v : List ℕ) (o : Observation) → length v ≤ 31 → InBounds o → InBounds (add_manufacturer v o)
unfolding add_manufacturer
add_manufacturer-InBounds v o fits h = ground (arith, length-copy_into v o.manufacturer)

pub add_service-InBounds :
    (v : List ℕ) (o : Observation) → length v ≤ 31 → InBounds o → InBounds (add_service v o)
unfolding add_service
add_service-InBounds v o fits h =
    add_uuid16-InBounds _ (record o { service_len = length v; service = copy_into v o.service })
      (ground (arith, length-copy_into v o.service))
