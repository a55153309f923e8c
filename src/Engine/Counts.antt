-- ===== src/Engine/Counts.antt =====
-- Nearby devices are counted once.
use surveillance_hound.Common.{
  and-true, length-set, ℕ, zero, suc, ◌+◌, ◌<◌, ◌≡◌, refl, subst, ◌∙◌, ◌≢◌, ◌⊎◌, inl, inr, Bool,
  true, false, ◌&&◌, ◌||◌, List, [], ◌∷◌, arith, ◌==◌, to_bit, Bool-cases, length, get_or, set,
  list_eq,
}
use surveillance_hound.Core.{Radio, wifi, ble, Settings, Detection, radio_eq}
use surveillance_hound.Engine.{
  Engine, Entry, blank_entry, counts_now, same_device, beats, outranked, counted, count_slot,
  count_from, recent_counts,
}

list_eq_sym : (xs ys : List ℕ) → list_eq xs ys ≡ list_eq ys xs
list_eq_sym [] [] = refl
list_eq_sym [] (y ∷ ys) = refl
list_eq_sym (x ∷ xs) [] = refl
list_eq_sym (x ∷ xs) (y ∷ ys) = ground (arith, list_eq_sym xs ys)

radio_eq_sym : (a b : Radio) → radio_eq a b ≡ radio_eq b a
radio_eq_sym wifi wifi = refl
radio_eq_sym wifi ble = refl
radio_eq_sym ble wifi = refl
radio_eq_sym ble ble = refl

same_device_sym : (d e : Detection) → same_device d e ≡ same_device e d
unfolding same_device
same_device_sym d e = ground (
  arith,
  list_eq_sym d.samsung.id e.samsung.id,
  list_eq_sym d.address e.address,
  radio_eq_sym d.radio e.radio,
)

or_left : (a b : Bool) → a ≡ true → (a || b) ≡ true
or_left a b h = rw (h) refl

or_right : (a b : Bool) → b ≡ true → (a || b) ≡ true
or_right a b h = ground (arith, h)

outranked-beats :
    (now : ℕ) (s : Settings) (i m k : ℕ) (d : Detection) (es : List Entry) (j : ℕ)
    → m ≡ j + k
    → j < length es
    → beats now s i d m (get_or es j blank_entry) ≡ true
    → outranked now s i d k es ≡ true
unfolding outranked
outranked-beats now s i m k d [] j at lt h = absurd (omega arith)
outranked-beats now s i m k d (e ∷ es) zero at lt h =
    or_left (beats now s i d k e) (outranked now s i d (suc k) es)
      (subst (λ x. beats now s i d x e ≡ true) (omega (arith, at)) h)
outranked-beats now s i m k d (e ∷ es) (suc j) at lt h =
    or_right (beats now s i d k e) (outranked now s i d (suc k) es)
      (outranked-beats now s i m (suc k) d es j (omega (arith, at)) (omega arith) h)

-- Of two active entries of a device, one beats the other.
one_beats :
    (now : ℕ) (s : Settings) (i j : ℕ) (a b : Entry)
    → (i == j) ≡ false
    → counts_now now s a ≡ true
    → counts_now now s b ≡ true
    → same_device a.detection b.detection ≡ true
    → (beats now s i a.detection j b ≡ true) ⊎ (beats now s j b.detection i a ≡ true)
unfolding beats
one_beats now s i j a b apart ha hb same =
    let back : same_device b.detection a.detection ≡ true =
      same_device_sym b.detection a.detection ∙ same in
    ground (arith, apart, ha, hb, same, back)

not_outranked :
    (now : ℕ) (s : Settings) (cache : List Entry) (i j : ℕ) (a : Entry)
    → counted now s cache i a ≡ true
    → j < length cache
    → beats now s i a.detection j (get_or cache j blank_entry) ≢ true
unfolding counted
not_outranked now s cache i j a h lt beaten =
    absurd
      (ground (arith, h, outranked-beats now s i j 0 a.detection cache j (omega arith) lt beaten))

active :
    (now : ℕ) (s : Settings) (cache : List Entry) (k : ℕ) (e : Entry)
    → counted now s cache k e ≡ true
    → counts_now now s e ≡ true
unfolding counted
active now s cache k e h = (and-true _ _ h).0

-- Two entries of one device are never both counted.
pub counted_once :
    (now : ℕ) (s : Settings) (cache : List Entry) (i j : ℕ)
    → (i == j) ≡ false
    → i < length cache
    → j < length cache
    → same_device (get_or cache i blank_entry).detection (get_or cache j blank_entry).detection
      ≡ true
    → (counted now s cache i (get_or cache i blank_entry)
        && counted now s cache j (get_or cache j blank_entry))
      ≡ false
counted_once now s cache i j apart hi hj same =
    let a = get_or cache i blank_entry in
    let b = get_or cache j blank_entry in
    elim (Bool-cases (counted now s cache i a && counted now s cache j b)) [
      | inr h ↦ h
      | inl h ↦
          let (ci, cj) = and-true _ _ h in
          elim (one_beats now s i j a b apart (active now s cache i a ci)
            (active now s cache j b cj) same) [
              | inl beaten ↦ absurd (not_outranked now s cache i j a ci hj beaten)
              | inr beaten ↦ absurd (not_outranked now s cache j i b cj hi beaten)
            ]
    ]

-- How many entries from slot i on are counted.
unfoldable pub counted_from : ℕ → Settings → List Entry → ℕ → List Entry → ℕ
counted_from now s cache i [] = 0
counted_from now s cache i (e ∷ es) =
    to_bit (counted now s cache i e) + counted_from now s cache (suc i) es

-- The sum of the three counters.
pub total : List ℕ → ℕ
total [] = 0
total (n ∷ ns) = n + total ns

add_one :
    (counts : List ℕ) (k : ℕ)
    → k < length counts
    → total (set counts k (get_or counts k 0 + 1)) ≡ 1 + total counts
unfolding total
add_one [] k lt = absurd (omega arith)
add_one (n ∷ ns) zero lt = omega arith
add_one (n ∷ ns) (suc k) lt = omega (arith, add_one ns k (omega arith))

total-count_from :
    (now : ℕ) (s : Settings) (cache : List Entry) (i : ℕ) (es : List Entry) (counts : List ℕ)
    → length counts ≡ 3
    → total (count_from now s cache i es counts) ≡ total counts + counted_from now s cache i es
unfolding count_from counted_from
total-count_from now s cache i [] counts three = omega arith
total-count_from now s cache i (e ∷ es) counts three =
    let slot = count_slot e.detection.score in
    let more = set counts slot (get_or counts slot 0 + 1) in
    elim (Bool-cases (counted now s cache i e)) [
      | inl f ↦ rw (f) (
          omega (
            arith,
            total-count_from now s cache (suc i) es more (length-set counts slot _ ∙ three),
            add_one counts slot (ground (arith, three)),
          ))
      | inr f ↦ rw (f) (omega (arith, total-count_from now s cache (suc i) es counts three))
    ]

-- The three counters add up to the number of counted entries.
pub recent_counts-total :
    (g : Engine) (now : ℕ) (s : Settings)
    → total (recent_counts g now s) ≡ counted_from now s g.cache 0 g.cache
unfolding recent_counts total
recent_counts-total g now s =
    omega (arith, total-count_from now s g.cache 0 g.cache (0 ∷ 0 ∷ 0 ∷ []) refl)
