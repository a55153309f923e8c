-- ===== src/Behavior/Downgrade.antt =====
-- Remembered access points: a table of one slot for each address, and what a downgrade is found in.
use surveillance_hound.Common.{
  get_or-replicate, get_or-set_other, get_or-set_same, ==→eq, length-set, min_index-lt, and-true, ℕ,
  zero, suc, ◌+◌, ◌≤◌, ◌<◌, ◌≡◌, refl, sym, ap, subst, ◌∙◌, inl, inr, Bool, true, false, not, ◌&&◌,
  ◌||◌, Option, none, some, List, [], ◌∷◌, arith, ◌==◌, bool_eq, Bool-cases, get_or, set, length,
  list_eq, list_eq_refl, eq_of_list_eq, find_index, find_index-some, find_index-none, take,
}
use surveillance_hound.Core.{Observation, radio_eq, wifi}
use surveillance_hound.Signatures.{hosts_network}
use surveillance_hound.Behavior.{
  no_aps, ap_slot_or, free_ap, holds_address, AccessPoint, blank_ap, remember_ap, ap_slot, summary,
  security, any_clash, clashes,
}

-- What `remember_ap` takes note of.
abbrev pub noted : Observation → Bool
noted o = radio_eq o.radio wifi && hosts_network o && not (o.ssid_len == 0) && not o.pwnagotchi

any_clash-set :
    (o : Observation) (aps : List AccessPoint) (i : ℕ) (a : AccessPoint)
    → i < length aps
    → clashes o a ≡ true
    → any_clash false o (set aps i a) ≡ true
unfolding any_clash
any_clash-set o [] i a lt e = absurd (omega arith)
any_clash-set o (x ∷ aps) zero a lt e = ground (arith, e)
any_clash-set o (x ∷ aps) (suc i) a lt e = ground (arith, any_clash-set o aps i a (omega arith) e)

-- The observation is of another access point of a network, at most 30 seconds later and with other
-- protection.
pub record Differs (a o : Observation) : Type 0 where
  pub hosts : hosts_network o ≡ true
  pub named : (o.ssid_len == 0) ≡ false
  pub after : a.ms ≤ o.ms
  pub soon : o.ms ≤ a.ms + 30000
  pub other : list_eq a.address o.address ≡ false
  pub same_length : o.ssid_len ≡ a.ssid_len
  pub same_ssid : list_eq (take o.ssid_len o.ssid) (take o.ssid_len a.ssid) ≡ true
  pub protection : bool_eq o.protected_network a.protected_network ≡ false

clashes-summary :
    (a o : Observation) → Differs a o → clashes o (record { used = true; obs = summary a }) ≡ true
unfolding clashes summary
clashes-summary a o d =
    ground (arith, d.after, d.soon, d.other, d.same_length, d.same_ssid, d.protection)

-- No two slots in use have the same address.
pub IsDistinct : List AccessPoint → Type 0
IsDistinct aps =
    (i j : ℕ)
    → i < length aps
    → j < length aps
    → (get_or aps i blank_ap).used ≡ true
    → (get_or aps j blank_ap).used ≡ true
    → (get_or aps i blank_ap).obs.address ≡ (get_or aps j blank_ap).obs.address
    → i ≡ j

no_aps_unused : (k : ℕ) → (get_or no_aps k blank_ap).used ≡ false
no_aps_unused k = ap (λ a. a.used) (get_or-replicate 24 k blank_ap)

pub no_aps-IsDistinct : IsDistinct no_aps
unfolding IsDistinct
no_aps-IsDistinct i j hi hj ui uj same = absurd (ground (arith, ui, no_aps_unused i))

-- The chosen slot is one of the table, and any slot that holds the address is the chosen one.
record Chosen (aps : List AccessPoint) (o : Observation) (i : ℕ) : Type 0 where
  inside : i < length aps
  only : (j : ℕ) → j < length aps → holds_address o (get_or aps j blank_ap) ≡ true → j ≡ i

address_only :
    (aps : List AccessPoint) (o : Observation) (i j : ℕ)
    → IsDistinct aps
    → i < length aps
    → j < length aps
    → holds_address o (get_or aps i blank_ap) ≡ true
    → holds_address o (get_or aps j blank_ap) ≡ true
    → j ≡ i
unfolding IsDistinct
address_only aps o i j distinct hi hj ei ej =
    let (ui, ai) = and-true _ _ ei in
    let (uj, aj) = and-true _ _ ej in
    distinct j i hj hi uj ui (eq_of_list_eq _ _ aj ∙ sym (eq_of_list_eq _ _ ai))

free_ap-lt :
    (aps : List AccessPoint) (found : Option ℕ)
    → find_index (λ a. not a.used) aps ≡ found
    → 0 < length aps
    → free_ap aps found < length aps
unfolding free_ap
free_ap-lt aps (some i) e room = (find_index-some (λ a. not a.used) aps i blank_ap e).0
free_ap-lt aps none e room = min_index-lt (λ a. a.obs.ms) aps room

ap_slot_or-Chosen :
    (aps : List AccessPoint) (o : Observation) (found : Option ℕ)
    → find_index (holds_address o) aps ≡ found
    → 0 < length aps
    → IsDistinct aps
    → Chosen aps o (ap_slot_or aps found)
unfolding ap_slot_or
ap_slot_or-Chosen aps o (some i) e room distinct =
    let (inside, holds) = find_index-some (holds_address o) aps i blank_ap e in
    record { inside = inside; only = λ j hj ej. address_only aps o i j distinct inside hj holds ej }
ap_slot_or-Chosen aps o none e room distinct = record {
  inside = free_ap-lt aps (find_index (λ a. not a.used) aps) refl room;
  only =
      λ j hj ej. absurd (ground (arith, ej, find_index-none (holds_address o) aps j blank_ap e hj));
}

ap_slot-Chosen :
    (aps : List AccessPoint) (o : Observation)
    → 0 < length aps
    → IsDistinct aps
    → Chosen aps o (ap_slot aps o)
unfolding ap_slot
ap_slot-Chosen aps o room distinct =
    ap_slot_or-Chosen aps o (find_index (holds_address o) aps) refl room distinct

-- A slot beside the written one cannot have the written address.
clash_free :
    (aps : List AccessPoint) (o : Observation) (i k : ℕ)
    → Chosen aps o i
    → k < length aps
    → (get_or aps k blank_ap).used ≡ true
    → o.address ≡ (get_or aps k blank_ap).obs.address
    → k ≡ i
clash_free aps o i k chosen hk uk same =
    chosen.only k hk
      (ground (arith, uk, subst (λ x. list_eq x o.address ≡ true) same (list_eq_refl o.address)))

set-IsDistinct :
    (aps : List AccessPoint) (o : Observation) (i : ℕ)
    → IsDistinct aps
    → Chosen aps o i
    → IsDistinct (set aps i (record { used = true; obs = summary o }))
unfolding IsDistinct summary
set-IsDistinct aps o i distinct chosen j k hj hk =
    let size = length-set aps i (entry o) in
    let hj' : j < length aps = omega (arith, size) in
    let hk' : k < length aps = omega (arith, size) in
    elim (Bool-cases (j == i)) [
      | inl ej ↦ elim (Bool-cases (k == i)) [
        | inl ek ↦ λ uj uk same. ground (arith, ej, ek)
        | inr ek ↦
            rw
              (
                ==→eq j i ej,
                get_or-set_same aps i (entry o) blank_ap chosen.inside,
                get_or-set_other aps i k (entry o) blank_ap ek,
              )
              (λ uj uk same. sym (clash_free aps o i k chosen hk' uk same))
      ]
      | inr ej ↦ elim (Bool-cases (k == i)) [
        | inl ek ↦
            rw
              (
                ==→eq k i ek,
                get_or-set_same aps i (entry o) blank_ap chosen.inside,
                get_or-set_other aps i j (entry o) blank_ap ej,
              )
              (λ uj uk same. clash_free aps o i j chosen hj' uj (sym same))
        | inr ek ↦
            rw
              (
                get_or-set_other aps i j (entry o) blank_ap ej,
                get_or-set_other aps i k (entry o) blank_ap ek,
              )
              (distinct j k hj' hk')
      ]
    ]
  where
    entry : Observation → AccessPoint
    entry x = record { used = true; obs = summary x }

-- Remembering an access point keeps one slot for each address.
pub remember_ap-IsDistinct :
    (aps : List AccessPoint) (o : Observation)
    → 0 < length aps
    → IsDistinct aps
    → IsDistinct (remember_ap aps o)
unfolding remember_ap
remember_ap-IsDistinct aps o room distinct =
    elim (Bool-cases
      (not (radio_eq o.radio wifi) || not (hosts_network o) || (o.ssid_len == 0) || o.pwnagotchi)) [
        | inl e ↦ rw (e) distinct
        | inr e ↦
            rw (e)
              (set-IsDistinct aps o (ap_slot aps o) distinct (ap_slot-Chosen aps o room distinct))
      ]

remember_ap-noted :
    (aps : List AccessPoint) (a : Observation)
    → noted a ≡ true
    → remember_ap aps a ≡ set aps (ap_slot aps a) (record { used = true; obs = summary a })
unfolding remember_ap
remember_ap-noted aps a e = ground (arith, e)

-- After an access point is noted, another one of the same network within 30 seconds, with other
-- protection, is reported as a downgrade.
pub security-remember_ap :
    (aps : List AccessPoint) (a o : Observation)
    → 0 < length aps
    → IsDistinct aps
    → noted a ≡ true
    → Differs a o
    → security false o (remember_ap aps a) ≡ true
unfolding security
security-remember_ap aps a o room distinct e d =
    rw (remember_ap-noted aps a e, d.hosts, d.named)
      (any_clash-set o aps (ap_slot aps a) _ (ap_slot-Chosen aps a room distinct).inside
        (clashes-summary a o d))
