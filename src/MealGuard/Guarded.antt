-- ===== src/MealGuard/Guarded.antt =====
-- A saved identity that keeps its stamp through any calls, while the guard has stamps.
use surveillance_hound.Common.{
  count_if-set, min_index-le, count_if, get_or-set_other, find_index-some, subst, sym, to_bit, All,
  length-set, ℕ, suc, ◌+◌, ◌%◌, ◌≤◌, ◌<◌, ◌≡◌, refl, ap, ◌∙◌, ◌≢◌, inl, inr, Bool, true, false, not,
  Option, none, some, List, [], ◌∷◌, arith, ◌==◌, Bool-cases, get_or, length, find_index, u64_mod,
}
use surveillance_hound.MealGuard.{
  MealStamp, MealGuard, blank_stamp, stamp_count, full_cooldown, cooldown, allows, destination,
  award,
}
use surveillance_hound.MealGuard.Cooldown.{
  Request, meals, Awarded, award-Awarded, running-forbids, destination-lt,
}

abbrev pub used : MealStamp → Bool
used s = not (s.remaining_ms == 0)

-- The stamp at an index.
abbrev pub at : List MealStamp → ℕ → MealStamp
at stamps i = get_or stamps i blank_stamp

-- A saved identity has its full cooldown, and at most so many stamps are used.
pub record Guarded (hash : ℕ) (g : MealGuard) (n : ℕ) : Type 0 where
  pub slots : length g.stamps ≡ stamp_count
  pub place : ℕ
  pub place_lt : place < stamp_count
  pub hash_is : (at g.stamps place).hash ≡ hash
  pub full_is : (at g.stamps place).remaining_ms ≡ full_cooldown
  pub used_count : count_if used g.stamps ≤ n

-- Where not all stamps are used, one of them is free.
free_stamp :
    (stamps : List MealStamp)
    → count_if used stamps < length stamps
    → (i : ℕ) × (i < length stamps) × ((at stamps i).remaining_ms ≡ 0)
free_stamp [] lt = absurd (omega arith)
free_stamp (s ∷ stamps) lt = elim (Bool-cases (s.remaining_ms == 0)) [
  | inl zero_ ↦ (0, omega arith, ground arith)
  | inr used_ ↦ let (i, inside, e) = free_stamp stamps (ground arith) in (suc i, omega arith, e)
]

module _ (hash : ℕ) (g : MealGuard) (n : ℕ) (h : Guarded hash g n) where
  -- A running identity is refused.
  pub guarded-forbids :
      (now category score : ℕ) (low : Bool)
      → now < full_cooldown
      → allows g hash now category score low ≡ false
  guarded-forbids now category score low early =
      running-forbids g hash now category score low h.place (rw (h.slots) (h.place_lt))
        (ground (arith, h.hash_is, h.full_is))

  -- Another identity's stamp goes elsewhere, while a stamp is free.
  destination-place :
      (other : ℕ) → other ≢ hash → n < stamp_count → destination g.stamps other ≢ h.place
  destination-place other differ room = by_search (find_index (λ s. s.hash == other) g.stamps) refl
    where
      by_search :
          (o : Option ℕ)
          → find_index (λ s. s.hash == other) g.stamps ≡ o
          → destination g.stamps other ≢ h.place
      by_search (some i) e =
          unfold destination in
          rw (e, destination)
            (λ same.
              let mine = (find_index-some (λ s. s.hash == other) g.stamps i blank_stamp e).1 in
              let here = subst (λ j. ((at g.stamps j).hash == other) ≡ true) same mine in
              differ (ground (arith, here, h.hash_is)))
      by_search none e =
          unfold destination in
          rw (e, destination)
            (λ same.
              let (i, inside, zero_) =
                free_stamp g.stamps (omega (arith, h.slots, h.used_count, room)) in
              let least = min_index-le (λ s. s.remaining_ms) g.stamps blank_stamp i inside in
              let here =
                subst (λ j. (at g.stamps j).remaining_ms ≤ (at g.stamps i).remaining_ms) same
                  least in
              absurd (omega (arith, here, zero_, h.full_is)))

  -- A call keeps the saved identity guarded; an award to another one uses one stamp more.
  module _ (r : Request) where
    call : MealGuard × Bool
    call = award g r.hash r.now r.category r.score r.low

    abbrev written : MealStamp
    written = record { hash = r.hash; remaining_ms = (r.now + cooldown r.category) % u64_mod }

    refused-Guarded : call.1 ≡ false → Guarded hash call.0 (n + to_bit call.1)
    unfolding call
    refused-Guarded e =
        subst (λ g'. Guarded hash g' (n + to_bit call.1)) (sym same)
          (record {
            slots = h.slots;
            place = h.place;
            place_lt = h.place_lt;
            hash_is = h.hash_is;
            full_is = h.full_is;
            used_count = omega (arith, h.used_count);
          })
      where
        same : call.0 ≡ g
        same = unfold award in ground (arith, e)

    other_identity : r.now < full_cooldown → call.1 ≡ true → r.hash ≢ hash
    unfolding call
    other_identity early e same =
        let off =
          subst (λ x. allows g x r.now r.category r.score r.low ≡ false) (sym same)
            (guarded-forbids r.now r.category r.score r.low early) in
        unfold award in absurd (ground (arith, off, e))

    awarded-Guarded :
        r.now < full_cooldown
        → n < stamp_count
        → call.1 ≡ true
        → Guarded hash call.0 (n + to_bit call.1)
    unfolding call
    awarded-Guarded early room e = record {
      slots = ap length a.stamps_are ∙ length-set g.stamps slot written ∙ h.slots;
      place = h.place;
      place_lt = h.place_lt;
      hash_is = ap (λ (s : MealStamp). s.hash) kept ∙ h.hash_is;
      full_is = ap (λ (s : MealStamp). s.remaining_ms) kept ∙ h.full_is;
      used_count = omega (
        arith,
        ap (count_if used) a.stamps_are,
        count_if-set used g.stamps slot written blank_stamp in_range,
        h.used_count,
        ap to_bit e,
        bit_le (used written),
      );
    }
      where
        a : Awarded g call.0 r.hash r.now r.category
        a = award-Awarded g r.hash r.now r.category r.score r.low e

        slot : ℕ
        slot = destination g.stamps r.hash

        in_range : slot < length g.stamps
        in_range = destination-lt g.stamps r.hash (omega (arith, h.slots))

        spared : slot ≢ h.place
        spared = destination-place r.hash (other_identity early e) room

        unlike : slot ≢ h.place → (h.place == slot) ≡ false
        unlike apart = ground (arith, apart)

        kept : at call.0.stamps h.place ≡ at g.stamps h.place
        kept =
            ap (λ ss. at ss h.place) a.stamps_are
            ∙ get_or-set_other g.stamps slot h.place written blank_stamp (unlike spared)

        bit_le : (b : Bool) → to_bit b ≤ 1
        bit_le b = ground arith

    call-Guarded :
        r.now < full_cooldown
        → n + to_bit call.1 ≤ stamp_count
        → Guarded hash call.0 (n + to_bit call.1)
    call-Guarded early room = by_result call.1 refl
      where
        by_result : (b : Bool) → call.1 ≡ b → Guarded hash call.0 (n + to_bit call.1)
        by_result false e = refused-Guarded e
        by_result true e = awarded-Guarded early (omega (arith, room, ap to_bit e)) e

-- The guard after a sequence of calls.
unfoldable pub served : MealGuard → List Request → MealGuard
served g [] = g
served g (r ∷ rs) = served (award g r.hash r.now r.category r.score r.low).0 rs

pub served-Guarded :
    (hash : ℕ) (g : MealGuard) (n : ℕ) (rs : List Request)
    → Guarded hash g n
    → All (λ r. r.now < full_cooldown) rs
    → n + meals g rs ≤ stamp_count
    → Guarded hash (served g rs) (n + meals g rs)
unfolding served meals call
served-Guarded hash g n [] h early room = subst (Guarded hash g) (omega arith) h
served-Guarded hash g n (r ∷ rs) h early room =
    let fed = to_bit (award g r.hash r.now r.category r.score r.low).1 in
    let g' = (award g r.hash r.now r.category r.score r.low).0 in
    subst (Guarded hash (served g' rs)) (omega arith) (
      served-Guarded hash g' (n + fed) rs (call-Guarded hash g n h r early.0 (omega (arith, room)))
        early.1 (omega (arith, room)))
