-- ===== src/Common/Counts.antt =====
-- Laws of counts under a write, and of the least key.
use Prim.Native.Nat.{ℕ, zero, suc, ◌+◌, ◌<◌, ◌≤◌}
use mathlib.Core.Path.{◌≡◌, refl, subst, sym}
use mathlib.Core.Logic.{inl, inr}
use mathlib.Core.Bool.{Bool}
use mathlib.Core.List.{List, [], ◌∷◌}
use native.Mathlib.Omega.{arith}
use surveillance_hound.Common.Tests.{ltb, to_bit, Bool-cases}
use surveillance_hound.Common.Lists.{count_if, length, get_or, set, min_from, min_index}

module _ {ℓ} {A : Type ℓ} where
  pub count_if-set :
      (p : A → Bool) (xs : List A) (i : ℕ) (v d : A)
      → i < length xs
      → count_if p (set xs i v) + to_bit (p (get_or xs i d)) ≡ count_if p xs + to_bit (p v)
  count_if-set p [] i v d lt = absurd (omega arith)
  count_if-set p (x ∷ xs) zero v d lt = ground arith
  count_if-set p (x ∷ xs) (suc i) v d lt = ground (arith, count_if-set p xs i v d)

  module _ (key : A → ℕ) (whole : List A) (d : A) where
    -- `xs` stands in the whole list from `i` on.
    min_from-le :
        (best least i : ℕ) (xs : List A)
        → key (get_or whole best d) ≡ least
        → ((n : ℕ) → n < length xs → get_or whole (i + n) d ≡ get_or xs n d)
        → (key (get_or whole (min_from key best least i xs) d) ≤ least)
          × ((n : ℕ)
              → n < length xs
              → key (get_or whole (min_from key best least i xs) d) ≤ key (get_or xs n d))
    unfolding min_from
    min_from-le best least i [] here part = (omega (arith, here), λ n lt. absurd (omega arith))
    min_from-le best least i (x ∷ xs) here part = elim (Bool-cases (ltb (key x) least)) [
      | inl better ↦
          let r = min_from-le i (key x) (suc i) xs (subst (λ y. key y ≡ key x) head refl) rest in
          rw (better) (ground (arith, r.0), all_of _ r.0 r.1)
      | inr worse ↦
          let r = min_from-le best least (suc i) xs here rest in
          rw (worse) (r.0, all_of _ (ground (arith, r.0)) r.1)
    ]
      where
        head : x ≡ get_or whole i d
        head = subst (λ m. x ≡ get_or whole m d) (omega arith) (sym (part 0 (omega arith)))

        rest : (n : ℕ) → n < length xs → get_or whole (suc i + n) d ≡ get_or xs n d
        rest n lt =
            subst (λ m. get_or whole m d ≡ get_or xs n d) (omega arith) (part (suc n) (omega arith))

        all_of :
            (m : ℕ)
            → m ≤ key x
            → ((n : ℕ) → n < length xs → m ≤ key (get_or xs n d))
            → (n : ℕ) → n < length (x ∷ xs)
            → m ≤ key (get_or (x ∷ xs) n d)
        all_of m first others zero lt = first
        all_of m first others (suc n) lt = others n (omega arith)

  later :
      (x : A) (xs : List A) (d : A) (n : ℕ)
      → n < length xs
      → get_or (x ∷ xs) (1 + n) d ≡ get_or xs n d
  later x xs d n lt =
      subst (λ m. get_or (x ∷ xs) m d ≡ get_or xs n d) {x = suc n} {y = 1 + n} (omega arith) refl

  -- No key is less than the one at the least index.
  pub min_index-le :
      (key : A → ℕ) (xs : List A) (d : A) (n : ℕ)
      → n < length xs
      → key (get_or xs (min_index key xs) d) ≤ key (get_or xs n d)
  unfolding min_index
  min_index-le key [] d n lt = absurd (omega arith)
  min_index-le key (x ∷ xs) d zero lt =
      (min_from-le key (x ∷ xs) d 0 (key x) 1 xs refl (later x xs d)).0
  min_index-le key (x ∷ xs) d (suc n) lt =
      (min_from-le key (x ∷ xs) d 0 (key x) 1 xs refl (later x xs d)).1 n (omega arith)
