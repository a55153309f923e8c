-- ===== src/Common/Lists.antt =====
-- Fixed arrays and byte spans as lists with native indices, and the array searches of the code:
-- the first slot that passes a test (a range-for with break) and `std::min_element`.
use Prim.Native.Nat.{ℕ, zero, suc}
use mathlib.Core.Bool.{Bool, true, false, ◌&&◌}
use mathlib.Core.List.{List, [], ◌∷◌}
use mathlib.Core.Option.{Option, none, some}
use surveillance_hound.Common.Tests.{ltb, ◌==◌, if◌then◌else◌}

module _ {ℓ} {A : Type ℓ} where
  abbrev pub length : List A → ℕ
  length [] = 0
  length (x ∷ xs) = suc (length xs)

  abbrev pub get_elem? : List A → ℕ → Option A
  get_elem? [] i = none
  get_elem? (x ∷ xs) zero = some x
  get_elem? (x ∷ xs) (suc i) = get_elem? xs i

  abbrev pub get_or : List A → ℕ → A → A
  get_or [] i d = d
  get_or (x ∷ xs) zero d = x
  get_or (x ∷ xs) (suc i) d = get_or xs i d

  -- A write out of bounds changes nothing.
  abbrev pub set : List A → ℕ → A → List A
  set [] i v = []
  set (x ∷ xs) zero v = v ∷ xs
  set (x ∷ xs) (suc i) v = x ∷ set xs i v

  abbrev pub take : ℕ → List A → List A
  take zero xs = []
  take (suc n) [] = []
  take (suc n) (x ∷ xs) = x ∷ take n xs

  abbrev pub drop : ℕ → List A → List A
  drop zero xs = xs
  drop (suc n) [] = []
  drop (suc n) (x ∷ xs) = drop n xs

  abbrev pub replicate : ℕ → A → List A
  replicate zero a = []
  replicate (suc n) a = a ∷ replicate n a

  abbrev pub all : (A → Bool) → List A → Bool
  all p [] = true
  all p (x ∷ xs) = p x && all p xs

  -- How many elements pass the test.
  abbrev pub count_if : (A → Bool) → List A → ℕ
  count_if p [] = 0
  count_if p (x ∷ xs) = if p x then suc (count_if p xs) else count_if p xs

  -- The index of the first element that passes the test.
  abbrev pub find_index : (A → Bool) → List A → Option ℕ
  find_index p [] = none
  find_index p (x ∷ xs) = if p x then some 0 else next (find_index p xs)
    where
      next : Option ℕ → Option ℕ
      next none = none
      next (some i) = some (suc i)

  -- `std::min_element`: the first index at which the key is least.
  unfoldable pub min_from : (A → ℕ) → ℕ → ℕ → ℕ → List A → ℕ
  min_from key best least i [] = best
  min_from key best least i (x ∷ xs) =
      let better = ltb (key x) least in
      min_from key (if better then i else best) (if better then key x else least) (suc i) xs

  unfoldable pub min_index : (A → ℕ) → List A → ℕ
  unfolding min_from
  min_index key [] = 0
  min_index key (x ∷ xs) = min_from key 0 (key x) 1 xs

abbrev pub All {ℓ ℓ'} : {X : Type ℓ} → (X → Type ℓ') → List X → Type ℓ'
All good [] = Unit
All good (first ∷ others) = good first × All good others

abbrev pub list_eq : List ℕ → List ℕ → Bool
list_eq [] [] = true
list_eq (x ∷ xs) (y ∷ ys) = (x == y) && list_eq xs ys
list_eq _ _ = false

-- Bytes of an array, a zero out of range (the code checks its bounds before it reads).
abbrev pub byte_at : List ℕ → ℕ → ℕ
byte_at xs i = get_or xs i 0
