-- ===== src/Common/Arrays.antt =====
-- Laws of the array operations and searches of `Lists`.
use Prim.Native.Nat.{◌-◌, ℕ, zero, suc, ◌+◌, ◌<◌, min, ◌≤◌}
use mathlib.Core.Path.{◌≡◌, refl, ap}
use mathlib.Core.Logic.{◌↔◌}
use mathlib.Core.Bool.{not, Bool, true, false, ◌&&◌}
use mathlib.Core.List.{List, [], ◌∷◌, ◌++◌}
use mathlib.Core.Option.{none, some}
use native.Mathlib.Omega.{arith}
use surveillance_hound.Common.Tests.{ltb, ◌==◌, if◌then◌else◌}
use surveillance_hound.Common.Lists.{
  all, count_if, length, get_or, set, take, drop, replicate, find_index, min_from, min_index, All,
  list_eq,
}

module _ {ℓ} {A : Type ℓ} where
  pub length-set : (xs : List A) (i : ℕ) (v : A) → length (set xs i v) ≡ length xs
  length-set [] i v = refl
  length-set (x ∷ xs) zero v = refl
  length-set (x ∷ xs) (suc i) v = ap suc (length-set xs i v)

  pub length-replicate : (n : ℕ) (a : A) → length (replicate n a) ≡ n
  length-replicate zero a = refl
  length-replicate (suc n) a = ap suc (length-replicate n a)

  pub length-append : (xs ys : List A) → length (xs ++ ys) ≡ length xs + length ys
  length-append [] ys = omega arith
  length-append (x ∷ xs) ys = omega (arith, length-append xs ys)

  -- A read after a write, with no side condition.
  pub get_or-set :
      (xs : List A) (i j : ℕ) (v d : A)
      → get_or (set xs i v) j d ≡ (if (i == j) && ltb j (length xs) then v else get_or xs j d)
  get_or-set [] i j v d = ground arith
  get_or-set (x ∷ xs) zero zero v d = ground arith
  get_or-set (x ∷ xs) zero (suc j) v d = ground arith
  get_or-set (x ∷ xs) (suc i) zero v d = ground arith
  get_or-set (x ∷ xs) (suc i) (suc j) v d = ground (arith, get_or-set xs i j v d)

  pub get_or-set_same :
      (xs : List A) (i : ℕ) (v d : A) → i < length xs → get_or (set xs i v) i d ≡ v
  get_or-set_same xs i v d lt = ground (arith, get_or-set xs i i v d)

  pub get_or-set_other :
      (xs : List A) (i j : ℕ) (v d : A)
      → ((j == i) ≡ false)
      → get_or (set xs i v) j d ≡ get_or xs j d
  get_or-set_other xs i j v d off = ground (arith, off, get_or-set xs i j v d)

  pub set-set : (xs : List A) (i : ℕ) (u v : A) → set (set xs i u) i v ≡ set xs i v
  set-set [] i u v = refl
  set-set (x ∷ xs) zero u v = refl
  set-set (x ∷ xs) (suc i) u v = ap (λ t. x ∷ t) (set-set xs i u v)

  pub get_or-ge : (xs : List A) (i : ℕ) (d : A) → length xs ≤ i → get_or xs i d ≡ d
  get_or-ge [] i d h = refl
  get_or-ge (x ∷ xs) zero d h = absurd (omega arith)
  get_or-ge (x ∷ xs) (suc i) d h = get_or-ge xs i d (omega arith)

  pub get_or-replicate : (n i : ℕ) (a : A) → get_or (replicate n a) i a ≡ a
  get_or-replicate zero i a = refl
  get_or-replicate (suc n) zero a = refl
  get_or-replicate (suc n) (suc i) a = get_or-replicate n i a

  pub get_or-append_lt :
      (xs ys : List A) (i : ℕ) (d : A) → i < length xs → get_or (xs ++ ys) i d ≡ get_or xs i d
  get_or-append_lt [] ys i d h = absurd (omega arith)
  get_or-append_lt (x ∷ xs) ys zero d h = refl
  get_or-append_lt (x ∷ xs) ys (suc i) d h = get_or-append_lt xs ys i d (omega arith)

  pub set-append_end : (xs : List A) (a b : A) → set (xs ++ a ∷ []) (length xs) b ≡ xs ++ b ∷ []
  set-append_end [] a b = refl
  set-append_end (x ∷ xs) a b = ap (λ t. x ∷ t) (set-append_end xs a b)

  pub take_all : (xs : List A) (n : ℕ) → length xs ≤ n → take n xs ≡ xs
  take_all [] zero h = refl
  take_all [] (suc n) h = refl
  take_all (x ∷ xs) zero h = absurd (omega arith)
  take_all (x ∷ xs) (suc n) h = ap (λ t. x ∷ t) (take_all xs n (omega arith))

  pub get_or-take :
      (n : ℕ) (xs : List A) (i : ℕ) (d : A) → i < n → get_or (take n xs) i d ≡ get_or xs i d
  get_or-take zero xs i d h = absurd (omega arith)
  get_or-take (suc n) [] i d h = refl
  get_or-take (suc n) (x ∷ xs) zero d h = refl
  get_or-take (suc n) (x ∷ xs) (suc i) d h = get_or-take n xs i d (omega arith)

  pub take-append : (n : ℕ) (xs ys : List A) → length xs ≡ n → take n (xs ++ ys) ≡ xs
  take-append zero [] ys e = refl
  take-append (suc n) [] ys e = absurd (omega arith)
  take-append zero (x ∷ xs) ys e = absurd (omega arith)
  take-append (suc n) (x ∷ xs) ys e = ap (λ t. x ∷ t) (take-append n xs ys (omega arith))

  pub drop-append : (n : ℕ) (xs ys : List A) → length xs ≡ n → drop n (xs ++ ys) ≡ ys
  drop-append zero [] ys e = refl
  drop-append (suc n) [] ys e = absurd (omega arith)
  drop-append zero (x ∷ xs) ys e = absurd (omega arith)
  drop-append (suc n) (x ∷ xs) ys e = drop-append n xs ys (omega arith)

  pub length-drop : (n : ℕ) (xs : List A) → length (drop n xs) ≡ length xs - n
  length-drop zero xs = omega arith
  length-drop (suc n) [] = omega arith
  length-drop (suc n) (x ∷ xs) = omega (arith, length-drop n xs)

  pub length-take : (n : ℕ) (xs : List A) → length (take n xs) ≡ min n (length xs)
  length-take zero xs = omega arith
  length-take (suc n) [] = omega arith
  length-take (suc n) (x ∷ xs) = omega (arith, length-take n xs)

  pub find_index-some :
      (p : A → Bool) (xs : List A) (i : ℕ) (d : A)
      → find_index p xs ≡ some i
      → (i < length xs) × (p (get_or xs i d) ≡ true)
  find_index-some p [] i d e = cc
  find_index-some p (x ∷ xs) zero d e = ground arith
  find_index-some p (x ∷ xs) (suc i) d e = ground (arith, find_index-some p xs i d)

  pub find_none-all :
      (p : A → Bool) (xs : List A) → find_index p xs ≡ none → all (λ x. not (p x)) xs ≡ true
  find_none-all p [] e = refl
  find_none-all p (x ∷ xs) e = ground (arith, find_none-all p xs)

  pub find_some-all :
      (p : A → Bool) (xs : List A) (i : ℕ)
      → find_index p xs ≡ some i
      → all (λ x. not (p x)) xs ≡ false
  find_some-all p [] i e = cc
  find_some-all p (x ∷ xs) zero e = ground arith
  find_some-all p (x ∷ xs) (suc i) e = ground (arith, find_some-all p xs i)

  pub find_index-none :
      (p : A → Bool) (xs : List A) (i : ℕ) (d : A)
      → find_index p xs ≡ none
      → i < length xs
      → p (get_or xs i d) ≡ false
  find_index-none p [] i d e h = absurd (omega arith)
  find_index-none p (x ∷ xs) zero d e h = ground arith
  find_index-none p (x ∷ xs) (suc i) d e h = ground (arith, find_index-none p xs i d)

  pub count_if-le : (p : A → Bool) (xs : List A) → count_if p xs ≤ length xs
  count_if-le p [] = omega arith
  count_if-le p (x ∷ xs) = ground (arith, count_if-le p xs)

  -- Everything passes the test just when the count is the length.
  pub count_if-all : (p : A → Bool) (xs : List A) → (all p xs ≡ true) ↔ (count_if p xs ≡ length xs)
  count_if-all p [] = (λ _. refl, λ _. refl)
  count_if-all p (x ∷ xs) = (
    λ h. ground (arith, (count_if-all p xs).0),
    λ h. ground (arith, (count_if-all p xs).1, count_if-le p xs),
  )

  pub all-get_or :
      (p : A → Bool) (xs : List A) (i : ℕ) (d : A)
      → all p xs ≡ true
      → i < length xs
      → p (get_or xs i d) ≡ true
  all-get_or p [] i d h lt = absurd (omega arith)
  all-get_or p (x ∷ xs) zero d h lt = ground arith
  all-get_or p (x ∷ xs) (suc i) d h lt = ground (arith, all-get_or p xs i d)

  pub all-set :
      (p : A → Bool) (xs : List A) (i : ℕ) (v : A)
      → all p xs ≡ true
      → p v ≡ true
      → all p (set xs i v) ≡ true
  all-set p [] i v h hv = refl
  all-set p (x ∷ xs) zero v h hv = ground arith
  all-set p (x ∷ xs) (suc i) v h hv = ground (arith, all-set p xs i v)

  min_from-lt :
      (key : A → ℕ) (best least i : ℕ) (xs : List A)
      → best < i
      → min_from key best least i xs < i + length xs
  unfolding min_from
  min_from-lt key best least i [] h = omega arith
  min_from-lt key best least i (x ∷ xs) h =
      ground (arith, min_from-lt key i (key x) (suc i) xs, min_from-lt key best least (suc i) xs)

  pub min_index-lt : (key : A → ℕ) (xs : List A) → 0 < length xs → min_index key xs < length xs
  unfolding min_index
  min_index-lt key [] h = h
  min_index-lt key (x ∷ xs) h = omega (arith, min_from-lt key 0 (key x) 1 xs (omega arith))

module _ {ℓ κ} {A : Type ℓ} (P : A → Type κ) where
  pub All-set : (xs : List A) (i : ℕ) (v : A) → All P xs → P v → All P (set xs i v)
  All-set [] i v h hv = h
  All-set (x ∷ xs) zero v h hv = (hv, h.1)
  All-set (x ∷ xs) (suc i) v h hv = (h.0, All-set xs i v h.1 hv)

  pub All-get_or : (xs : List A) (i : ℕ) (d : A) → All P xs → P d → P (get_or xs i d)
  All-get_or [] i d h hd = hd
  All-get_or (x ∷ xs) zero d h hd = h.0
  All-get_or (x ∷ xs) (suc i) d h hd = All-get_or xs i d h.1 hd

  pub All-replicate : (n : ℕ) (a : A) → P a → All P (replicate n a)
  All-replicate zero a h = tt
  All-replicate (suc n) a h = (h, All-replicate n a h)

pub list_eq_refl : (xs : List ℕ) → list_eq xs xs ≡ true
list_eq_refl [] = refl
list_eq_refl (x ∷ xs) = ground (arith, list_eq_refl xs)

pub eq_of_list_eq : (xs ys : List ℕ) → list_eq xs ys ≡ true → xs ≡ ys
eq_of_list_eq [] [] h = refl
eq_of_list_eq [] (y ∷ ys) h = cc
eq_of_list_eq (x ∷ xs) [] h = cc
eq_of_list_eq (x ∷ xs) (y ∷ ys) h = ground (arith, eq_of_list_eq xs ys)
