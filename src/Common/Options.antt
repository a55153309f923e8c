-- ===== src/Common/Options.antt =====
-- Chains of steps that can fail: `none` stands for the source's `return false` or `return -1`.
use mathlib.Core.Path.{◌≡◌, refl}
use mathlib.Core.Bool.{Bool, true, false}
use mathlib.Core.Option.{Option, none, some}

infixl 5 ◌>>=◌ ◌>>◌
abbrev pub ◌>>=◌ {ℓ κ} : {A : Type ℓ} {B : Type κ} → Option A → (A → Option B) → Option B
none >>= f = none
some a >>= f = f a

abbrev pub ◌>>◌ {ℓ} : {B : Type ℓ} → Option (Unit {0}) → Option B → Option B
m >> k = m >>= λ _. k

abbrev pub guard : Bool → Option (Unit {0})
guard true = some tt
guard false = none

module _ {ℓ κ} {A : Type ℓ} {B : Type κ} where
  -- A chain that succeeds went through each of its steps.
  pub >>=-eq-some :
      (m : Option A) (f : A → Option B) {b : B}
      → (m >>= f) ≡ some b
      → (a : A) × (m ≡ some a) × (f a ≡ some b)
  >>=-eq-some none f e = cc
  >>=-eq-some (some a) f e = (a, refl, e)

pub guard-eq-some {ℓ} :
    {B : Type ℓ} (test : Bool) (k : Option B) {b : B}
    → (guard test >> k) ≡ some b
    → (test ≡ true) × (k ≡ some b)
guard-eq-some true k e = (refl, e)
guard-eq-some false k e = cc

-- Two chains agree when their next steps do.
pub >>=_same {ℓ κ} :
    {A : Type ℓ} {B : Type κ} (m : Option A) (f g : A → Option B)
    → ((a : A) → m ≡ some a → f a ≡ g a)
    → (m >>= f) ≡ (m >>= g)
>>=_same none f g h = refl
>>=_same (some a) f g h = h a refl
