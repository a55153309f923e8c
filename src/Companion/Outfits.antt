-- ===== src/Companion/Outfits.antt =====
-- Outfits: which ones `unlock` earns, what it reports as new, and that it takes none away.
use surveillance_hound.Common.{
  test_bit, ℕ, zero, suc, ◌-◌, ◌≤◌, ◌<◌, ◌≡◌, refl, ◌↔◌, ◌⊎◌, inl, inr, Bool, true, false, not,
  ◌&&◌, ◌||◌, arith, ltb, bool_eq, Bool-cases, checked_up_to, checked_up_to-at,
}
use Prim.Native.Nat.{bit_and, bit_or}
use surveillance_hound.Companion.{
  Companion, outfit_count, discoveries, earned, unlock, valid_outfits,
}

-- The rule of each outfit, as the goals on the screen name them.
abbrev pub Earns : ℕ → ℕ → ℕ → Type 0
Earns xp found zero = Unit
Earns xp found (suc zero) = 25 ≤ xp
Earns xp found (suc (suc zero)) = 100 ≤ xp
Earns xp found (suc (suc (suc zero))) = 5 ≤ found
Earns xp found (suc (suc (suc (suc zero)))) = 300 ≤ xp
Earns xp found (suc (suc (suc (suc (suc zero))))) = 10 ≤ found
Earns xp found (suc (suc (suc (suc (suc (suc k)))))) = ⊥

earned-Earns :
    (xp found k : ℕ) → k < outfit_count → (test_bit (earned xp found) k ≡ true) ↔ Earns xp found k
unfolding earned
earned-Earns xp found zero lt = (λ h. tt, λ h. ground arith)
earned-Earns xp found (suc zero) lt = (λ h. ground arith, λ h. ground arith)
earned-Earns xp found (suc (suc zero)) lt = (λ h. ground arith, λ h. ground arith)
earned-Earns xp found (suc (suc (suc zero))) lt = (λ h. ground arith, λ h. ground arith)
earned-Earns xp found (suc (suc (suc (suc zero)))) lt = (λ h. ground arith, λ h. ground arith)
earned-Earns xp found (suc (suc (suc (suc (suc zero))))) lt = (λ h. ground arith, λ h. ground arith)
earned-Earns xp found (suc (suc (suc (suc (suc (suc k)))))) lt = absurd (omega arith)

earned-lt : (xp found : ℕ) → earned xp found < 64
unfolding earned
earned-lt xp found = ground arith

-- The byte operations on outfit sets, bit by bit, for every pair of sets.
union_at : ℕ → ℕ → ℕ → Bool
union_at u e k = bool_eq (test_bit (bit_or u e) k) (test_bit u k || test_bit e k)

new_at : ℕ → ℕ → ℕ → Bool
new_at u e k = bool_eq (test_bit (bit_and e (255 - u)) k) (test_bit e k && not (test_bit u k))

sets_at : ℕ → ℕ → Bool
sets_at u e = ltb (bit_or u e) 64 && checked_up_to (λ k. union_at u e k && new_at u e k) 6

sets_table : checked_up_to (λ u. checked_up_to (sets_at u) 64) 64 ≡ true
unfolding checked_up_to union_at new_at sets_at
sets_table = refl

bool_eq→eq : (a b : Bool) → bool_eq a b ≡ true → a ≡ b
bool_eq→eq a b h = ground arith

record SetLaws (u e k : ℕ) : Type 0 where
  small : bit_or u e < 64
  union : test_bit (bit_or u e) k ≡ (test_bit u k || test_bit e k)
  fresh : test_bit (bit_and e (255 - u)) k ≡ (test_bit e k && not (test_bit u k))

set_laws : (u e k : ℕ) → u < 64 → e < 64 → k < 6 → SetLaws u e k
set_laws u e k hu he hk = record {
  small = ground (arith, row);
  union = bool_eq→eq _ _ (unfold union_at in ground (arith, cell));
  fresh = bool_eq→eq _ _ (unfold new_at in ground (arith, cell));
}
  where
    row : (ltb (bit_or u e) 64 && checked_up_to (λ k. union_at u e k && new_at u e k) 6) ≡ true
    row =
        unfold sets_at in
        checked_up_to-at (sets_at u) 64 e he
          (checked_up_to-at (λ v. checked_up_to (sets_at v) 64) 64 u hu sets_table)

    cell : (union_at u e k && new_at u e k) ≡ true
    cell = checked_up_to-at (λ i. union_at u e i && new_at u e i) 6 k hk (ground (arith, row))

-- What `unlock` does to outfit k.
pub record Unlocks (c : Companion) (xp k : ℕ) : Type 0 where
  pub worn_or_earned :
      (test_bit (unlock c xp).0.unlocked k ≡ true)
      ↔ ((test_bit c.unlocked k ≡ true) ⊎ Earns xp (discoveries c) k)
  pub reported :
      (test_bit (unlock c xp).1 k ≡ true)
      ↔ ((test_bit c.unlocked k ≡ false) × Earns xp (discoveries c) k)

module _ (c : Companion) (xp : ℕ) (known : c.unlocked < 64) where
  -- An outfit is unlocked after a call exactly when it was before or its goal is met, and the call
  -- reports exactly the outfits that are new.
  pub unlock-Unlocks : (k : ℕ) → k < outfit_count → Unlocks c xp k
  unfolding unlock
  unlock-Unlocks k lt = record {
    worn_or_earned = (
      λ h. either (earned-Earns xp (discoveries c) k lt).0 h,
      λ h. back (earned-Earns xp (discoveries c) k lt).1 h,
    );
    reported = (
      λ h. (
        ground (arith, laws.fresh),
        (earned-Earns xp (discoveries c) k lt).0 (ground (arith, laws.fresh)),
      ),
      λ h. ground (arith, laws.fresh, (earned-Earns xp (discoveries c) k lt).1 h.1),
    );
  }
    where
      laws : SetLaws c.unlocked (earned xp (discoveries c)) k
      laws =
          set_laws c.unlocked (earned xp (discoveries c)) k known (earned-lt xp (discoveries c)) lt

      either :
          (test_bit (earned xp (discoveries c)) k ≡ true → Earns xp (discoveries c) k)
          → test_bit (bit_or c.unlocked (earned xp (discoveries c))) k ≡ true
          → (test_bit c.unlocked k ≡ true) ⊎ Earns xp (discoveries c) k
      either to h = elim (Bool-cases (test_bit c.unlocked k)) [
        | inl had ↦ inl had
        | inr lacked ↦ inr (to (ground (arith, laws.union)))
      ]

      back :
          (Earns xp (discoveries c) k → test_bit (earned xp (discoveries c)) k ≡ true)
          → (test_bit c.unlocked k ≡ true) ⊎ Earns xp (discoveries c) k
          → test_bit (bit_or c.unlocked (earned xp (discoveries c))) k ≡ true
      back from (inl had) = ground (arith, laws.union)
      back from (inr met) = ground (arith, laws.union, from met)

  -- Unlocking keeps the outfit byte valid.
  pub unlock-valid_outfits :
      valid_outfits c.equipped c.unlocked ≡ true
      → valid_outfits c.equipped (unlock c xp).0.unlocked ≡ true
  unfolding unlock valid_outfits
  unlock-valid_outfits v = ground (
    arith,
    laws 0,
    laws c.equipped,
    (laws 0 (omega arith)).small,
    (laws 0 (omega arith)).union,
    (laws c.equipped (ground arith)).union,
  )
    where
      laws : (k : ℕ) → k < 6 → SetLaws c.unlocked (earned xp (discoveries c)) k
      laws k lt =
          set_laws c.unlocked (earned xp (discoveries c)) k known (earned-lt xp (discoveries c)) lt
