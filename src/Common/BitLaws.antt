-- ===== src/Common/BitLaws.antt =====
-- Setting and clearing a bit, read back at every bit.
use Prim.Native.Nat.{
  bit_xor-bitwise, bit_xor, differ, digits, ℕ, zero, suc, ◌/◌, ◌%◌, ◌^◌, ◌<◌, ◌≤◌,
}
use native.Mathlib.Nat.{pow-suc, mul_comm, div-div-eq-div-mul}
use mathlib.Core.Path.{refl, ◌≡◌, sym, ap, ◌∙◌}
use mathlib.Core.Bool.{true, not, ◌&&◌, ◌||◌}
use native.Mathlib.Omega.{arith}
use surveillance_hound.Common.Tests.{◌==◌}
use surveillance_hound.Common.Bits.{test_bit, set_bit, clear_bit}

pub pow_two_pos : (k : ℕ) → 0 < 2 ^ k
pow_two_pos zero = omega arith
pow_two_pos (suc k) = omega (arith, pow_two_pos k, pow-suc 2 k)

div_pow-suc : (m k : ℕ) → m / 2 ^ suc k ≡ m / 2 / 2 ^ k
div_pow-suc m k = rw (pow-suc 2 k, mul_comm (2 ^ k) 2) (sym (div-div-eq-div-mul m 2 (2 ^ k)))

test_bit-suc : (m k : ℕ) → test_bit m (suc k) ≡ test_bit (m / 2) k
test_bit-suc m k = ap (λ x. (x % 2) == 1) (div_pow-suc m k)

test_bit-zero : (m : ℕ) → test_bit m 0 ≡ (m % 2 == 1)
test_bit-zero m = ground arith

halve-set_bit :
    (m k : ℕ) → (set_bit m (suc k) / 2 ≡ set_bit (m / 2) k) × (set_bit m (suc k) % 2 ≡ m % 2)
halve-set_bit m k = rw (test_bit-suc m k) (ground (arith, pow-suc 2 k))

bit_reached : (m k : ℕ) → test_bit m k ≡ true → 2 ^ k ≤ m
bit_reached m zero h = ground arith
bit_reached m (suc k) h = ground (arith, test_bit-suc m k, bit_reached (m / 2) k, pow-suc 2 k)

halve-clear_bit :
    (m k : ℕ) → (clear_bit m (suc k) / 2 ≡ clear_bit (m / 2) k) × (clear_bit m (suc k) % 2 ≡ m % 2)
halve-clear_bit m k = rw (test_bit-suc m k) (ground (arith, pow-suc 2 k, bit_reached (m / 2) k))

pub test_bit-set_bit : (m k j : ℕ) → test_bit (set_bit m k) j ≡ (k == j || test_bit m j)
test_bit-set_bit m zero zero = ground arith
test_bit-set_bit m zero (suc j) =
    test_bit-suc (set_bit m 0) j
    ∙ ap (λ x. test_bit x j) (ground arith)
    ∙ sym (test_bit-suc m j)
    ∙ ground arith
test_bit-set_bit m (suc k) zero = ground (arith, halve-set_bit m k)
test_bit-set_bit m (suc k) (suc j) =
    test_bit-suc (set_bit m (suc k)) j
    ∙ ap (λ x. test_bit x j) (halve-set_bit m k).0
    ∙ test_bit-set_bit (m / 2) k j
    ∙ ground (arith, test_bit-suc m j)

pub test_bit-clear_bit : (m k j : ℕ) → test_bit (clear_bit m k) j ≡ (not (k == j) && test_bit m j)
test_bit-clear_bit m zero zero = ground arith
test_bit-clear_bit m zero (suc j) =
    test_bit-suc (clear_bit m 0) j
    ∙ ap (λ x. test_bit x j) (ground arith)
    ∙ sym (test_bit-suc m j)
    ∙ ground arith
test_bit-clear_bit m (suc k) zero = ground (arith, halve-clear_bit m k)
test_bit-clear_bit m (suc k) (suc j) =
    test_bit-suc (clear_bit m (suc k)) j
    ∙ ap (λ x. test_bit x j) (halve-clear_bit m k).0
    ∙ test_bit-clear_bit (m / 2) k j
    ∙ ground (arith, test_bit-suc m j)

differ_same : (x : ℕ) → differ x x ≡ 0
differ_same zero = refl
differ_same (suc x) = differ_same x

digits_same : (n a : ℕ) → a ≤ n → digits (λ b. b) differ n a a ≡ 0
digits_same zero a le = omega arith
digits_same (suc n) zero le = refl
digits_same (suc n) (suc a) le =
    rw (digits_same n (suc a / 2) (omega arith), differ_same (suc a % 2)) refl

pub bit_xor_self : (a : ℕ) → bit_xor a a ≡ 0
bit_xor_self a = (λ i. bit_xor-bitwise a a i) ∙ digits_same a a (omega arith)
