-- ===== src/Common/Bits.antt =====
-- Single bits of a word, as quotients and remainders.
use Prim.Native.Nat.{zero, suc, ◌<◌, ℕ, ◌+◌, ◌-◌, ◌/◌, ◌%◌, ◌^◌}
use native.Mathlib.Omega.{arith}
use mathlib.Core.Path.{◌≡◌}
use mathlib.Core.Bool.{◌&&◌, true, Bool}
use surveillance_hound.Common.Tests.{◌==◌, if◌then◌else◌}

-- (m >> k) & 1
abbrev pub test_bit : ℕ → ℕ → Bool
test_bit m k = (m / 2 ^ k) % 2 == 1

-- m | (1 << k) and m & ~(1 << k)
abbrev pub set_bit : ℕ → ℕ → ℕ
set_bit m k = if test_bit m k then m else m + 2 ^ k

abbrev pub clear_bit : ℕ → ℕ → ℕ
clear_bit m k = if test_bit m k then m - 2 ^ k else m

abbrev pub u8_mod : ℕ
u8_mod = 2 ^ 8

abbrev pub u32_mod : ℕ
u32_mod = 2 ^ 32

abbrev pub u64_mod : ℕ
u64_mod = 2 ^ 64

-- uint64_t subtraction that wraps around, of numbers in range.
abbrev pub sub64 : ℕ → ℕ → ℕ
sub64 x y = (x + (u64_mod - y)) % u64_mod

-- A test that holds of every number under a small bound, checked by evaluation.
unfoldable pub checked_up_to : (ℕ → Bool) → ℕ → Bool
checked_up_to test zero = true
checked_up_to test (suc top) = checked_up_to test top && test top

pub checked_up_to-at :
    (test : ℕ → Bool) (bound k : ℕ) → k < bound → checked_up_to test bound ≡ true → test k ≡ true
unfolding checked_up_to
checked_up_to-at test zero k under all = absurd (omega arith)
checked_up_to-at test (suc top) k under all = ground (arith, checked_up_to-at test top k)
