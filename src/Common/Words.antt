-- ===== src/Common/Words.antt =====
-- Fixed-width arithmetic, and facts about small ranges shown by evaluation.
use Prim.Native.Nat.{ℕ, zero, suc, ◌-◌, ◌^◌, ◌<◌}
use mathlib.Core.Path.{◌≡◌}
use mathlib.Core.Bool.{Bool, true, ◌&&◌}
use native.Mathlib.Omega.{arith}

abbrev pub u32_mod : ℕ
u32_mod = 2 ^ 32

abbrev pub u64_mod : ℕ
u64_mod = 2 ^ 64

-- `SIZE_MAX` of a 64-bit host.
abbrev pub size_max : ℕ
size_max = 2 ^ 64 - 1

-- A test over all numbers below a bound, from the least.
unfoldable pub all_below : (bound : ℕ) (test : ℕ → Bool) → Bool
all_below zero test = true
all_below (suc bound) test = all_below bound test && test bound

pub all_below_sound :
    (bound : ℕ) (test : ℕ → Bool) (k : ℕ) → k < bound → all_below bound test ≡ true → test k ≡ true
unfolding all_below
all_below_sound zero test k below passes = absurd (omega arith)
all_below_sound (suc bound) test k below passes = ground (arith, all_below_sound bound test k)
