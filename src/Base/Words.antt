-- ===== src/Base/Words.antt =====
-- 32-bit machine words as natural numbers. An `int` is the word of its two's complement.
use Prim.Native.Nat.{ℕ, ◌+◌, ◌-◌, ◌%◌, ◌<◌}
use mathlib.Core.Path.{◌≡◌}
use mathlib.Core.Bool.{Bool}
use native.Mathlib.Omega.{arith}
use ndnrtc.Base.Tests.{ltb, leb, if◌then◌else◌}

abbrev pub u32_mod : ℕ
u32_mod = 4294967296

abbrev pub int_mod : ℕ
int_mod = 2147483648

abbrev pub u32 : ℕ → ℕ
u32 n = n % u32_mod

-- The order of two `int`s: adding the sign bit turns it into the order of the words.
abbrev pub int_lt : ℕ → ℕ → Bool
int_lt a b = ltb (u32 (a + int_mod)) (u32 (b + int_mod))

abbrev pub int_le : ℕ → ℕ → Bool
int_le a b = leb (u32 (a + int_mod)) (u32 (b + int_mod))

-- std::max of two `int`s.
abbrev pub int_max : ℕ → ℕ → ℕ
int_max a b = if int_lt a b then b else a

-- -x, as an `int`.
abbrev pub int_neg : ℕ → ℕ
int_neg x = u32 (u32_mod - x)

-- a - b, as an `unsigned int`.
abbrev pub sub32 : ℕ → ℕ → ℕ
sub32 a b = u32 (a + u32_mod - b)

-- Below the sign bit the order of `int`s is that of the numbers.
pub int_lt_lem : (a b : ℕ) → a < int_mod → b < int_mod → int_lt a b ≡ ltb a b
int_lt_lem a b p q = ground arith
