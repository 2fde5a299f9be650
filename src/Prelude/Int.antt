-- ===== src/Prelude/Int.antt =====
-- Signed integers over the native numbers, for the `int` and `int64_t` values that can be negative.
use Prim.Native.Nat.{ℕ, suc, ◌+◌, ◌-◌, ◌*◌, ◌%◌, ◌^◌}
use mathlib.Core.Path.{◌≡◌}
use mathlib.Core.Bool.{Bool, false}
use native.Mathlib.Omega.{arith}
use min_smt.Prelude.Tests.{◌==◌, ltb, leb, if◌then◌else◌}

-- `negsuc n` is -(n + 1).
pub data ℤ : Type 0 where
  pos : ℕ → ℤ
  negsuc : ℕ → ℤ

abbrev pub up : ℤ → ℕ
up (pos n) = n
up (negsuc n) = 0

abbrev pub down : ℤ → ℕ
down (pos n) = 0
down (negsuc n) = suc n

-- The integer `a - b`.
abbrev pub diff : ℕ → ℕ → ℤ
diff a b = if leb b a then pos (a - b) else negsuc (b - a - 1)

infixl 65 ◌+ℤ◌ ◌-ℤ◌
unfoldable pub ◌+ℤ◌ : ℤ → ℤ → ℤ
a +ℤ b = diff (up a + up b) (down a + down b)

unfoldable pub ◌-ℤ◌ : ℤ → ℤ → ℤ
a -ℤ b = diff (up a + down b) (down a + up b)

-- An integer times a factor that is not negative.
unfoldable pub scale : ℕ → ℤ → ℤ
scale k a = diff (k * up a) (k * down a)

-- `a < b`.
abbrev pub lt_ℤ : ℤ → ℤ → Bool
lt_ℤ a b = ltb (up a + down b) (up b + down a)

-- `! a`.
abbrev pub is_zero : ℤ → Bool
is_zero (pos n) = n == 0
is_zero (negsuc n) = false

-- The value as an `uint64_t`.
unfoldable pub to_u64 : ℤ → ℕ
to_u64 (pos n) = n % 2 ^ 64
to_u64 (negsuc n) = (2 ^ 64 - 1) - n % 2 ^ 64

pub +ℤ_parts : (a b : ℤ) → up (a +ℤ b) + down a + down b ≡ down (a +ℤ b) + up a + up b
unfolding ◌+ℤ◌
+ℤ_parts a b = ground arith

pub -ℤ_parts : (a b : ℤ) → up (a -ℤ b) + down a + up b ≡ down (a -ℤ b) + up a + down b
unfolding ◌-ℤ◌
-ℤ_parts a b = ground arith

pub scale_parts : (k : ℕ) (a : ℤ) → up (scale k a) + k * down a ≡ down (scale k a) + k * up a
unfolding scale
scale_parts k a = ground arith

pub eq_of_parts : (a b : ℤ) → up a + down b ≡ up b + down a → a ≡ b
eq_of_parts a b h = ground arith
