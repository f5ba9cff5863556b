-- ===== src/Prelude/Int.antt =====
-- Signed integers over the native numbers, and the `i64` operations that the program uses.
use Prim.Native.Nat.{ℕ, suc, ◌+◌, ◌-◌, ◌≤◌, ◌^◌, ◌%◌}
use mathlib.Core.Path.{◌≡◌}
use mathlib.Core.Bool.{Bool}
use native.Mathlib.Omega.{arith}
use den_browser.Prelude.Tests.{ltb, leb, if◌then◌else◌}

-- `negsuc n` is -(n + 1).
pub data ℤ : Type 0 where
  pos : ℕ → ℤ
  negsuc : ℕ → ℤ

abbrev pub pos_part : ℤ → ℕ
pos_part (pos n) = n
pos_part (negsuc n) = 0

abbrev pub neg_part : ℤ → ℕ
neg_part (pos n) = 0
neg_part (negsuc n) = suc n

-- a - b, as an integer.
abbrev pub sub_ℕ : ℕ → ℕ → ℤ
sub_ℕ a b = if leb b a then pos (a - b) else negsuc (b - a - 1)

infixl 65 ◌-ℤ◌
infix 50 ◌≤ℤ◌
unfoldable pub ◌-ℤ◌ : ℤ → ℤ → ℤ
a -ℤ b = sub_ℕ (pos_part a + neg_part b) (neg_part a + pos_part b)

abbrev pub ◌≤ℤ◌ : ℤ → ℤ → Type 0
a ≤ℤ b = pos_part a + neg_part b ≤ pos_part b + neg_part a

abbrev pub ltb_ℤ : ℤ → ℤ → Bool
ltb_ℤ a b = ltb (pos_part a + neg_part b) (pos_part b + neg_part a)

abbrev pub i64_max : ℕ
i64_max = 2 ^ 63 - 1

-- The nearest `i64`: i64::MAX is `pos i64_max` and i64::MIN is `negsuc i64_max`.
unfoldable pub clamp_i64 : ℤ → ℤ
clamp_i64 (pos n) = if ltb i64_max n then pos i64_max else pos n
clamp_i64 (negsuc n) = if ltb i64_max n then negsuc i64_max else negsuc n

unfoldable pub saturating_sub : ℤ → ℤ → ℤ
unfolding clamp_i64 ◌-ℤ◌
saturating_sub a b = clamp_i64 (a -ℤ b)

unfoldable pub saturating_abs : ℤ → ℤ
unfolding clamp_i64
saturating_abs (pos n) = pos n
saturating_abs (negsuc n) = clamp_i64 (pos (suc n))

-- `x as i64` for an unsigned 64-bit `x`: the same bits, read as two's complement.
unfoldable pub as_i64 : ℕ → ℤ
as_i64 x = let r = x % 2 ^ 64 in if leb r i64_max then pos r else negsuc (2 ^ 64 - r - 1)

pub as_i64_small : (x : ℕ) → x ≤ i64_max → as_i64 x ≡ pos x
unfolding as_i64
as_i64_small x h = ground arith
