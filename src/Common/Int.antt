-- ===== src/Common/Int.antt =====
-- Go's `int` and `int64`: integers over the native numbers, with 64-bit wrap-around.
use Prim.Native.Nat.{ℕ, suc, ◌+◌, ◌-◌, ◌*◌, ◌%◌, ◌^◌, ◌<◌}
use mathlib.Core.Path.{◌≡◌}
use mathlib.Core.Bool.{Bool}
use native.Mathlib.Omega.{arith}
use chrono_flow.Common.Tests.{ltb, leb, if◌then◌else◌}

-- `negsuc n` is -(n + 1).
pub data ℤ : Type 0 where
  pos : ℕ → ℤ
  negsuc : ℕ → ℤ

abbrev pub pos_part : ℤ → ℕ
pos_part (pos n) = n
pos_part (negsuc n) = 0

abbrev pub neg_part : ℤ → ℕ
neg_part (pos n) = 0
neg_part (negsuc n) = suc n

abbrev pub ltb_ℤ : ℤ → ℤ → Bool
ltb_ℤ a b = ltb (pos_part a + neg_part b) (pos_part b + neg_part a)

abbrev pub leb_ℤ : ℤ → ℤ → Bool
leb_ℤ a b = leb (pos_part a + neg_part b) (pos_part b + neg_part a)

-- The `int64` whose bit pattern is that of a number.
abbrev pub signed64 : ℕ → ℤ
signed64 bits = if ltb bits (2 ^ 63) then pos bits else negsuc (2 ^ 64 - 1 - bits)

-- A non-negative result of 64-bit arithmetic.
abbrev pub wrap64 : ℕ → ℤ
wrap64 n = signed64 (n % 2 ^ 64)

-- An integer times a number, as `int64`.
abbrev pub scale64 : ℤ → ℕ → ℤ
scale64 (pos n) k = wrap64 (n * k)
scale64 (negsuc n) k = signed64 ((2 ^ 64 - (suc n * k) % 2 ^ 64) % 2 ^ 64)

pub wrap64_small : (n : ℕ) → n < 2 ^ 63 → wrap64 n ≡ pos n
wrap64_small n h = ground arith

-- The bit pattern of an integer.
abbrev pub bits64 : ℤ → ℕ
bits64 (pos n) = n % 2 ^ 64
bits64 (negsuc n) = 2 ^ 64 - 1 - n % 2 ^ 64

infixl 65 ◌-ℤ◌
infixl 70 ◌*ℤ◌
-- Subtraction and multiplication of `int`.
unfoldable pub ◌-ℤ◌ : ℤ → ℤ → ℤ
a -ℤ b = wrap64 (bits64 a + 2 ^ 64 - bits64 b)

unfoldable pub ◌*ℤ◌ : ℤ → ℤ → ℤ
a *ℤ b = wrap64 (bits64 a * bits64 b)

pub pred-ℤ : (n : ℕ) → n < 2 ^ 63 → pos (suc n) -ℤ pos 1 ≡ pos n
unfolding ◌-ℤ◌
pred-ℤ n h = ground arith

pub *ℤ_small : (n m : ℕ) → n < 2 ^ 63 → m < 2 ^ 63 → n * m < 2 ^ 63 → pos n *ℤ pos m ≡ pos (n * m)
unfolding ◌*ℤ◌
*ℤ_small n m hn hm h =
    let en : n % 2 ^ 64 ≡ n = omega arith in
    let em : m % 2 ^ 64 ≡ m = omega arith in rw (en, em) (wrap64_small (n * m) h)
