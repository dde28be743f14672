-- ===== src/Service/Backoff/Bounds.antt =====
-- The delays by the number of attempts.
use chrono_flow.Common.{
  ltb, if◌then◌else◌, pos_part, scale64, wrap64_small, pos, ℕ, zero, suc, ◌-◌, ◌*◌, ◌^◌, ◌≤◌, ◌<◌,
  ◌≡◌, refl, sym, arith,
}
use chrono_flow.Service.Backoff.{exponent, capped, backoff, retry_backoff}
use chrono_flow.Model.Timer.{second}

pow_pos : (b : ℕ) → 0 < 2 ^ b
pow_pos zero = omega arith
pow_pos (suc b) = omega (arith, pow_pos b)

pow_mono : (a b : ℕ) → a ≤ b → 2 ^ a ≤ 2 ^ b
pow_mono zero b h = omega (arith, pow_pos b)
pow_mono (suc a) zero h = absurd (omega arith)
pow_mono (suc a) (suc b) h = omega (arith, pow_mono a b (omega arith))

exponent_le : (attempt : ℕ) → exponent attempt ≤ 30
unfolding exponent
exponent_le attempt = ground arith

exponent_mono : (a b : ℕ) → a ≤ b → exponent a ≤ exponent b
unfolding exponent
exponent_mono a b h = ground arith

abbrev pub min : ℕ → ℕ → ℕ
min a b = if ltb b a then b else a

-- Without overflow, an integer times a number is their product.
scale64_small : (n k : ℕ) → n * k < 2 ^ 63 → scale64 (pos n) k ≡ pos (n * k)
scale64_small n k h = wrap64_small (n * k) h

capped-min : (m n : ℕ) → capped (pos m) (pos n) ≡ pos (min n m)
capped-min m n = ground arith

-- The delay in seconds that both are meant to have: the base, doubled for each attempt after the
-- first, at most 30 times, and no more than the maximum.
abbrev pub delay_seconds : ℕ → ℕ → ℕ → ℕ
delay_seconds base maximum attempt = min (base * 2 ^ min 30 (attempt - 1)) maximum

-- The delay that the code computes.
abbrev capped_delay : ℕ → ℕ → ℕ → ℕ
capped_delay base maximum attempt = min (base * 2 ^ exponent attempt) maximum

exponent-min : (attempt : ℕ) → exponent attempt ≡ min 30 (attempt - 1)
unfolding exponent
exponent-min attempt = ground arith

capped_delay_lem :
    (base maximum attempt : ℕ)
    → capped_delay base maximum attempt ≡ delay_seconds base maximum attempt
capped_delay_lem base maximum attempt = rw (exponent-min attempt) refl

mul_le : (a b c : ℕ) → b ≤ c → a * b ≤ a * c
mul_le a b c h = grind arith

power_le : (attempt : ℕ) → 2 ^ exponent attempt ≤ 2 ^ 30
power_le attempt = pow_mono (exponent attempt) 30 (exponent_le attempt)

min_le_left : (a b : ℕ) → min a b ≤ a
min_le_left a b = ground arith

min_le_right : (a b : ℕ) → min a b ≤ b
min_le_right a b = ground arith

min_mono : (a b m : ℕ) → a ≤ b → min a m ≤ min b m
min_mono a b m h = ground arith

delay_mono :
    (base maximum a b : ℕ) → a ≤ b → delay_seconds base maximum a ≤ delay_seconds base maximum b
delay_mono base maximum a b h =
    rw (capped_delay_lem base maximum a, capped_delay_lem base maximum b) at
      (min_mono _ _ maximum (mul_le base _ _ (pow_mono _ _ (exponent_mono a b h))))

-- The dispatcher's delay is 2^(attempt-1) seconds, with the exponent from 0 to 30, but no more than
-- the maximum, for every positive setting of it: the multiplications do not overflow.
backoff_lem :
    (maximum attempt : ℕ)
    → 1 ≤ maximum
    → backoff (pos maximum) attempt ≡ pos (delay_seconds 1 maximum attempt * second)
unfolding backoff
backoff_lem maximum attempt h =
    rw
      (capped-min maximum (2 ^ exponent attempt), sym (capped_delay_lem 1 maximum attempt), one_mul)
      (scale64_small (min (2 ^ exponent attempt) maximum) second
        (omega (arith, min_le_left (2 ^ exponent attempt) maximum, power_le attempt)))
  where
    one_mul : 1 * 2 ^ exponent attempt ≡ 2 ^ exponent attempt
    one_mul = omega arith

-- The worker's delay is the base times 2^(attempt-1), with the exponent from 0 to 30, but no more
-- than the maximum, if the base is below 2^32 seconds and the maximum below 2^33 seconds.
pub retry_backoff_lem :
    (base maximum attempt : ℕ)
    → base < 2 ^ 32
    → maximum < 2 ^ 33
    → retry_backoff (pos base) (pos maximum) attempt
      ≡ pos (delay_seconds base maximum attempt * second)
unfolding retry_backoff
retry_backoff_lem base maximum attempt small short =
    rw
      (
        scale64_small base (2 ^ exponent attempt) product,
        capped-min maximum (base * 2 ^ exponent attempt),
        sym (capped_delay_lem base maximum attempt),
      )
      (scale64_small (capped_delay base maximum attempt) second
        (omega (arith, min_le_right (base * 2 ^ exponent attempt) maximum)))
  where
    product : base * 2 ^ exponent attempt < 2 ^ 63
    product = omega (arith, mul_le base _ _ (power_le attempt))

-- The worker's delay does not fall from one attempt to a later one, and never exceeds the maximum,
-- if the base is below 2^32 seconds and the maximum below 2^33 seconds.
retry_backoff_grows :
    (base maximum a b : ℕ)
    → base < 2 ^ 32
    → maximum < 2 ^ 33
    → a ≤ b
    → (pos_part (retry_backoff (pos base) (pos maximum) a)
        ≤ pos_part (retry_backoff (pos base) (pos maximum) b))
      × (pos_part (retry_backoff (pos base) (pos maximum) b) ≤ maximum * second)
retry_backoff_grows base maximum a b small short h =
    rw (retry_backoff_lem base maximum a small short, retry_backoff_lem base maximum b small short)
      (
        omega (arith, delay_mono base maximum a b h),
        omega (arith, min_le_right (base * 2 ^ min 30 (b - 1)) maximum),
      )
