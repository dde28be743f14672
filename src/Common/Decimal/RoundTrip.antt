-- ===== src/Common/Decimal/RoundTrip.antt =====
-- Lemmas on the digits that strconv prints and parses.
use Prim.Native.Nat.{ℕ, zero, suc, ◌+◌, ◌/◌, ◌%◌, ◌^◌, ◌<◌, ◌*◌}
use Prim.Native.Char.{code}
use Prim.Native.String.{String, [], ◌∷◌}
use mathlib.Core.Bool.{false}
use mathlib.Core.Option.{none}
use mathlib.Core.Path.{◌≡◌, refl, ◌∙◌, ap}
use mathlib.Core.Logic.{inl, inr}
use native.Mathlib.Omega.{arith}
use chrono_flow.Common.Tests.{ltb, Bool-cases, ltb→lt}
use chrono_flow.Common.Int.{pos}
use chrono_flow.Common.Decimal.{number, digit, digits, format_int, scan, signed, parse_int}

pub code-digit : (d : ℕ) → d < 10 → code (digit d) ≡ 48 + d
unfolding digit
code-digit zero h = refl
code-digit (suc zero) h = refl
code-digit (suc (suc zero)) h = refl
code-digit (suc (suc (suc zero))) h = refl
code-digit (suc (suc (suc (suc zero)))) h = refl
code-digit (suc (suc (suc (suc (suc zero))))) h = refl
code-digit (suc (suc (suc (suc (suc (suc zero)))))) h = refl
code-digit (suc (suc (suc (suc (suc (suc (suc zero))))))) h = refl
code-digit (suc (suc (suc (suc (suc (suc (suc (suc zero)))))))) h = refl
code-digit (suc (suc (suc (suc (suc (suc (suc (suc (suc zero))))))))) h = refl
code-digit (suc (suc (suc (suc (suc (suc (suc (suc (suc (suc d)))))))))) h = absurd (omega arith)

-- Reading one digit behind `m`.
scan-digit :
    (m d n : ℕ) (s : String)
    → d < 10
    → n ≡ m * 10 + d
    → n < 2 ^ 64
    → scan m (digit d ∷ s) ≡ scan n s
unfolding scan
scan-digit m d n s h e k = rw e (ground (arith, code-digit d h))

tenth-lt : (fuel n : ℕ) → n < 10 ^ suc fuel → n / 10 < 10 ^ fuel
tenth-lt fuel n h = omega arith

-- Reading the digits of `n` before a text is reading that text behind `n`.
scan-digits :
    (fuel n : ℕ) (s : String) → n < 10 ^ fuel → n < 2 ^ 64 → scan 0 (digits fuel n s) ≡ scan n s
unfolding digits
scan-digits zero n s h k = let e : n ≡ 0 = omega arith in rw e refl
scan-digits (suc fuel) n s h k = elim (Bool-cases (ltb n 10)) [
  | inl t ↦ rw t (scan-digit 0 n n s (ltb→lt n 10 t) (omega arith) k)
  | inr t ↦ rw t (
      scan-digits fuel (n / 10) (digit (n % 10) ∷ s) (tenth-lt fuel n h) (omega arith)
      ∙ scan-digit (n / 10) (n % 10) n s (omega arith) (omega arith) k)
]

-- The first digit, by which ParseInt looks for a sign.
digits-head :
    (fuel n : ℕ) (s : String)
    → (d : ℕ) × (rest : String) × (d < 10) × (digits (suc fuel) n s ≡ digit d ∷ rest)
unfolding digits
digits-head zero n s = elim (Bool-cases (ltb n 10)) [
  | inl t ↦ (n, s, ltb→lt n 10 t, rw t refl)
  | inr t ↦ (n % 10, s, omega arith, rw t refl)
]
digits-head (suc fuel) n s = elim (Bool-cases (ltb n 10)) [
  | inl t ↦ (n, s, ltb→lt n 10 t, rw t refl)
  | inr t ↦
      let (d, rest, h, e) = digits-head fuel (n / 10) (digit (n % 10) ∷ s) in (d, rest, h, rw t e)
]

scan_nil : (n : ℕ) → scan n [] ≡ number n
unfolding scan
scan_nil n = refl

parse_int-unsigned :
    (d : ℕ) (s : String) → d < 10 → parse_int (digit d ∷ s) ≡ signed false (scan 0 (digit d ∷ s))
unfolding parse_int
parse_int-unsigned d s h = ground (arith, code-digit d h)

-- Every int64 that is not negative is read back from its decimal print.
pub parse_int-format_int : (n : ℕ) → n < 2 ^ 63 → parse_int (format_int n) ≡ (pos n, none)
unfolding format_int
parse_int-format_int n h =
    let (d, rest, k, e) = digits-head 19 n [] in
    let read : scan 0 (digits 20 n []) ≡ number n =
      scan-digits 20 n [] (omega arith) (omega arith) ∙ scan_nil n in
    let whole : signed false (scan 0 (digit d ∷ rest)) ≡ (pos n, none) =
      rw (← e) (ap (signed false) read ∙ ground arith) in
    rw e (parse_int-unsigned d rest k ∙ whole)
