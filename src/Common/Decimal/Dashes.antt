-- ===== src/Common/Decimal/Dashes.antt =====
-- Texts of numbers with dashes between them.
use Prim.Native.Nat.{ℕ, zero, suc, ◌/◌, ◌%◌, ◌^◌, ◌<◌}
use Prim.Native.Char.{code}
use Prim.Native.String.{String, [], ◌∷◌, ◌++◌ as append}
use Prim.Native.String.append as append_laws
use mathlib.Core.Bool.{Bool, true, false, false≢true}
use mathlib.Core.Path.{◌≡◌, refl, ◌∙◌, ap, sym}
use mathlib.Core.Logic.{inl, inr}
use native.Mathlib.Omega.{arith}
use chrono_flow.Common.Tests.{ltb, Bool-cases, ltb→lt, if◌then◌else◌, ◌==◌}
use chrono_flow.Common.Int.{pos_part}
use chrono_flow.Common.Decimal.{digit, digits, format_int, parse_int}
use chrono_flow.Common.Decimal.RoundTrip.{code-digit, parse_int-format_int}

-- The text before and after the first dash.
unfoldable pub before_dash : String → String
before_dash [] = []
before_dash (c ∷ s) = let rest = before_dash s in if code c == b'-' then [] else c ∷ rest

unfoldable pub after_dash : String → String
after_dash [] = []
after_dash (c ∷ s) = let rest = after_dash s in if code c == b'-' then s else rest

before_dash-digit :
    (d : ℕ) (s : String) → d < 10 → before_dash (digit d ∷ s) ≡ digit d ∷ before_dash s
unfolding before_dash
before_dash-digit d s h = ground (arith, code-digit d h)

after_dash-digit : (d : ℕ) (s : String) → d < 10 → after_dash (digit d ∷ s) ≡ after_dash s
unfolding after_dash
after_dash-digit d s h = ground (arith, code-digit d h)

before_dash-digits :
    (fuel n : ℕ) (s : String) → before_dash (digits fuel n s) ≡ digits fuel n (before_dash s)
unfolding digits
before_dash-digits zero n s = refl
before_dash-digits (suc fuel) n s = elim (Bool-cases (ltb n 10)) [
  | inl t ↦ rw t (before_dash-digit n s (ltb→lt n 10 t))
  | inr t ↦ rw t (
      before_dash-digits fuel (n / 10) (digit (n % 10) ∷ s)
      ∙ ap (digits fuel (n / 10)) (before_dash-digit (n % 10) s (omega arith)))
]

after_dash-digits : (fuel n : ℕ) (s : String) → after_dash (digits fuel n s) ≡ after_dash s
unfolding digits
after_dash-digits zero n s = refl
after_dash-digits (suc fuel) n s = elim (Bool-cases (ltb n 10)) [
  | inl t ↦ rw t (after_dash-digit n s (ltb→lt n 10 t))
  | inr t ↦ rw t (
      after_dash-digits fuel (n / 10) (digit (n % 10) ∷ s)
      ∙ after_dash-digit (n % 10) s (omega arith))
]

append-digits :
    (fuel n : ℕ) (s t : String) → append (digits fuel n s) t ≡ digits fuel n (append s t)
unfolding digits
append-digits zero n s t = refl
append-digits (suc fuel) n s t = elim (Bool-cases (ltb n 10)) [
  | inl e ↦ rw e (append_laws.cons (digit n) s t)
  | inr e ↦ rw e (
      append-digits fuel (n / 10) (digit (n % 10) ∷ s) t
      ∙ ap (digits fuel (n / 10)) (append_laws.cons (digit (n % 10)) s t))
]

abbrev pub has_dash : String → Bool
has_dash [] = false
has_dash (c ∷ s) = let rest = has_dash s in if code c == b'-' then true else rest

-- What follows a text with a dash in it changes nothing before the dash.
pub before_dash-append :
    (s t : String) → has_dash s ≡ true → before_dash (append s t) ≡ before_dash s
unfolding before_dash
before_dash-append [] t h = absurd (false≢true h)
before_dash-append (c ∷ s) t h = rw (append_laws.cons c s t) (elim (Bool-cases (code c == b'-')) [
  | inl e ↦ rw e refl
  | inr e ↦ rw e (ap (λ r. c ∷ r) (before_dash-append s t (rw e at h)))
])

pub after_dash-append :
    (s t : String) → has_dash s ≡ true → after_dash (append s t) ≡ append (after_dash s) t
unfolding after_dash
after_dash-append [] t h = absurd (false≢true h)
after_dash-append (c ∷ s) t h = rw (append_laws.cons c s t) (elim (Bool-cases (code c == b'-')) [
  | inl e ↦ rw e refl
  | inr e ↦ rw e (after_dash-append s t (rw e at h))
])

-- Two numbers with a dash between them.
abbrev pub pair_text : ℕ → ℕ → String
pair_text a b = append (format_int a) (append "-" (format_int b))

pub before_dash-pair_text : (a b : ℕ) → before_dash (pair_text a b) ≡ format_int a
unfolding format_int before_dash
before_dash-pair_text a b =
    rw
      (
        append-digits 20 a [] (append "-" (digits 20 b [])),
        append_laws.nil (append "-" (digits 20 b [])),
      )
      (before_dash-digits 20 a _ ∙ ap (digits 20 a) (before_dash-append "-" (digits 20 b []) refl))

pub after_dash-pair_text : (a b : ℕ) → after_dash (pair_text a b) ≡ format_int b
unfolding format_int after_dash
after_dash-pair_text a b =
    rw
      (
        append-digits 20 a [] (append "-" (digits 20 b [])),
        append_laws.nil (append "-" (digits 20 b [])),
      )
      (after_dash-digits 20 a _
        ∙ after_dash-append "-" (digits 20 b []) refl
        ∙ append_laws.nil (digits 20 b []))

-- The decimal print tells int64s apart.
pub format_int-injective : (m n : ℕ) → m < 2 ^ 63 → n < 2 ^ 63 → format_int m ≡ format_int n → m ≡ n
format_int-injective m n h k e =
    ap (λ r. pos_part r.0)
      (sym (parse_int-format_int m h) ∙ ap parse_int e ∙ parse_int-format_int n k)

pub pair_text-injective :
    (a b c d : ℕ)
    → a < 2 ^ 63
    → b < 2 ^ 63
    → c < 2 ^ 63
    → d < 2 ^ 63
    → pair_text a b ≡ pair_text c d
    → (a ≡ c) × (b ≡ d)
pair_text-injective a b c d ha hb hc hd e = (
  format_int-injective a c ha hc
      (sym (before_dash-pair_text a b) ∙ ap before_dash e ∙ before_dash-pair_text c d),
  format_int-injective b d hb hd
      (sym (after_dash-pair_text a b) ∙ ap after_dash e ∙ after_dash-pair_text c d),
)
