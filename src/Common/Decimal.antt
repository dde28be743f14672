-- ===== src/Common/Decimal.antt =====
-- strconv.FormatInt, strconv.ParseInt and strconv.Atoi in base 10.
pub mod RoundTrip
pub mod Dashes
use Prim.Native.Nat.{ℕ, zero, suc, ◌+◌, ◌-◌, ◌*◌, ◌/◌, ◌%◌, ◌^◌}
use Prim.Native.Char.{Char, code}
use Prim.Native.String.{String, [], ◌∷◌}
use mathlib.Core.Bool.{Bool, true, false, ◌||◌}
use mathlib.Core.Option.{Option, none, some}
use mathlib.Core.Path.{◌≡◌, refl}
use chrono_flow.Common.Tests.{ltb, leb, ◌==◌, if◌then◌else◌}
use chrono_flow.Common.Int.{ℤ, pos, negsuc}

-- strconv.ErrSyntax and strconv.ErrRange.
pub data NumError : Type 0 where
  syntax range : NumError

pub data Scanned : Type 0 where
  number : ℕ → Scanned
  failed : NumError → Scanned

-- The last clause is that of 9.
unfoldable pub digit : ℕ → Char
digit zero = "0"
digit (suc zero) = "1"
digit (suc (suc zero)) = "2"
digit (suc (suc (suc zero))) = "3"
digit (suc (suc (suc (suc zero)))) = "4"
digit (suc (suc (suc (suc (suc zero))))) = "5"
digit (suc (suc (suc (suc (suc (suc zero)))))) = "6"
digit (suc (suc (suc (suc (suc (suc (suc zero))))))) = "7"
digit (suc (suc (suc (suc (suc (suc (suc (suc zero)))))))) = "8"
digit (suc (suc (suc (suc (suc (suc (suc (suc (suc d))))))))) = "9"

-- The digits of a number of at most `fuel` digits, before a text.
pub digits : ℕ → ℕ → String → String
digits zero n out = out
digits (suc fuel) n out =
    let rest = digits fuel (n / 10) (digit (n % 10) ∷ out) in
    if ltb n 10 then digit n ∷ out else rest

-- strconv.FormatInt of a number that is not negative: an int64 has at most 19 digits.
unfoldable pub format_int : ℕ → String
unfolding digits digit
format_int n = digits 20 n []

-- The digits of strconv.ParseUint after `n`, in 64 bits.
pub scan : ℕ → String → Scanned
scan n [] = number n
scan n (c ∷ s) =
    let d = code c - b'0' in
    let rest = scan (n * 10 + d) s in
    if ltb (code c) b'0' || ltb b'9' (code c)
    then failed syntax
    else if leb (2 ^ 64) (n * 10 + d)
    then failed range
    else rest

-- strconv.ParseUint, which refuses the empty text.
pub parse_uint : String → Scanned
unfolding scan
parse_uint [] = failed syntax
parse_uint (c ∷ s) = scan 0 (c ∷ s)

-- The end of strconv.ParseInt: out of range, the bound that was passed is the value.
abbrev pub signed : Bool → Scanned → ℤ × Option NumError
signed negative (failed syntax) = (pos 0, some syntax)
signed false (failed range) = (pos (2 ^ 63 - 1), some range)
signed true (failed range) = (negsuc (2 ^ 63 - 1), some range)
signed false (number n) = if leb (2 ^ 63) n then (pos (2 ^ 63 - 1), some range) else (pos n, none)
signed true (number zero) = (pos 0, none)
signed true (number (suc n)) =
    if leb (2 ^ 63) n then (negsuc (2 ^ 63 - 1), some range) else (negsuc n, none)

-- strconv.ParseInt(s, 10, 64), and strconv.Atoi where an int has 64 bits.
unfoldable pub parse_int : String → ℤ × Option NumError
unfolding parse_uint
parse_int [] = (pos 0, some syntax)
parse_int (c ∷ s) =
    if code c == b'+'
    then signed false (parse_uint s)
    else if code c == b'-'
    then signed true (parse_uint s)
    else signed false (parse_uint (c ∷ s))

format_example : format_int 9223372036854775807 ≡ "9223372036854775807"
unfolding format_int
format_example = refl

parse_example : parse_int "-9223372036854775808" ≡ (negsuc (2 ^ 63 - 1), none)
unfolding parse_int
parse_example = refl

range_example : parse_int "9223372036854775808x" ≡ (pos 0, some syntax)
unfolding parse_int
range_example = refl
