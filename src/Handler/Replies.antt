-- ===== src/Handler/Replies.antt =====
-- The JSON answers of internal/handler, and the path parameter that names a row.
use chrono_flow.Common.{pos_part, ℤ, ℕ, String, Option, none, some}
use chrono_flow.Common.Decimal.{parse_int, NumError}
use chrono_flow.Effect.{◌>>=◌, pure, try, Error, message, Result, ok, err}
use chrono_flow.Database.{Sql}

-- A status with data, or a status with the message of an error.
pub data Reply (A : Type 0) : Type 0 where
  answer : ℕ → A → Reply A
  failure : ℕ → Error → Reply A

-- The reply to the result of a call.
abbrev pub reply_of : {A : Type 0} → ℕ → ℕ → Result A → Reply A
reply_of success refused (ok a) = answer success a
reply_of success refused (err e) = failure refused e

unfoldable pub reply_to : {A : Type 0} → ℕ → ℕ → Sql A → Sql (Reply A)
reply_to success refused call = do outcome ← try call; pure (reply_of success refused outcome)

-- strconv.ParseInt(c.Param(param), 10, 64)
abbrev pub parsed_id : ℤ × Option NumError → Option ℤ
parsed_id (n, none) = some n
parsed_id (n, some e) = none

unfoldable pub parse_id : String → Option ℤ
parse_id param = parsed_id (parse_int param)

-- `call` is given the id as the number of a row: no row has a number below 1, and 0 stands for these.
abbrev pub for_row : {A : Type 0} → (ℕ → Sql (Reply A)) → Option ℤ → Sql (Reply A)
for_row call none = pure (failure 400 (message "invalid ID"))
for_row call (some id) = call (pos_part id)

unfoldable pub with_id : {A : Type 0} → String → (ℕ → Sql (Reply A)) → Sql (Reply A)
unfolding parse_id
with_id param call = for_row call (parse_id param)
