-- ===== src/Collector/Settings.antt =====
-- The environment variables of k6/callback/main.go.
use chrono_flow.Common.{if◌then◌else◌, ltb_ℤ, ℤ, pos, String, ◌||◌, Option, none, some, str_eq}
use chrono_flow.Common.Decimal.{parse_int, NumError}
use chrono_flow.Effect.{message, Result, ok, err}

-- The delay is in milliseconds.
pub record CallbackConfig : Type 0 where
  pub address : String
  pub status : ℤ
  pub delay_ms : ℤ

abbrev pub env_or_default : String → String → String
env_or_default value fallback = if str_eq value "" then fallback else value

abbrev pub parse_integer_env : String → ℤ → ℤ × Option NumError
parse_integer_env value fallback = if str_eq value "" then (fallback, none) else parse_int value

abbrev pub accepted_status : ℤ × Option NumError → Option ℤ
accepted_status (n, some e) = none
accepted_status (n, none) = if ltb_ℤ n (pos 200) || ltb_ℤ (pos 599) n then none else some n

abbrev pub accepted_delay : ℤ × Option NumError → Option ℤ
accepted_delay (n, some e) = none
accepted_delay (n, none) = if ltb_ℤ n (pos 0) then none else some n

abbrev pub with_delay : String → ℤ → Option ℤ → Result CallbackConfig
with_delay address status none = err (message "CALLBACK_DELAY_MS must be a non-negative integer")
with_delay address status (some delay_ms) =
    ok (record { address = address; status = status; delay_ms = delay_ms })

abbrev pub with_status : String → Option ℤ → Option ℤ → Result CallbackConfig
with_status address none delay =
    err (message "CALLBACK_STATUS must be an integer between 200 and 599")
with_status address (some status) delay = with_delay address status delay

-- The arguments are the values of CALLBACK_ADDR, CALLBACK_STATUS and CALLBACK_DELAY_MS.
unfoldable pub load_config : String → String → String → Result CallbackConfig
load_config address status delay =
    with_status (env_or_default address "127.0.0.1:9091")
      (accepted_status (parse_integer_env status (pos 204)))
      (accepted_delay (parse_integer_env delay (pos 0)))
