-- ===== src/App/Readiness.antt =====
-- internal/app/readiness.go, stream.go and the operational routes of http.go. What a ping answers is
-- a parameter.
use chrono_flow.Common.{ℕ, String, List, [], ◌∷◌, ◌++◌}
use chrono_flow.Effect.{Error, Result, ok, err}
use chrono_flow.App.Roles.{runtime_mode, components, Role}

-- The map of failures.
abbrev pub Failures : Type 0
Failures = List (String × Error)

abbrev pub failure_of : String → Result (Unit {0}) → Failures
failure_of name (ok u) = []
failure_of name (err e) = (name, e) ∷ []

unfoldable pub check_mysql_readiness : Result (Unit {0}) → Failures
check_mysql_readiness mysql = failure_of "mysql" mysql

unfoldable pub check_stream_readiness : Result (Unit {0}) → Result (Unit {0}) → Failures
unfolding check_mysql_readiness
check_stream_readiness mysql redis = check_mysql_readiness mysql ++ failure_of "redis" redis

-- The JSON of /health and /ready, apart from the time.
pub record StatusReply : Type 0 where
  pub code : ℕ
  pub status : String
  pub role : Role
  pub mode : String
  pub parts : List String
  pub dependencies : Failures

abbrev pub status_reply : Role → ℕ → String → Failures → StatusReply
status_reply role code status failures = record {
  code = code;
  status = status;
  role = role;
  mode = runtime_mode role;
  parts = components role;
  dependencies = failures;
}

unfoldable pub health : Role → StatusReply
health role = status_reply role 200 "ok" []

unfoldable pub ready : Role → Failures → StatusReply
ready role [] = status_reply role 200 "ready" []
ready role (failure ∷ failures) = status_reply role 503 "not_ready" (failure ∷ failures)
