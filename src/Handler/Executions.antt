-- ===== src/Handler/Executions.antt =====
-- internal/handler/execution_handler.go
use chrono_flow.Common.{
  if◌then◌else◌, ltb_ℤ, leb_ℤ, ℤ, pos, ℕ, String, ◌&&◌, Option, none, some, List, str_eq,
}
use chrono_flow.Common.Decimal.{parse_int, NumError}
use chrono_flow.Effect.{◌>>=◌, pure, try, message, Result, ok, err}
use chrono_flow.Database.{Sql, Database}
use chrono_flow.Repository.Timers.Listing.{listed, Collation}
use chrono_flow.Model.Execution.{ExecutionStatus}
use chrono_flow.Repository.Queries.{
  NamedExecution, get_execution_by_id, get_executions_by_timer_id, list_executions,
  ExecutionListRequest, ExecutionListResponse,
}
use chrono_flow.Handler.Replies.{reply_to, with_id, Reply, answer, failure}

unfoldable pub with_page_defaults : ExecutionListRequest → ExecutionListRequest
with_page_defaults request = record request {
  page = if ltb_ℤ request.page (pos 1) then pos 1 else request.page;
  page_size = if ltb_ℤ request.page_size (pos 1) then pos 20 else request.page_size;
}

abbrev pub response_of :
    ExecutionListRequest
    → Result (List NamedExecution × ℕ × (ExecutionStatus → ℕ))
    → Reply ExecutionListResponse
response_of request (err e) = failure 500 e
response_of request (ok (items, total, stats)) = answer 200 (record {
  total = total;
  page = request.page;
  page_size = request.page_size;
  items = items;
  stats = stats;
})

-- `counted` and `listed` are what other sessions commit between the statements.
unfoldable pub list_handler :
    Collation
    → (Database → Database)
    → (Database → Database)
    → Option ExecutionListRequest
    → Sql (Reply ExecutionListResponse)
list_handler col counted listed none = pure (failure 400 (message "invalid request parameters"))
list_handler col counted listed (some req) = do
  let request = with_page_defaults req
  outcome ← try (list_executions col counted listed request)
  pure (response_of request outcome)

abbrev pub found : Result (Option NamedExecution) → Reply NamedExecution
found (err e) = failure 500 e
found (ok none) = failure 404 (message "execution does not exist")
found (ok (some execution)) = answer 200 execution

unfoldable pub get_handler : String → Sql (Reply NamedExecution)
get_handler param =
    with_id param λ id. do outcome ← try (get_execution_by_id id); pure (found outcome)

-- A limit that is no number from 1 to 100 is passed over.
abbrev pub bounded : ℤ × Option NumError → ℤ
bounded (n, some e) = pos 20
bounded (n, none) = if ltb_ℤ (pos 0) n && leb_ℤ n (pos 100) then n else pos 20

unfoldable pub limit_of : String → ℤ
limit_of raw = if str_eq raw "" then pos 20 else bounded (parse_int raw)

unfoldable pub get_by_timer : String → String → Sql (Reply (List NamedExecution))
get_by_timer param raw_limit =
    with_id param
      λ timer_id. reply_to 200 500 (get_executions_by_timer_id timer_id (limit_of raw_limit))
