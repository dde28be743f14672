-- ===== src/Repository/Queries.antt =====
-- internal/repository/execution_query_repo.go: the reads of the monitoring pages. A row of an
-- execution comes with the name of its timer, by a LEFT JOIN.
use Prim.Native.String.{◌++◌ as append}
use chrono_flow.Common.{
  leb, ◌==◌, length, keep, ℤ, pos, negsuc, ℕ, String, Bool, true, ◌&&◌, ◌||◌, Option, none, some,
  List, [], ◌∷◌, str_eq,
}
use chrono_flow.Effect.{◌>>=◌, ◌>>◌, pure, wrap_error}
use chrono_flow.Model.Timer.{TimerDefinition}
use chrono_flow.Model.Execution.{execution_status_eq, TimerExecution, ExecutionStatus}
use chrono_flow.Database.{
  count_where, find_where, order_by, limit, offset, Sql, query, meanwhile, Database,
}
use chrono_flow.Repository.Timers.Listing.{offset_of, listed, Collation}

-- none is NULL: no timer has the id.
abbrev pub NamedExecution : Type 0
NamedExecution = TimerExecution × Option String

pub record ExecutionListRequest : Type 0 where
  pub page : ℤ
  pub page_size : ℤ
  pub timer_id : ℤ
  pub timer_name : String
  pub status : Option ExecutionStatus  -- none is the empty string

pub record ExecutionListResponse : Type 0 where
  pub total : ℕ
  pub page : ℤ
  pub page_size : ℤ
  pub items : List NamedExecution
  pub stats : ExecutionStatus → ℕ

abbrev pub name_of : Option TimerDefinition → Option String
name_of none = none
name_of (some t) = some t.name

unfoldable pub join : List TimerDefinition → List TimerExecution → List NamedExecution
join timers [] = []
join timers (e ∷ es) = (e, name_of (find_where (λ t. t.id == e.timer_id) timers)) ∷ join timers es

unfoldable pub base_query : Database → List NamedExecution
unfolding join
base_query db = join db.timers db.executions

-- none is `return nil, nil`.
unfoldable pub get_execution_by_id : ℕ → Sql (Option NamedExecution)
get_execution_by_id id =
    wrap_error "get execution" (query (λ db. find_where (λ r. r.0.id == id) (base_query db)))

abbrev pub is_wanted : Option ExecutionStatus → ExecutionStatus → Bool
is_wanted none status = true
is_wanted (some wanted) status = execution_status_eq status wanted

abbrev pub is_of_timer : ℤ → ℕ → Bool
is_of_timer (pos id) timer_id = id == 0 || timer_id == id
is_of_timer (negsuc n) timer_id = true

-- "scheduled_at DESC"
abbrev pub latest_first : NamedExecution → NamedExecution → Bool
latest_first a b = leb b.0.scheduled_at a.0.scheduled_at

-- "id DESC"
abbrev pub highest_first : NamedExecution → NamedExecution → Bool
highest_first a b = leb b.0.id a.0.id

unfoldable pub get_executions_by_timer_id : ℕ → ℤ → Sql (List NamedExecution)
get_executions_by_timer_id timer_id bound = wrap_error "list timer executions" (
    query (λ db.
      limit bound (order_by latest_first (keep (λ r. r.0.timer_id == timer_id) (base_query db)))))

module _ (col : Collation) where
  -- NULL is like no pattern.
  abbrev pub is_named : String → Option String → Bool
  is_named timer_name none = str_eq timer_name ""
  is_named timer_name (some name) =
      str_eq timer_name "" || col.like name (append "%" (append timer_name "%"))

  -- The WHERE of filteredQuery.
  unfoldable pub is_filtered : ExecutionListRequest → NamedExecution → Bool
  is_filtered req r =
      is_of_timer req.timer_id r.0.timer_id
      && is_named req.timer_name r.1
      && is_wanted req.status r.0.status

  unfoldable pub filtered_query : ExecutionListRequest → Database → List NamedExecution
  filtered_query req db = keep (is_filtered req) (base_query db)

  -- `counted` and `listed` are what other sessions commit after the first and the second statement.
  unfoldable pub list_executions :
      (Database → Database)
      → (Database → Database)
      → ExecutionListRequest
      → Sql (List NamedExecution × ℕ × (ExecutionStatus → ℕ))
  list_executions counted listed req = do
    total ← wrap_error "count executions" (query (λ db. length (filtered_query req db)))
    meanwhile counted
    items ← wrap_error "list executions" (
        query (λ db. limit req.page_size (
          offset (offset_of req.page req.page_size)
            (order_by highest_first (filtered_query req db)))))
    meanwhile listed
    stats ← wrap_error "count execution statuses" (
        query λ db status.
          count_where (λ r. execution_status_eq r.0.status status) (filtered_query req db))
    pure (items, total, stats)
