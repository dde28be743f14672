-- ===== src/Handler/Monitoring.antt =====
-- internal/handler/monitoring_handler.go: the summary, and the history that Prometheus keeps.
use chrono_flow.Common.{
  ◌==◌, if◌then◌else◌, ℤ, pos, ℕ, ◌+◌, String, Bool, not, Option, none, some, List, [], ◌∷◌, map,
  str_eq,
}
use chrono_flow.Effect.{◌>>=◌, ◌>>◌, pure, try, message, wrap, Result, ok, err}
use chrono_flow.Model.Timer.{TimerStatus, active, inactive, deleted}
use chrono_flow.Model.Execution.{
  ExecutionStatus, pending, running, retry_wait, success, failed, cancelled,
}
use chrono_flow.Database.{Sql, meanwhile, Database}
use chrono_flow.Repository.Timers.{count_timers_by_status}
use chrono_flow.Repository.Timers.Listing.{listed, Collation}
use chrono_flow.Repository.Queries.{list_executions, ExecutionListRequest}
use chrono_flow.Handler.Replies.{Reply, answer, failure}

pub record Summary : Type 0 where
  pub timers_total : ℕ
  pub timers : TimerStatus → ℕ
  pub executions_total : ℕ
  pub executions : ExecutionStatus → ℕ

-- The statuses of the rows are the keys of the maps.
unfoldable pub sum_timer_stats : (TimerStatus → ℕ) → ℕ
sum_timer_stats stats = stats active + stats inactive + stats deleted

unfoldable pub sum_execution_stats : (ExecutionStatus → ℕ) → ℕ
sum_execution_stats stats =
    stats pending
    + stats running
    + stats retry_wait
    + stats success
    + stats failed
    + stats cancelled

abbrev pub summary_of : (TimerStatus → ℕ) → (ExecutionStatus → ℕ) → Summary
summary_of timer_stats execution_stats = record {
  timers_total = sum_timer_stats timer_stats;
  timers = timer_stats;
  executions_total = sum_execution_stats execution_stats;
  executions = execution_stats;
}

abbrev pub first_of_all : ExecutionListRequest
first_of_all = record {
  page = pos 1;
  page_size = pos 1;
  timer_id = pos 0;
  timer_name = "";
  status = none;
}

-- `others` is what other sessions commit after each statement.
unfoldable pub get_summary : Collation → (Database → Database) → Sql (Reply Summary)
unfolding sum_timer_stats sum_execution_stats
get_summary col others = do
  timer_stats ← try count_timers_by_status
  elim timer_stats [
    | err e ↦ pure (failure 500 e)
    | ok timers ↦ do
      meanwhile others
      listed ← try (list_executions col others others first_of_all)
      elim listed [
        | err e ↦ pure (failure 500 e)
        | ok (items, total, executions) ↦ pure (answer 200 (summary_of timers executions))
      ]
  ]

-- Minutes and seconds.
unfoldable pub history_window : String → ℕ × ℕ
history_window raw =
    if str_eq raw "15"
    then (15, 10)
    else if str_eq raw "360"
    then (360, 120)
    else if str_eq raw "1440"
    then (1440, 300)
    else (60, 30)

-- The values of one sample: a timestamp that is a number, and a text that strconv.ParseFloat reads.
-- `F` is float64.
pub record Sample (F : Type 0) : Type 0 where
  pub timestamp : Option F
  pub value : Option F

pub record HistoryPoint (F : Type 0) : Type 0 where
  pub timestamp : ℤ
  pub value : F

-- An entry of a series is none if it does not have two parts.
pub record RangeResponse (F : Type 0) : Type 0 where
  pub status_code : ℕ
  pub decoded : Option (String × List (List (Option (Sample F))))

abbrev pub add_point :
    {F : Type 0} → Option (HistoryPoint F) → List (HistoryPoint F) → List (HistoryPoint F)
add_point none points = points
add_point (some point) points = point ∷ points

-- `whole` is int64(timestamp), and `is_finite` that a number is neither NaN nor infinite.
module _ {F : Type 0} (whole : F → ℤ) (is_finite : F → Bool) where
  abbrev pub point_of : Option F → Option F → Option (HistoryPoint F)
  point_of (some timestamp) (some value) =
      if is_finite value then some (record { timestamp = whole timestamp; value = value }) else none
  point_of _ _ = none

  unfoldable pub points_of : List (Option (Sample F)) → List (HistoryPoint F)
  points_of [] = []
  points_of (none ∷ samples) = points_of samples
  points_of (some sample ∷ samples) =
      add_point (point_of sample.timestamp sample.value) (points_of samples)

  abbrev pub first_series : List (List (Option (Sample F))) → List (HistoryPoint F)
  first_series [] = []
  first_series (samples ∷ more) = points_of samples

  abbrev pub points_in :
      Option (String × List (List (Option (Sample F)))) → Result (List (HistoryPoint F))
  points_in none = err (message "decode Prometheus history")
  points_in (some (status, series)) =
      if str_eq status "success"
      then ok (first_series series)
      else err (message "Prometheus query failed")

  -- The argument is what the query has been answered.
  unfoldable pub query_range : Result (RangeResponse F) → Result (List (HistoryPoint F))
  unfolding points_of
  query_range (err e) = err (wrap "query Prometheus history" e)
  query_range (ok response) =
      if not (response.status_code == 200)
      then err (message "Prometheus history returned another status")
      else points_in response.decoded

pub record History (F : Type 0) : Type 0 where
  pub range_minutes : ℕ
  pub step_seconds : ℕ
  pub series : List (String × List (HistoryPoint F))

-- What the goroutines leave: the series, or an error that one of them has met. They are given in the
-- order in which they take the lock. A second error stores its empty series, which is not read.
unfoldable pub collect_series :
    {F : Type 0}
    → List (String × Result (List (HistoryPoint F)))
    → Result (List (String × List (HistoryPoint F)))
collect_series [] = ok []
collect_series ((name, err e) ∷ results) = err e
collect_series ((name, ok points) ∷ results) = elim (collect_series results) [
  | err e ↦ err e
  | ok series ↦ ok ((name, points) ∷ series)
]

abbrev pub history_reply :
    {F : Type 0} → ℕ × ℕ → Result (List (String × List (HistoryPoint F))) → Reply (History F)
history_reply window (err e) = failure 502 e
history_reply window (ok series) =
    answer 200 (record { range_minutes = window.0; step_seconds = window.1; series = series })

-- `ask` is the answer to the query of a series over a window.
unfoldable pub get_history :
    {F : Type 0}
    → (F → ℤ)
    → (F → Bool)
    → (String → ℕ × ℕ → Result (RangeResponse F))
    → List String
    → String
    → Reply (History F)
unfolding history_window query_range collect_series
get_history whole is_finite ask names raw =
    let window = history_window raw in
    history_reply window
      (collect_series (map (λ name. (name, query_range whole is_finite (ask name window))) names))
