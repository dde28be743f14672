-- ===== src/Service/Timers/Listing.antt =====
-- List of internal/service/timer_service.go.
pub mod Pages
use chrono_flow.Common.{if◌then◌else◌, leb_ℤ, pos, ℕ, ◌+◌}
use chrono_flow.Effect.{◌>>=◌, ◌>>◌, pure, wrap_error}
use chrono_flow.Model.Timer.{
  TimerDefinitionListRequest, TimerDefinitionListStats, TimerDefinitionListResponse, TimerStatus,
  active, inactive,
}
use chrono_flow.Database.{Sql, meanwhile, Database}
use chrono_flow.Repository.Timers.Listing.{
  listed, list_definitions, count_list_by_status, Collation, RowOrder,
}

-- The page and the size of a page that stand in for missing ones.
unfoldable pub with_page_defaults : TimerDefinitionListRequest → TimerDefinitionListRequest
with_page_defaults req = record req {
  page = if leb_ℤ req.page (pos 0) then pos 1 else req.page;
  page_size = if leb_ℤ req.page_size (pos 0) then pos 10 else req.page_size;
}

abbrev pub stats_of : (TimerStatus → ℕ) → TimerDefinitionListStats
stats_of counts = record {
  total = counts active + counts inactive;
  active = counts active;
  inactive = counts inactive;
}

-- `counted` and `listed` are what other sessions commit after the first and the second statement.
module _ (col : Collation) (order : RowOrder) (counted listed : Database → Database) where
  -- What follows the default values.
  unfoldable pub list_page : TimerDefinitionListRequest → Sql TimerDefinitionListResponse
  list_page req = do
    found ← wrap_error "list timers" (list_definitions col order counted req)
    meanwhile listed
    status_counts ← wrap_error "count timer statuses" (count_list_by_status col req)
    pure (record {
      total = found.1;
      page = req.page;
      page_size = req.page_size;
      items = found.0;
      stats = stats_of status_counts;
    })

  unfoldable pub list_timers : TimerDefinitionListRequest → Sql TimerDefinitionListResponse
  unfolding list_page with_page_defaults
  list_timers req = list_page (with_page_defaults req)
