-- ===== src/Handler/Timers.antt =====
-- internal/handler/timer_handler.go
pub mod Writes
use chrono_flow.Common.{ℕ, String, Option, none, some}
use chrono_flow.Effect.{pure, message}
use chrono_flow.Config.{SchedulerConfig, SecurityConfig}
use chrono_flow.Model.Timer.{
  Time, TimerDefinition, CreateTimerDefinitionRequest, TimerDefinitionListRequest,
  TimerDefinitionListResponse,
}
use chrono_flow.Database.{Sql, Database}
use chrono_flow.Repository.Schedule.{Json}
use chrono_flow.Repository.Timers.Listing.{listed, Collation, RowOrder}
use chrono_flow.Service.Cron.{CronLibrary}
use chrono_flow.Service.Callback.{Net}
use chrono_flow.Service.Timers.{
  create_timer as create, get_timer as get, delete_timer as delete, activate, deactivate,
}
use chrono_flow.Service.Timers.Listing.{list_timers as list}
use chrono_flow.Handler.Replies.{reply_to, with_id, Reply, failure}

module _ (library : CronLibrary) (net : Net) (json : Json) (cfg : SchedulerConfig)
    (security : SecurityConfig) where
  unfoldable pub create_timer :
      Time → Option CreateTimerDefinitionRequest → Sql (Reply TimerDefinition)
  create_timer now none = pure (failure 400 (message "invalid request parameters"))
  create_timer now (some req) = reply_to 201 400 (create library net json cfg security now req)

unfoldable pub get_timer : String → Sql (Reply TimerDefinition)
get_timer param = with_id param λ id. reply_to 200 404 (get id)

unfoldable pub delete_timer : String → Sql (Reply (Unit {0}))
delete_timer param = with_id param λ id. reply_to 200 500 (delete id)

-- `counted` and `listed` are what other sessions commit between the statements.
unfoldable pub list_timers :
    Collation
    → RowOrder
    → (Database → Database)
    → (Database → Database)
    → Option TimerDefinitionListRequest
    → Sql (Reply TimerDefinitionListResponse)
list_timers col order counted listed none =
    pure (failure 400 (message "invalid request parameters"))
list_timers col order counted listed (some req) =
    reply_to 200 500 (list col order counted listed req)

-- `others` is what other sessions commit between the SELECT and the UPDATE.
module _ (others : Database → Database) where
  unfoldable pub activate_timer : CronLibrary → Time → String → Sql (Reply (Unit {0}))
  activate_timer library now param =
      with_id param λ id. reply_to 200 400 (activate others library now id)

  unfoldable pub deactivate_timer : String → Sql (Reply (Unit {0}))
  deactivate_timer param = with_id param λ id. reply_to 200 400 (deactivate others id)
