-- ===== src/Service/Timers.antt =====
-- internal/service/timer_service.go
pub mod Steps
pub mod Listing
pub mod Effects
use chrono_flow.Common.{
  if◌then◌else◌, ltb_ℤ, pos, ℕ, String, Bool, true, false, not, Option, none, some, List,
}
use chrono_flow.Effect.{◌>>=◌, ◌>>◌, wrap_error, or_raise, require, message}
use chrono_flow.Config.{SchedulerConfig, SecurityConfig}
use chrono_flow.Model.Timer.{
  Time, TimerDefinition, CreateTimerDefinitionRequest, active, inactive, MisfirePolicy, skip,
  fire_once, catch_up,
}
use chrono_flow.Model.StateMachine.{validate_timer_transition}
use chrono_flow.Database.{Sql, meanwhile, Database}
use chrono_flow.Repository.Events.{from_result}
use chrono_flow.Repository.Schedule.{Json}
use chrono_flow.Repository.Timers.{
  create_definition, get_definition, delete_definition, update_schedule_state,
}
use chrono_flow.Service.Cron.{CronLibrary, next_trigger_time, validate_cron_expr}
use chrono_flow.Service.Callback.{validate_url, Net}
use chrono_flow.Service.Scheduler.{with_default}

abbrev pub is_known : MisfirePolicy → Bool
is_known skip = true
is_known fire_once = true
is_known catch_up = true
is_known _ = false

abbrev pub encoded_headers : Json → Option (List (String × String)) → Option String
encoded_headers json none = some "{}"
encoded_headers json (some headers) = json.encode_headers headers

-- The row that Create inserts.
unfoldable pub new_timer : SchedulerConfig → CreateTimerDefinitionRequest → String → TimerDefinition
new_timer cfg req headers_json = record {
  id = 0;
  app = req.app;
  name = req.name;
  cron_expr = req.cron_expr;
  callback_url = req.callback_url;
  callback_method = req.callback_method;
  callback_body = req.callback_body;
  callback_headers = headers_json;
  status = inactive;
  next_fire_at = none;
  misfire_policy = with_default req.misfire_policy;
  max_catch_up =
      if ltb_ℤ req.max_catch_up (pos 1) then cfg.default_max_catch_up else req.max_catch_up;
  version = 1;
}

module _ (library : CronLibrary) (net : Net) (json : Json) (cfg : SchedulerConfig)
    (security : SecurityConfig) where
  unfoldable pub create_timer : Time → CreateTimerDefinitionRequest → Sql TimerDefinition
  create_timer now req = do
    wrap_error "invalid cron expression" (from_result (validate_cron_expr library req.cron_expr))
    wrap_error "cron expression cannot produce a next trigger time"
        (from_result (next_trigger_time library req.cron_expr now))
    from_result (validate_url net req.callback_url security.allow_private_callbacks)
    require (is_known (with_default req.misfire_policy)) (message "invalid misfire policy")
    headers_json ←
        or_raise (encoded_headers json req.callback_headers) (message "marshal callback headers")
    wrap_error "create timer" (create_definition (new_timer cfg req headers_json))

unfoldable pub get_timer : ℕ → Sql TimerDefinition
get_timer id = do
  def ← wrap_error "get timer" (get_definition id)
  or_raise def (message "timer does not exist")

unfoldable pub delete_timer : ℕ → Sql (Unit {0})
delete_timer id = wrap_error "delete timer" (delete_definition id)

-- `others` is what other sessions commit between the SELECT and the UPDATE.
module _ (others : Database → Database) where
  unfoldable pub activate : CronLibrary → Time → ℕ → Sql (Unit {0})
  activate library now id = do
    def ← get_timer id
    meanwhile others
    require (validate_timer_transition def.status active) (message "activate timer")
    next ←
        wrap_error "calculate next trigger time"
          (from_result (next_trigger_time library def.cron_expr now))
    wrap_error "activate timer state" (update_schedule_state def.id inactive active (some next))

  unfoldable pub deactivate : ℕ → Sql (Unit {0})
  deactivate id = do
    def ← get_timer id
    meanwhile others
    require (validate_timer_transition def.status inactive) (message "deactivate timer")
    update_schedule_state id active inactive none
