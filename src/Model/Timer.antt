-- ===== src/Model/Timer.antt =====
-- internal/model/timer_definition.go. The columns created_at and updated_at, which the database
-- fills, are left out; times are nanoseconds since the epoch.
use chrono_flow.Common.{ℤ, ℕ, String, Bool, true, false, Option, List}

abbrev pub Time : Type 0
Time = ℕ

abbrev pub millisecond : ℕ
millisecond = 1_000_000

abbrev pub second : ℕ
second = 1_000_000_000

pub data TimerStatus : Type 0 where
  active inactive deleted : TimerStatus

abbrev pub status_eq : TimerStatus → TimerStatus → Bool
status_eq active active = true
status_eq inactive inactive = true
status_eq deleted deleted = true
status_eq _ _ = false

-- A value of the string type MisfirePolicy: the three constants, the empty string, or another.
pub data MisfirePolicy : Type 0 where
  skip fire_once catch_up : MisfirePolicy
  empty : MisfirePolicy
  other : String → MisfirePolicy

pub record TimerDefinition : Type 0 where
  pub id : ℕ
  pub app : String
  pub name : String
  pub cron_expr : String
  pub callback_url : String
  pub callback_method : String
  pub callback_body : String
  pub callback_headers : String
  pub status : TimerStatus
  pub next_fire_at : Option Time
  pub misfire_policy : MisfirePolicy
  pub max_catch_up : ℤ
  pub version : ℕ

pub record CreateTimerDefinitionRequest : Type 0 where
  pub app : String
  pub name : String
  pub cron_expr : String
  pub callback_url : String
  pub callback_method : String
  pub callback_body : String
  pub callback_headers : Option (List (String × String))
  pub misfire_policy : MisfirePolicy
  pub max_catch_up : ℤ

pub record TimerDefinitionListRequest : Type 0 where
  pub page : ℤ
  pub page_size : ℤ
  pub app : String
  pub status : Option TimerStatus  -- none is the empty string
  pub keyword : String

pub record TimerDefinitionListStats : Type 0 where
  pub total : ℕ
  pub active : ℕ
  pub inactive : ℕ

pub record TimerDefinitionListResponse : Type 0 where
  pub total : ℕ
  pub page : ℤ
  pub page_size : ℤ
  pub items : List TimerDefinition
  pub stats : TimerDefinitionListStats
