-- ===== src/Examples/Scheduling.antt =====
-- Due timers, batches of events and transactions that fail.
use chrono_flow.Common.{pos, ℕ, ◌+◌, ◌<◌, ◌≡◌, refl, Bool, true, false, some, [], ◌∷◌, arith}
use chrono_flow.Effect.{for_each, Result, ok}
use chrono_flow.Database.{update_where, count_where, order_by, run_sql, Session}
use chrono_flow.Model.Timer.{Time, TimerDefinition, skip}
use chrono_flow.Repository.Schedule.{
  is_due_timer, select_due, new_execution, insert_execution, announce, schedule_occurrence,
  update_timers, has_version, advanced, build_request_snapshot, schedule_resolved, schedule_timer,
  schedule_due_batch,
}
use chrono_flow.Repository.Outbox.{
  update_events, is_publishable, select_publishable, with_claim, is_among, claim_events,
  claim_batch, is_owned, published, mark_published, mark_failed,
}
use chrono_flow.Repository.Outbox.Reserved.{Reserved}
use chrono_flow.Repository.Outbox.Batches.{claim_batch-IsReservedBatch, IsBatch}
use chrono_flow.Service.Cron.{parse, next_trigger_time, Advances}
use chrono_flow.Service.Timers.{delete_timer, activate, deactivate}
use chrono_flow.Service.Timers.Steps.{TimersMoved, MovedAround, timers_move}
use chrono_flow.Service.Scheduler.{
  catch_up_loop, resolve_misfire, resolve_at, resolve_timer, schedule,
}
use chrono_flow.Service.Scheduler.CatchUp.{catch_up_loop_lem, CaughtUp}
use chrono_flow.Service.Scheduler.Overdue.{Fires, overdue_resolution}
use chrono_flow.Service.Scheduler.Resolution.{resolve_timer-IsProgress, IsProgress}
use chrono_flow.Repository.Events.{new_execution_outbox_event, insert_event, create_event}
use chrono_flow.Repository.Executions.{same_slot}
use chrono_flow.Repository.Schedule.Announced.{Announced}
use chrono_flow.Repository.Schedule.Batch.{schedule_due_batch-Announced}
use chrono_flow.Repository.Outbox.Published.{AtMostOnce, succeeds, published_once}
use chrono_flow.Examples.Data.{
  no_json, every_ten, minute_timer, waiting, ready_event, tables, session, scheduler_cfg,
}
use chrono_flow.Model.Outbox.{ready_id}

every_ten-Advances : Advances every_ten
every_ten-Advances expr schedule from next e f = ground arith

resolved : resolve_timer every_ten scheduler_cfg minute_timer 135 ≡ ok (100 ∷ 110 ∷ [], some 120)
unfolding resolve_timer resolve_at resolve_misfire catch_up_loop next_trigger_time parse
resolved = refl

resolve_timer-IsProgress_example :
    (next : Time) × (some 120 ≡ some next) × IsProgress 100 135 2 (100 ∷ 110 ∷ []) next
resolve_timer-IsProgress_example =
    resolve_timer-IsProgress every_ten scheduler_cfg every_ten-Advances minute_timer 135 refl
      (omega arith) (omega arith) resolved

tens : Time → Result Time
tens t = ok (t + 10)

caught_up : catch_up_loop tens 135 5 [] 100 ≡ ok (100 ∷ 110 ∷ 120 ∷ 130 ∷ [], 140)
unfolding catch_up_loop tens
caught_up = refl

catch_up_loop_lem_example : CaughtUp tens 135 5 100 [] (100 ∷ 110 ∷ 120 ∷ 130 ∷ []) 140
catch_up_loop_lem_example = catch_up_loop_lem tens 135 5 [] 100 caught_up

abbrev skipping : TimerDefinition
skipping = record minute_timer { misfire_policy = skip }

skipped : resolve_timer every_ten scheduler_cfg skipping 135 ≡ ok ([], some 145)
unfolding resolve_timer resolve_at resolve_misfire next_trigger_time parse
skipped = refl

overdue_resolution_example : (135 < 145) × Fires skip 100 []
overdue_resolution_example =
    overdue_resolution every_ten scheduler_cfg every_ten-Advances skipping 135 100 145 refl
      (omega arith) (λ e. cc) skipped

all_free : ℕ → Bool
all_free id = true

batch_claimed :
    (claim_batch all_free "d1" 100 (pos 10) 50 (session waiting)).0
    ≡ ok (record ready_event { claim_owner = "d1"; claim_until = some 150 } ∷ [])
unfolding claim_batch select_publishable is_publishable order_by claim_events update_events is_among
    with_claim update_where count_where run_sql all_free
batch_claimed = refl

claim_batch-IsReservedBatch_example :
    IsBatch all_free "d1" 100 150
      (pos 10)
      (record ready_event { claim_owner = "d1"; claim_until = some 150 } ∷ [])
    × Reserved 150
        (record ready_event { claim_owner = "d1"; claim_until = some 150 } ∷ [])
        (claim_batch all_free "d1" 100 (pos 10) 50 (session waiting)).1.db
claim_batch-IsReservedBatch_example =
    claim_batch-IsReservedBatch all_free "d1" 100 (pos 10) 50 (session waiting) refl batch_claimed

timers_move_example :
    MovedAround
      (λ db. db)
      (tables waiting)
      (activate (λ db. db) every_ten 135 1 (session waiting)).1.db
    × MovedAround (λ db. db) (tables waiting) (deactivate (λ db. db) 1 (session waiting)).1.db
    × TimersMoved (tables waiting) (delete_timer 1 (session waiting)).1.db
timers_move_example = timers_move (λ db. db) every_ten 135 1 (session waiting)

-- The execution of 100 exists; the one of 110 is new.
scheduled :
    (schedule_due_batch no_json all_free 135
      (pos 10)
      (resolve_timer every_ten scheduler_cfg)
      (session waiting)).0
    ≡ ok (record { timers = 1; executions = 1; duplicates = 1 })
unfolding schedule_due_batch select_due is_due_timer order_by schedule_timer schedule_resolved
    schedule_occurrence build_request_snapshot announce insert_execution new_execution same_slot
    create_event insert_event new_execution_outbox_event update_timers has_version advanced
    resolve_timer resolve_at resolve_misfire catch_up_loop next_trigger_time parse update_where
    count_where for_each run_sql all_free
scheduled = refl

schedule_due_batch-Announced_example :
    Announced 2
      (schedule_due_batch no_json all_free 135
        (pos 10)
        (resolve_timer every_ten scheduler_cfg)
        (session waiting)).1.db
schedule_due_batch-Announced_example =
    schedule_due_batch-Announced no_json all_free 135 (pos 10)
      (resolve_timer every_ten scheduler_cfg) (session waiting) (omega arith, tt) scheduled

abbrev claimed_event : Session
claimed_event = record {
  db = record (tables waiting) {
    outbox = record ready_event { claim_owner = "d1"; claim_until = some 150 } ∷ [];
  };
  faults = [];
}

marked : (mark_published (ready_id 1) "d1" "1-0" 120 claimed_event).0 ≡ ok tt
unfolding mark_published update_events is_owned published update_where count_where run_sql
marked = refl

held_once : AtMostOnce (ready_id 1) claimed_event.db.outbox
unfolding count_where
held_once = omega arith

published_once_example :
    let done = (mark_published (ready_id 1) "d1" "1-0" 120 claimed_event).1 in
    ((succeeds (mark_published (ready_id 1) "d2" "2-0" 130 done).0 ≡ false)
      × ((mark_published (ready_id 1) "d2" "2-0" 130 done).1.db ≡ done.db))
    × ((succeeds (mark_failed (ready_id 1) "d2" "error" 130 done).0 ≡ false)
        × ((mark_failed (ready_id 1) "d2" "error" 130 done).1.db ≡ done.db))
published_once_example =
    published_once (ready_id 1) "d1" "1-0" 120 claimed_event held_once marked "d2" "2-0" "error" 130
