-- ===== src/Examples/Executions.antt =====
-- Claims, leases and histories of one execution.
use chrono_flow.Common.{
  All, pos, ◌≤◌, String, ◌≡◌, refl, ap, ◌⊎◌, inl, Bool, true, false, List, [], ◌∷◌, arith, str_eq,
}
use chrono_flow.Effect.{for_each, Error, ok}
use chrono_flow.Database.{update_where, count_where, find_where, order_by, run_sql}
use chrono_flow.Repository.Executions.{
  update_executions, is_claimable, can_claim, claimed, claim, is_held, renewed, heartbeat,
  succeeded, complete_success, complete_failure,
}
use chrono_flow.Repository.Executions.Fencing.{won, claim_protected}
use chrono_flow.Repository.Executions.Stale.{Revoked, reports, reports_update, stale_writes_refused}
use chrono_flow.Repository.Executions.Takeover.{takeover_revokes}
use chrono_flow.Repository.Invariant.{Invariant}
use chrono_flow.Repository.Lifecycle.{Reaches}
use chrono_flow.Repository.Histories.{
  perform_all, histories_keep-Invariant, histories_follow_lifecycle, Operation, claim_execution,
  renew_lease, record_success, clean_up, recover,
}
use chrono_flow.Repository.Histories.CoherentEvents.{histories_keep-EventsCoherent}
use chrono_flow.Repository.Outbox.Coherence.{EventsCoherent}
use chrono_flow.Service.Worker.{
  is_malformed, heartbeat_loop, finish_success, finish, run_claimed, after_claim, process_with,
  process,
}
use chrono_flow.Service.Worker.Settled.{Settled}
use chrono_flow.Service.Worker.Claiming.{IsPeaceful}
use chrono_flow.Service.Worker.Acknowledgement.{process-acknowledges-Settled}
use chrono_flow.Repository.Events.{new_execution_outbox_event, insert_event, create_event}
use chrono_flow.Repository.Recovery.{
  is_stuck, select_stuck, is_expired_row, put_back, enqueued_at, has_id, reenqueue, recover_one,
  recover_batch,
}
use chrono_flow.Repository.Recovery.Complete.{recover_batch_complete}
use chrono_flow.Examples.Data.{
  no_json, waiting, leased_row, tables, session, waiting-Invariant, worker_cfg, calm, delivery,
}

abbrev script : List Operation
script =
    claim_execution 1 "w1" "t1" 100 400
    ∷ renew_lease 1 "w1" "t1" 900
    ∷ record_success 1 "w1" "t1" 300 200 "ok" 5
    ∷ clean_up 0 400 10
    ∷ []

histories_keep-Invariant_example : Invariant (perform_all no_json script (session waiting)).db
histories_keep-Invariant_example =
    histories_keep-Invariant no_json script (session waiting) waiting-Invariant

histories_follow_lifecycle_example :
    Reaches (waiting ∷ []) (perform_all no_json script (session waiting)).db.executions
histories_follow_lifecycle_example = histories_follow_lifecycle no_json script (session waiting)

-- The lease of the execution has run out.
abbrev repairs : List Operation
repairs = recover (λ id. true) 600 500 (pos 10) ∷ []

histories_keep-EventsCoherent_example :
    EventsCoherent (perform_all no_json repairs (session leased_row)).db
histories_keep-EventsCoherent_example =
    histories_keep-EventsCoherent no_json repairs (session leased_row)
      (((refl, refl), refl, refl, refl), tt)

abbrev text_of : Error → String
text_of e = "error"

calm-IsPeaceful : IsPeaceful calm
calm-IsPeaceful = record {
  claiming = λ db h. h;
  ticking = ((λ db h. h), tt);
  finishing = λ db h. h;
}

acknowledged : (process no_json worker_cfg "w1" text_of calm delivery (session waiting)).0 ≡ ok true
unfolding process is_malformed process_with after_claim run_claimed heartbeat_loop finish
    finish_success complete_success heartbeat claim update_executions can_claim is_claimable is_held
    claimed renewed succeeded update_where count_where find_where run_sql
acknowledged = refl

wellformed : is_malformed delivery ≡ false
unfolding is_malformed
wellformed = refl

process-acknowledges-Settled_example :
    Settled 1 (process no_json worker_cfg "w1" text_of calm delivery (session waiting)).1.db
process-acknowledges-Settled_example =
    process-acknowledges-Settled no_json worker_cfg "w1" text_of calm calm-IsPeaceful delivery
      (session waiting) waiting-Invariant wellformed acknowledged

claim_protected_example :
    (won (claim (λ db. db) 1 "w2" "t2" 400 100 (session leased_row)).0 ≡ false)
    × (((claim (λ db. db) 1 "w2" "t2" 400 100 (session leased_row)).1.db ≡ tables leased_row)
        ⊎ ((claim (λ db. db) 1 "w2" "t2" 400 100 (session leased_row)).1.db ≡ tables leased_row))
claim_protected_example =
    claim_protected (λ db. db) 1 "w2" "t2" 400 100 (session leased_row)
      ((λ e. inl (refl, refl)), tt)

true≢false : ¬ Path Bool true false
true≢false e = cc

other_token : ¬ Path String "t1" "t0"
other_token e = let f : Path Bool true false = ap (str_eq "t1") e in true≢false f

new_token : ¬ Path String "t2" "t1"
new_token e = let f : Path Bool true false = ap (str_eq "t2") e in true≢false f

stale_writes_refused_example :
    ((reports (heartbeat 1 "w1" "t0" 600 (session leased_row)).0 ≡ false)
      × ((heartbeat 1 "w1" "t0" 600 (session leased_row)).1.db ≡ tables leased_row))
    × ((reports (complete_success 1 "w1" "t0" 300 200 "ok" 5 (session leased_row)).0 ≡ false)
        × ((complete_success 1 "w1" "t0" 300 200 "ok" 5 (session leased_row)).1.db
            ≡ tables leased_row))
    × ((reports_update
            (complete_failure leased_row "w1" "t0" 300 200 "ok" "" 5 900 true
              (session leased_row)).0
          ≡ false)
        × ((complete_failure leased_row "w1" "t0" 300 200 "ok" "" 5 900 true
              (session leased_row)).1.db
            ≡ tables leased_row))
stale_writes_refused_example =
    stale_writes_refused leased_row "w1" "t0" (session leased_row) ((λ e. other_token), tt) 600 300
      200 "ok" "" 5 900 true

claimed_again : won (claim (λ db. db) 1 "w2" "t2" 700 100 (session leased_row)).0 ≡ true
unfolding claim update_executions can_claim is_claimable claimed update_where count_where find_where
    run_sql
claimed_again = refl

takeover_revokes_example :
    Revoked 1 "t1" (claim (λ db. db) 1 "w2" "t2" 700 100 (session leased_row)).1.db.executions
takeover_revokes_example =
    takeover_revokes 1 "w2" "t2" 700 100 "t1" (session leased_row) (omega arith, tt) new_token
      claimed_again

-- The lease of the worker ended at 500, and the worker is gone.
recovered :
    (recover_batch (λ id. true) 600 500 (pos 10) (session leased_row)).0
    ≡ ok (record { reenqueued = 1; expired_leases = 1; final_failures = 0 })
unfolding recover_batch select_stuck is_stuck order_by recover_one is_expired_row put_back reenqueue
    has_id enqueued_at create_event insert_event new_execution_outbox_event update_executions
    update_where count_where for_each run_sql
recovered = refl

one_stuck : count_where (is_stuck 600 500) (leased_row ∷ []) ≤ 10
unfolding count_where is_stuck
one_stuck = omega arith

recover_batch_complete_example :
    All
      (λ r. is_stuck 600 500 r ≡ false)
      (recover_batch (λ id. true) 600 500 (pos 10) (session leased_row)).1.db.executions
recover_batch_complete_example =
    recover_batch_complete 600 500 (omega arith) 10 (session leased_row) one_stuck recovered
