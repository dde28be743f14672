-- ===== src/Repository/Recovery/Complete.antt =====
-- The rows after RecoverBatch (internal/repository/recovery_repo.go).
use chrono_flow.Common.{
  ==_refl, Bool-cases, length, any, keep, All, All-map_lem, take_all, pos, ℕ, ◌≤◌, ◌≡◌, refl, inl,
  inr, Bool, true, false, ◌||◌, List, [], ◌∷◌, arith, eq_iff,
}
use chrono_flow.Effect.{ok}
use chrono_flow.Effect.Yields.{Yields-bind, Yields-wrap_error, Yields}
use chrono_flow.Database.{
  count_where, order_by, order_by-any, count_where-keep, length-order_by, query, Database, Session,
}
use chrono_flow.Database.SessionLaws.{statement_cases}
use chrono_flow.Database.Outcomes.{OnSuccess, Yields-transaction}
use chrono_flow.Model.Timer.{Time}
use chrono_flow.Model.Execution.{TimerExecution}
use chrono_flow.Repository.Recovery.{
  is_stuck, by_schedule, select_stuck, recover_batch, RecoveryResult,
}
use chrono_flow.Repository.Recovery.Rows.{is_same, ToCome}
use mathlib.Core.Path.{subst}
use chrono_flow.Repository.Recovery.Loop.{Rest, loop-Rest}

-- What a filter keeps, it can be found in.
keep-found :
    (same : TimerExecution → TimerExecution → Bool)
    → ((r : TimerExecution) → same r r ≡ true)
    → (p : TimerExecution → Bool) (es : List TimerExecution)
    → All (λ r. p r ≡ true → any (same r) (keep p es) ≡ true) es
keep-found same itself p [] = tt
keep-found same itself p (e ∷ es) = elim (Bool-cases (p e)) [
  | inl t ↦ (
    (λ h. rw (t, itself e) refl),
    All-map_lem _ _ es (λ r k h. rw t (or_right (same r e) _ (k h))) (keep-found same itself p es),
  )
  | inr t ↦ ((λ h. cc), All-map_lem _ _ es (λ r k h. rw t (k h)) (keep-found same itself p es))
]
  where
    or_right : (a b : Bool) → b ≡ true → (a || b) ≡ true
    or_right true b h = refl
    or_right false b h = h

same_itself : (r : TimerExecution) → is_same r r ≡ true
unfolding is_same
same_itself r = ground (arith, eq_iff r.run_token r.run_token, ==_refl r.id)

module _ (now stale_before : Time) (recent : stale_before ≤ now) (room : ℕ) where
  abbrev HasRoom : Database → Type 0
  HasRoom db = count_where (is_stuck now stale_before) db.executions ≤ room

  fits :
      (db : Database)
      → HasRoom db
      → length (order_by by_schedule (keep (is_stuck now stale_before) db.executions)) ≤ room
  fits db h = omega (
    arith,
    h,
    length-order_by by_schedule (keep (is_stuck now stale_before) db.executions),
    count_where-keep (is_stuck now stale_before) db.executions,
  )

  select-Rest :
      (db : Database)
      → HasRoom db
      → Rest now stale_before recent (select_stuck (λ id. true) now stale_before (pos room) db) db
  unfolding select_stuck
  select-Rest db h =
      All-map_lem
        (λ r.
          is_stuck now stale_before r ≡ true
          → any (is_same r) (keep (is_stuck now stale_before) db.executions) ≡ true)
        _ db.executions
        (λ r k t. rw (take_all room _ (fits db h)) (order_by-any (is_same r) by_schedule _ (k t)))
        (keep-found is_same same_itself (is_stuck now stale_before) db.executions)

  query-Rest :
      Yields
        (λ s. HasRoom s.db)
        (query (select_stuck (λ id. true) now stale_before (pos room)))
        (OnSuccess (Rest now stale_before recent))
  unfolding query
  query-Rest = record {
    at = λ s h.
        elim (statement_cases (λ db. (select_stuck (λ id. true) now stale_before (pos room) db, db))
          s) [ inl c ↦ rw c.0 tt | inr c ↦ rw (c.0, c.1) (select-Rest s.db h) ];
  }

  recover_batch-Rest :
      Yields
        (λ s. HasRoom s.db)
        (recover_batch (λ id. true) now stale_before (pos room))
        (OnSuccess (λ r. Rest now stale_before recent []))
  unfolding recover_batch
  recover_batch-Rest =
      Yields-wrap_error _
        (Yields-transaction (λ r. Rest now stale_before recent [])
          (Yields-bind (OnSuccess (Rest now stale_before recent)) query-Rest (λ e s q. tt)
            (λ rest. loop-Rest now stale_before recent _ rest)))
        (λ e s q. tt)

  nothing_left :
      (r : TimerExecution)
      → ToCome now stale_before recent [] r
      → is_stuck now stale_before r ≡ false
  nothing_left r h = elim (Bool-cases (is_stuck now stale_before r)) [
    | inl t ↦ absurd (never (h t))
    | inr t ↦ t
  ]
    where
      never : false ≡ true → ⊥
      never e = cc

  -- A recovery whose batch has room for all stuck executions, none of which is locked, and that
  -- returns no error, leaves no execution stuck: none that is PENDING or waits for a retry, is due, and
  -- was last enqueued before the limit, and none that runs beyond its lease. The limit is not in the
  -- future.
  pub recover_batch_complete :
      (s : Session) {result : RecoveryResult}
      → count_where (is_stuck now stale_before) s.db.executions ≤ room
      → (recover_batch (λ id. true) now stale_before (pos room) s).0 ≡ ok result
      → All
          (λ r. is_stuck now stale_before r ≡ false)
          (recover_batch (λ id. true) now stale_before (pos room) s).1.db.executions
  recover_batch_complete s h e = All-map_lem _ _ _ nothing_left (
      subst
        (λ r.
          OnSuccess (λ x. Rest now stale_before recent []) r
            (recover_batch (λ id. true) now stale_before (pos room) s).1)
        e (recover_batch-Rest.at s h))
