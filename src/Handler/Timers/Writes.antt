-- ===== src/Handler/Timers/Writes.antt =====
-- What the replies of the writing handlers of timer_handler.go say of the table of timers.
use chrono_flow.Common.{pos_part, ℤ, ℕ, String, ◌≡◌, refl, true, Option, none, some}
use chrono_flow.Common.Decimal.{parse_int, NumError}
use chrono_flow.Effect.{pure, Result, ok, err}
use chrono_flow.Effect.Yields.{Yields-pure, Yields-bind, Yields-try, Yields}
use chrono_flow.Database.{Sql, Database, Session}
use chrono_flow.Database.Settles.{Outcome, Settles}
use chrono_flow.Handler.Replies.{
  reply_of, reply_to, parsed_id, for_row, with_id, Reply, answer, failure,
}
use chrono_flow.Config.{SchedulerConfig, SecurityConfig}
use chrono_flow.Model.Timer.{Time, CreateTimerDefinitionRequest, active, inactive, deleted}
use chrono_flow.Repository.Schedule.{Json}
use chrono_flow.Service.Cron.{CronLibrary}
use chrono_flow.Service.Callback.{Net}
use chrono_flow.Service.Timers.Effects.{
  has_timer, delete-Settles, activate-Settles, deactivate-Settles, IsCreated, create-Settles,
}
use chrono_flow.Handler.Timers.{create_timer, delete_timer, activate_timer, deactivate_timer}

-- A reply with the status of success and what holds then, or a failure after which the tables are as
-- they were; a handler always replies.
abbrev pub Tells :
    {A : Type 0} → ℕ → Database → (A → Database → Type 0) → Result (Reply A) → Session → Type 0
Tells success d Q (ok (answer status a)) s = (status ≡ success) × Q a s.db
Tells success d Q (ok (failure status e)) s = s.db ≡ d
Tells success d Q (err e) s = ⊥

module _ {A : Type 0} {Q : A → Database → Type 0} (d : Database) where
  reply_to-Tells :
      (success refused : ℕ) {m : Sql A}
      → Settles d m Q
      → Yields (λ s. s.db ≡ d) (reply_to success refused m) (Tells success d Q)
  unfolding reply_to
  reply_to-Tells success refused h =
      Yields-bind (Tried d) (Yields-try h.ends (λ r s q. q)) (λ e s q. absurd q) λ r. told r
    where
      Tried : Database → Result (Result A) → Session → Type 0
      Tried d (ok r) s = Outcome d Q r s
      Tried d (err e) s = ⊥

      told :
          (r : Result A)
          → Yields (Outcome d Q r) (pure (reply_of success refused r)) (Tells success d Q)
      told (ok a) = Yields-pure _ (λ s q. (refl, q))
      told (err e) = Yields-pure _ (λ s q. q)

-- The row that a path parameter names.
abbrev pub named : String → ℕ
named param = pos_part (parse_int param).0

module _ {A : Type 0} (Q : A → Database → Type 0) (d : Database) (success : ℕ) where
  for_row-Tells :
      (call : ℕ → Sql (Reply A)) (r : ℤ × Option NumError)
      → Yields (λ s. s.db ≡ d) (call (pos_part r.0)) (Tells success d Q)
      → Yields (λ s. s.db ≡ d) (for_row call (parsed_id r)) (Tells success d Q)
  for_row-Tells call (n, none) h = h
  for_row-Tells call (n, some e) h = Yields-pure _ (λ s q. q)

  with_id-Tells :
      (param : String) (call : ℕ → Sql (Reply A))
      → Yields (λ s. s.db ≡ d) (call (named param)) (Tells success d Q)
      → Yields (λ s. s.db ≡ d) (with_id param call) (Tells success d Q)
  unfolding with_id
  with_id-Tells param call h = for_row-Tells call (parse_int param) h

module _ (s : Session) (library : CronLibrary) (now : Time) where
  activate_timer-Tells :
      (param : String)
      → Yields
          (λ t. t.db ≡ s.db)
          (activate_timer (λ db. db) library now param)
          (Tells 200 s.db (λ u db. has_timer (named param) active db ≡ true))
  unfolding activate_timer
  activate_timer-Tells param =
      with_id-Tells _ s.db 200 param _
        (reply_to-Tells s.db 200 400 (activate-Settles s.db (named param) library now))

  deactivate_timer-Tells :
      (param : String)
      → Yields
          (λ t. t.db ≡ s.db)
          (deactivate_timer (λ db. db) param)
          (Tells 200 s.db (λ u db. has_timer (named param) inactive db ≡ true))
  unfolding deactivate_timer
  deactivate_timer-Tells param =
      with_id-Tells _ s.db 200 param _
        (reply_to-Tells s.db 200 400 (deactivate-Settles s.db (named param)))

  delete_timer-Tells :
      (param : String)
      → Yields
          (λ t. t.db ≡ s.db)
          (delete_timer param)
          (Tells 200 s.db (λ u db. has_timer (named param) deleted db ≡ true))
  unfolding delete_timer
  delete_timer-Tells param =
      with_id-Tells _ s.db 200 param _
        (reply_to-Tells s.db 200 500 (delete-Settles s.db (named param)))

  create_timer-Tells :
      (net : Net) (json : Json) (cfg : SchedulerConfig) (security : SecurityConfig)
      (req : Option CreateTimerDefinitionRequest)
      → Yields
          (λ t. t.db ≡ s.db)
          (create_timer library net json cfg security now req)
          (Tells 201 s.db (IsCreated s.db))
  unfolding create_timer
  create_timer-Tells net json cfg security none = Yields-pure _ (λ t q. q)
  create_timer-Tells net json cfg security (some req) =
      reply_to-Tells s.db 201 400 (create-Settles s.db library net json cfg security now req)

  -- While no other session writes, a request to create, activate, deactivate or delete a timer is
  -- always replied to. The reply has the status of success only if the table has the new timer as its
  -- first row, INACTIVE and without a time, or has the timer of the given id in the state that was
  -- asked for; after any other reply the tables are as they were before, whichever statement fails.
  pub writes_tell :
      (net : Net) (json : Json) (cfg : SchedulerConfig) (security : SecurityConfig)
      (req : Option CreateTimerDefinitionRequest) (param : String)
      → Tells 201 s.db
          (IsCreated s.db)
          (create_timer library net json cfg security now req s).0
          (create_timer library net json cfg security now req s).1
        × Tells 200 s.db
            (λ u db. has_timer (named param) active db ≡ true)
            (activate_timer (λ db. db) library now param s).0
            (activate_timer (λ db. db) library now param s).1
        × Tells 200 s.db
            (λ u db. has_timer (named param) inactive db ≡ true)
            (deactivate_timer (λ db. db) param s).0
            (deactivate_timer (λ db. db) param s).1
        × Tells 200 s.db
            (λ u db. has_timer (named param) deleted db ≡ true)
            (delete_timer param s).0
            (delete_timer param s).1
  writes_tell net json cfg security req param = (
    (create_timer-Tells net json cfg security req).at s refl,
    (activate_timer-Tells param).at s refl,
    (deactivate_timer-Tells param).at s refl,
    (delete_timer-Tells param).at s refl,
  )
