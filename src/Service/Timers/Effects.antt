-- ===== src/Service/Timers/Effects.antt =====
-- What the writing calls of internal/service/timer_service.go leave in the table of timers, while no
-- other session writes.
use chrono_flow.Common.{
  ◌==◌, ==→eq, Bool-cases, any, ℕ, String, ◌≡◌, refl, sym, ap, ◌∙◌, ◌⊎◌, inl, inr, Bool, true,
  false, not, Option, none, some, List, [], ◌∷◌, arith,
}
use chrono_flow.Effect.{◌>>=◌, wrap_error, require, Error, Result, ok, err}
use chrono_flow.Effect.Yields.{Yields-pure, Yields-raise, Yields-bind, Yields-wrap_error, Yields}
use chrono_flow.Model.Timer.{
  Time, status_eq, TimerDefinition, CreateTimerDefinitionRequest, TimerStatus, active, inactive,
  deleted,
}
use chrono_flow.Database.{update_where, count_where, find_where, statement, Database}
use chrono_flow.Database.Settles.{
  Outcome, Finds, Settles-after, Settles-wrap_error, Finds-pure, Settles-raise, Finds-require,
  Finds-or_raise, Finds-query, Finds-meanwhile, Settles-statement, Settles,
}
use chrono_flow.Database.SessionLaws.{statement_cases}
use chrono_flow.Repository.Events.{from_result}
use chrono_flow.Repository.Schedule.{update_timers, Json}
use chrono_flow.Repository.Timers.{
  insert_timer, create_definition, is_visible, get_definition, rescheduled, delete_definition,
  has_status, update_schedule_state,
}
use chrono_flow.Config.{SchedulerConfig, SecurityConfig}
use chrono_flow.Service.Callback.{Net}
use chrono_flow.Service.Timers.{
  new_timer, create_timer as create, get_timer as get, delete_timer as delete, activate, deactivate,
}
use chrono_flow.Service.Cron.{CronLibrary}

-- A row of the id in a status.
abbrev pub has_timer : ℕ → TimerStatus → Database → Bool
has_timer id status db = any (has_status id status) db.timers

module _ (p q : TimerDefinition → Bool) (f : TimerDefinition → TimerDefinition)
    (k : (t : TimerDefinition) → p t ≡ true → q (f t) ≡ true) where
  any-update_where :
      (ts : List TimerDefinition) → (count_where p ts ≡ 0) ⊎ (any q (update_where p f ts) ≡ true)
  unfolding count_where update_where
  any-update_where [] = inl refl
  any-update_where (t ∷ ts) = elim (Bool-cases (p t)) [
    | inl e ↦ inr (rw (e, k t e) refl)
    | inr e ↦ elim (any-update_where ts) [
      | inl c ↦ inl (rw (e, c) refl)
      | inr c ↦ inr (rw (e, c) (ground arith))
    ]
  ]

update_where_none :
    (p : TimerDefinition → Bool) (f : TimerDefinition → TimerDefinition) (ts : List TimerDefinition)
    → count_where p ts ≡ 0
    → update_where p f ts ≡ ts
unfolding count_where update_where
update_where_none p f [] h = refl
update_where_none p f (t ∷ ts) h = elim (Bool-cases (p t)) [
  | inl e ↦ let bad = rw e at h in absurd (omega arith)
  | inr e ↦ let rest = rw e at h in rw (e, update_where_none p f ts (omega arith)) refl
]

-- What an UPDATE leaves, by the number of rows that it has changed.
abbrev Updated : Database → (TimerDefinition → Bool) → Result ℕ → Database → Type 0
Updated d q (err e) db = db ≡ d
Updated d q (ok n) db =
    (((n == 0) ≡ true) × (db ≡ d)) ⊎ (((n == 0) ≡ false) × (any q db.timers ≡ true))

-- An UPDATE whose RowsAffected must not be 0.
module _ (d : Database) (p q : TimerDefinition → Bool) (f : TimerDefinition → TimerDefinition)
    (k : (t : TimerDefinition) → p t ≡ true → q (f t) ≡ true) where
  updated : Updated d q (ok (update_timers p f d).0) (update_timers p f d).1
  unfolding update_timers
  updated = elim (Bool-cases (count_where p d.timers == 0)) [
    | inl z ↦ inl (
      z,
      ap (λ (ts : List TimerDefinition). record d { timers = ts })
          (update_where_none p f d.timers (==→eq _ 0 z)),
    )
    | inr z ↦ elim (any-update_where p q f k d.timers) [
      | inl c ↦ absurd (ground arith)
      | inr c ↦ inr (z, c)
    ]
  ]

  update-Updated :
      Yields (λ s. s.db ≡ d) (statement (update_timers p f)) (λ r s. Updated d q r s.db)
  update-Updated = record {
    at = λ s h. elim (statement_cases (update_timers p f) s) [
      | inl c ↦ rw c.0 (c.1 ∙ h)
      | inr c ↦ rw (c.0, c.1, h) updated
    ];
  }

  require-Updated :
      (n : ℕ) (e : Error)
      → Yields
          (λ s. Updated d q (ok n) s.db)
          (require (not (n == 0)) e)
          (Outcome d (λ u db. any q db.timers ≡ true))
  unfolding require
  require-Updated n e = elim (Bool-cases (n == 0)) [
    | inl z ↦ rw z (Yields-raise e (λ s u. elim u [ inl h ↦ h.1 | inr h ↦ cc ]))
    | inr z ↦ rw z (Yields-pure tt (λ s u. elim u [ inl h ↦ cc | inr h ↦ h.1 ]))
  ]

  Settles-update :
      (text : String) (e : Error)
      → Settles d
          (wrap_error text (statement (update_timers p f)) >>= λ affected.
            require (not (affected == 0)) e)
          (λ u db. any q db.timers ≡ true)
  Settles-update text e = record {
    ends =
        Yields-bind (λ r s. Updated d q r s.db) (Yields-wrap_error text update-Updated (λ e s h. h))
          (λ e s h. h) (λ n. require-Updated n e);
  }

module _ {d : Database} where
  Finds-from_result : {A : Type 0} (r : Result A) → Finds d (from_result r) (λ a. Unit {0})
  Finds-from_result (ok a) = Finds-pure a _ tt
  Finds-from_result (err e) = Settles-raise e _

status_eq_refl : (status : TimerStatus) → status_eq status status ≡ true
status_eq_refl active = refl
status_eq_refl inactive = refl
status_eq_refl deleted = refl

module _ (d : Database) (id : ℕ) where
  kept :
      (from to : TimerStatus) (next : Option Time) (t : TimerDefinition)
      → has_status id from t ≡ true
      → has_status id to (rescheduled to next t) ≡ true
  unfolding has_status rescheduled
  kept from to next t h = ground (arith, status_eq_refl to)

  gone :
      (t : TimerDefinition)
      → is_visible id t ≡ true
      → has_status id deleted (rescheduled deleted none t) ≡ true
  unfolding is_visible has_status rescheduled
  gone t h = ground arith

  visible :
      (ts : List TimerDefinition) (t : TimerDefinition)
      → find_where (is_visible id) ts ≡ some t
      → t.id ≡ id
  unfolding find_where is_visible
  visible [] t h = cc
  visible (u ∷ ts) t h = ground (arith, visible ts t)

  Settles-state :
      (from to : TimerStatus) (next : Option Time)
      → Settles d (update_schedule_state id from to next) (λ u db. has_timer id to db ≡ true)
  unfolding update_schedule_state
  Settles-state from to next =
      Settles-update d (has_status id from) (has_status id to) (rescheduled to next)
        (kept from to next) _ _

  pub delete-Settles : Settles d (delete id) (λ u db. has_timer id deleted db ≡ true)
  unfolding delete delete_definition
  delete-Settles =
      Settles-wrap_error _ (
        Settles-update d (is_visible id) (has_status id deleted) (rescheduled deleted none) gone _
          _)

  get-Finds : Finds d (get id) (λ t. t.id ≡ id)
  unfolding get get_definition
  get-Finds =
      Settles-after (λ o. o ≡ find_where (is_visible id) d.timers)
        (Settles-wrap_error _
          (Settles-wrap_error _ (Finds-query (λ db. find_where (is_visible id) db.timers))))
        (λ o e. Finds-or_raise (λ t. t.id ≡ id) o _ (λ t h. visible d.timers t (sym e ∙ h)))

  pub activate-Settles :
      (library : CronLibrary) (now : Time)
      → Settles d (activate (λ db. db) library now id) (λ u db. has_timer id active db ≡ true)
  unfolding activate
  activate-Settles library now =
      Settles-after (λ t. t.id ≡ id) get-Finds
        λ t e. Settles-after _ Finds-meanwhile λ _ _. Settles-after _ (Finds-require _ _) λ _ _.
          Settles-after _ (Settles-wrap_error _ (Finds-from_result _))
            λ next _. Settles-wrap_error _ (rw e (Settles-state inactive active (some next)))

  pub deactivate-Settles :
      Settles d (deactivate (λ db. db) id) (λ u db. has_timer id inactive db ≡ true)
  unfolding deactivate
  deactivate-Settles =
      Settles-after (λ t. t.id ≡ id) get-Finds
        λ t e.
          Settles-after _ Finds-meanwhile
            λ _ _. Settles-after _ (Finds-require _ _) λ _ _. Settles-state active inactive none

-- The new row stands first, is INACTIVE and has no time.
abbrev pub IsCreated : Database → TimerDefinition → Database → Type 0
IsCreated d row db =
    (db.timers ≡ row ∷ d.timers) × (row.status ≡ inactive) × (row.next_fire_at ≡ none)

pub create-Settles :
    (d : Database) (library : CronLibrary) (net : Net) (json : Json) (cfg : SchedulerConfig)
    (security : SecurityConfig) (now : Time) (req : CreateTimerDefinitionRequest)
    → Settles d (create library net json cfg security now req) (IsCreated d)
unfolding create create_definition insert_timer new_timer
create-Settles d library net json cfg security now req =
    Settles-after _ (Settles-wrap_error _ (Finds-from_result _)) λ _ _.
      Settles-after _ (Settles-wrap_error _ (Finds-from_result _)) λ _ _.
        Settles-after _ (Finds-from_result _) λ _ _. Settles-after _ (Finds-require _ _) λ _ _.
          Settles-after (λ a. Unit {0}) (Finds-or_raise _ _ _ (λ a e. tt))
            λ headers _. Settles-wrap_error _ (
              Settles-wrap_error _
                (Settles-statement (insert_timer (new_timer cfg req headers)) (refl, refl, refl)))
