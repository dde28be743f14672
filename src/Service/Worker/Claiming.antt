-- ===== src/Service/Worker/Claiming.antt =====
-- What a claim leaves (internal/repository/timer_execution_repo.go), and what the worker makes of
-- the results of its calls.
use chrono_flow.Common.{
  ◌==◌, Bool-cases, All, ℕ, ◌+◌, String, ◌≡◌, refl, inl, inr, Bool, Option, none, some, List, [],
  ◌∷◌, arith,
}
use chrono_flow.Effect.{Result, ok, err}
use chrono_flow.Effect.Yields.{Yields-pure, Yields-keeps, Yields-bind, Yields-wrap_error, Yields}
use chrono_flow.Model.Timer.{Time}
use chrono_flow.Model.Execution.{TimerExecution}
use chrono_flow.Database.{find_where, query, Database, Session}
use chrono_flow.Database.SessionLaws.{statement_cases, Keeps-meanwhile, On}
use chrono_flow.Repository.Executions.{found_and, claim}
use chrono_flow.Repository.Invariant.{Invariant}
use chrono_flow.Service.Worker.{persisted, failure_persisted, Surroundings}
use chrono_flow.Service.Worker.Settled.{row_of}
use chrono_flow.Repository.Executions.Consistency.{claim_update-Invariant}
use chrono_flow.Service.Worker.Persistence.{AckSafe, FailureSafe}

-- Other sessions that keep the invariant, at each moment at which they may commit.
pub record IsPeaceful (world : Surroundings) : Type 0 where
  pub claiming : (db : Database) → Invariant db → Invariant (world.after_claim db)
  pub ticking : All (λ t. (db : Database) → Invariant db → Invariant (t.others db)) world.ticks
  pub finishing : (db : Database) → Invariant db → Invariant (world.before_result db)

-- What a claim has found in the last of its statements.
abbrev pub ClaimSafe : ℕ → Result (Option TimerExecution × Bool) → Session → Type 0
ClaimSafe id (ok (o, won)) s = On Invariant s × (row_of id s.db.executions ≡ o)
ClaimSafe id (err e) s = Unit {0}

abbrev pub RowSafe : ℕ → Result (Option TimerExecution) → Session → Type 0
RowSafe id (ok o) s = On Invariant s × (row_of id s.db.executions ≡ o)
RowSafe id (err e) s = Unit {0}

query-RowSafe :
    (id : ℕ) → Yields (On Invariant) (query (λ db. row_of id db.executions)) (RowSafe id)
unfolding query
query-RowSafe id = record {
  at = λ s h. elim (statement_cases (λ db. (row_of id db.executions, db)) s) [
    | inl c ↦ rw c.0 tt
    | inr c ↦ rw (c.0, c.1) (record { holds = rw c.1 h.holds }, refl)
  ];
}

pub claim-ClaimSafe :
    (others : Database → Database)
    → ((db : Database) → Invariant db → Invariant (others db))
    → (id : ℕ) (owner run_token : String) (now : Time) (ttl : ℕ)
    → Yields (On Invariant) (claim others id owner run_token now ttl) (ClaimSafe id)
unfolding claim
claim-ClaimSafe others k id owner run_token now ttl =
    Yields-bind (λ r. On Invariant)
      (Yields-keeps (claim_update-Invariant id owner run_token now (now + ttl))) (λ e s q. tt)
      λ n.
        Yields-bind (λ r. On Invariant) (Yields-keeps (Keeps-meanwhile others k)) (λ e s q. tt)
          λ _.
            Yields-bind (RowSafe id) (Yields-wrap_error _ (query-RowSafe id) (λ e s q. tt))
              (λ e s q. tt) λ o. Yields-pure (found_and o (n == 1)) (found o (n == 1))
  where
    found :
        (o : Option TimerExecution) (won : Bool) (s : Session)
        → RowSafe id (ok o) s
        → ClaimSafe id (ok (found_and o won)) s
    found none won s q = q
    found (some e) won s q = q

pub row_of-id :
    (id : ℕ) (es : List TimerExecution) {e : TimerExecution} → row_of id es ≡ some e → e.id ≡ id
unfolding find_where
row_of-id id [] h = cc
row_of-id id (f ∷ es) {e} h = elim (Bool-cases (f.id == id)) [
  | inl t ↦ ground arith
  | inr t ↦ row_of-id id es {e = e} (ground arith)
]

-- What `try` hands on of a call that may have settled the message.
abbrev pub TrySafe : {A : Type 0} → (Result A → Bool) → ℕ → Result (Result A) → Session → Type 0
TrySafe acked id (ok r) s = AckSafe id (ok (acked r)) s
TrySafe acked id (err e) s = Unit {0}

pub success_safe :
    (id : ℕ) (r : Result Bool) (s : Session) → AckSafe id r s → AckSafe id (ok (persisted r)) s
success_safe id (ok b) s q = q
success_safe id (err e) s q = tt

pub failure_safe :
    (id : ℕ) (r : Result (Bool × Bool)) (s : Session)
    → FailureSafe id r s
    → AckSafe id (ok (failure_persisted r)) s
failure_safe id (ok (b, c)) s q = q
failure_safe id (err e) s q = tt
