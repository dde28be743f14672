-- ===== src/Database/Outcomes.antt =====
-- What a transaction leaves when it returns no error.
use chrono_flow.Common.{inl, inr}
use chrono_flow.Effect.{continue, ◌>>=◌, Result, ok, err}
use chrono_flow.Effect.Yields.{Yields-bind, Yields}
use chrono_flow.Database.Sessions.{Sql, statement, transaction, Database, Session}
use chrono_flow.Database.SessionLaws.{statement_cases}

abbrev pub OnSuccess : {A : Type 0} → (A → Database → Type 0) → Result A → Session → Type 0
OnSuccess Q (ok a) s = Q a s.db
OnSuccess Q (err e) s = Unit {0}

-- COMMIT changes nothing of it.
pub Yields-transaction :
    {A : Type 0} {P : Session → Type 0} {body : Sql A} (Q : A → Database → Type 0)
    → Yields P body (OnSuccess Q)
    → Yields P (transaction body) (OnSuccess Q)
unfolding transaction
Yields-transaction {A} {P} {body} Q h = record {
  at = λ s p. go s ((body >>= λ a. statement (λ db. (a, db))) s) (committed.at s p);
}
  where
    committed : Yields P (body >>= λ a. statement (λ db. (a, db))) (OnSuccess Q)
    committed =
        Yields-bind (OnSuccess Q) h (λ e s q. tt)
          λ a. record {
            at = λ s q. elim (statement_cases (λ db. (a, db)) s) [
              | inl c ↦ rw c.0 tt
              | inr c ↦ rw (c.0, c.1) q
            ];
          }

    go :
        (s : Session) (r : Result A × Session)
        → OnSuccess Q r.0 r.1
        → OnSuccess Q
            (continue {C = Result A × Session} r
              (λ a s'. (ok a, s'))
              (λ e s'. (err e, record s' { db = s.db }))).0
            (continue {C = Result A × Session} r
              (λ a s'. (ok a, s'))
              (λ e s'. (err e, record s' { db = s.db }))).1
    go s (ok a, s') q = q
    go s (err e, s') q = tt
