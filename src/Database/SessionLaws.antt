-- ===== src/Database/SessionLaws.antt =====
-- Invariants of the database over statements and transactions.
use mathlib.Core.Path.{subst}
use chrono_flow.Common.{◌≡◌, refl, sym, ◌⊎◌, inl, inr, Bool, true, false, List, [], ◌∷◌}
use chrono_flow.Effect.{continue, ◌>>=◌, run, database, Result, ok, err}
use chrono_flow.Effect.Keeps.{Keeps-bind, Keeps, keeps_rules}
use chrono_flow.Database.Sessions.{
  Sql, run_statement, statement, query, transaction, meanwhile, Database, Session,
}

pub record On (P : Database → Type 0) (s : Session) : Type 0 where
  pub holds : P s.db

-- A statement either fails and changes nothing, or has its effect.
pub statement_cases :
    {A : Type 0} (run : Database → A × Database) (s : Session)
    → ((statement run s).0 ≡ err database) × ((statement run s).1.db ≡ s.db)
      ⊎ ((statement run s).0 ≡ ok (run s.db).0) × ((statement run s).1.db ≡ (run s.db).1)
unfolding statement
statement_cases run s = go s.faults
  where
    go :
        (fs : List Bool)
        → ((run_statement fs run s.db).0 ≡ err database) × ((run_statement fs run s.db).1.db ≡ s.db)
          ⊎ ((run_statement fs run s.db).0 ≡ ok (run s.db).0)
            × ((run_statement fs run s.db).1.db ≡ (run s.db).1)
    go [] = inr (refl, refl)
    go (false ∷ fs) = inr (refl, refl)
    go (true ∷ fs) = inl (refl, refl)

module _ {P : Database → Type 0} where
  pub Keeps-statement :
      {A : Type 0} (run : Database → A × Database)
      → ((db : Database) → P db → P (run db).1)
      → Keeps (On P) (statement run)
  Keeps-statement run k = record {
    at = λ s h. elim (statement_cases run s) [
      | inl c ↦ record { holds = subst P (sym c.1) h.holds }
      | inr c ↦ record { holds = subst P (sym c.1) (k s.db h.holds) }
    ];
  }

  pub Keeps-query : {A : Type 0} (read : Database → A) → Keeps (On P) (query read)
  unfolding query
  Keeps-query read = Keeps-statement (λ db. (read db, db)) (λ db h. h)

  pub Keeps-meanwhile :
      (others : Database → Database)
      → ((db : Database) → P db → P (others db))
      → Keeps (On P) (meanwhile others)
  unfolding meanwhile
  Keeps-meanwhile others k = record { at = λ s h. record { holds = k s.db h.holds } }

  pub Keeps-transaction :
      {A : Type 0} {body : Sql A} → Keeps (On P) body → Keeps (On P) (transaction body)
  unfolding transaction
  Keeps-transaction {A} {body = body} h = record {
    at = λ s p. go s p ((body >>= λ a. statement (λ db. (a, db))) s) (committed.at s p);
  }
    where
      committed : Keeps (On P) (body >>= λ a. statement (λ db. (a, db)))
      committed = Keeps-bind h (λ a. Keeps-statement (λ db. (a, db)) (λ db q. q))

      go :
          (s : Session)
          → On P s
          → (r : Result A × Session) → On P r.1
          → On P
              (continue {C = Result A × Session} r
                (λ a s'. (ok a, s'))
                (λ e s'. (err e, record s' { db = s.db }))).1
      go s p (ok a, s') q = q
      go s p (err e, s') q = record { holds = p.holds }

pub ruleset sql_rules = (keeps_rules, Keeps-query, Keeps-transaction)
