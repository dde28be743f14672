-- ===== src/Database/Changes.antt =====
-- What an action does to the database, as a relation of before and after.
use chrono_flow.Common.{String, ◌≡◌, refl, sym, ◌⊎◌, inl, inr}
use chrono_flow.Effect.{continue, ◌>>=◌, wrap_error, run, wrap, Result, ok, err}
use chrono_flow.Effect.Keeps.{Keeps}
use chrono_flow.Database.Sessions.{Sql, statement, meanwhile, Database, Session}
use chrono_flow.Database.SessionLaws.{statement_cases, On}
use mathlib.Core.Path.{subst}

pub record Changes {A : Type 0} (R : Database → Database → Type 0) (m : Sql A) : Type 0 where
  pub at : (s : Session) → R s.db (m s).1.db

-- An action that only reads.
abbrev pub Reads : {A : Type 0} → Sql A → Type 0
Reads m = (d : Database) → Keeps (On (λ db. db ≡ d)) m

module _ (R : Database → Database → Type 0) (same : (d : Database) → R d d) where
  pub Changes-after :
      {A B : Type 0} {m : Sql A} {f : A → Sql B}
      → Reads m
      → ((a : A) → Changes R (f a))
      → Changes R (m >>= f)
  unfolding ◌>>=◌
  Changes-after {A} {B} {m = m} {f = f} h k = record {
    at = λ s. go s.db (m s) ((h s.db).at s (record { holds = refl })).holds;
  }
    where
      go :
          (d : Database) (r : Result A × Session)
          → r.1.db ≡ d
          → R d (continue {C = Result B × Session} r f (λ e s'. (err e, s'))).1.db
      go d (ok a, s) e = subst (λ x. R x (f a s).1.db) e ((k a).at s)
      go d (err x, s) e = subst (R d) (sym e) (same d)

  pub Changes-before :
      {A B : Type 0} {m : Sql A} {f : A → Sql B}
      → Changes R m
      → ((a : A) → Reads (f a))
      → Changes R (m >>= f)
  unfolding ◌>>=◌
  Changes-before {A} {B} {m = m} {f = f} h k = record { at = λ s. go s.db (m s) (h.at s) }
    where
      go :
          (d : Database) (r : Result A × Session)
          → R d r.1.db
          → R d (continue {C = Result B × Session} r f (λ e s'. (err e, s'))).1.db
      go d (ok a, s) x = subst (R d) (sym ((k a s.db).at s (record { holds = refl })).holds) x
      go d (err e, s) x = x

  pub Changes-wrap_error :
      {A : Type 0} (text : String) {m : Sql A} → Changes R m → Changes R (wrap_error text m)
  unfolding wrap_error
  Changes-wrap_error {A} text {m = m} h = record { at = λ s. go s.db (m s) (h.at s) }
    where
      go :
          (d : Database) (r : Result A × Session)
          → R d r.1.db
          → R d
              (continue {C = Result A × Session} r
                (λ a s'. (ok a, s'))
                (λ e s'. (err (wrap text e), s'))).1.db
      go d (ok a, s) x = x
      go d (err e, s) x = x

  pub Changes-statement :
      {A : Type 0} (run : Database → A × Database)
      → ((d : Database) → R d (run d).1)
      → Changes R (statement run)
  Changes-statement run k = record {
    at = λ s. elim (statement_cases run s) [
      | inl c ↦ subst (R s.db) (sym c.1) (same s.db)
      | inr c ↦ subst (R s.db) (sym c.1) (k s.db)
    ];
  }

pub Changes-meanwhile :
    (R : Database → Database → Type 0) (others : Database → Database) {A : Type 0}
    {f : Unit {0} → Sql A}
    → ((a : Unit {0}) → Changes R (f a))
    → Changes (λ d e. R d e ⊎ R (others d) e) (meanwhile others >>= f)
unfolding ◌>>=◌ meanwhile
Changes-meanwhile R others k = record { at = λ s. inr ((k tt).at (record s { db = others s.db })) }
