-- ===== src/Database/Settles.antt =====
-- Calls that have an effect or none: after an error the tables are as they were.
use chrono_flow.Common.{String, ◌≡◌, refl, ap, ◌∙◌, inl, inr, Bool, true, false, Option, none, some}
use chrono_flow.Effect.{
  ◌>>=◌, pure, raise, wrap_error, or_raise, require, run, Error, Result, ok, err,
}
use chrono_flow.Effect.Yields.{Yields-pure, Yields-raise, Yields-bind, Yields-wrap_error, Yields}
use chrono_flow.Database.Sessions.{Sql, statement, query, meanwhile, Database, Session}
use chrono_flow.Database.SessionLaws.{statement_cases}

-- A call either succeeds, and `Q` holds then, or leaves the tables as they were.
abbrev pub Outcome : {A : Type 0} → Database → (A → Database → Type 0) → Result A → Session → Type 0
Outcome d Q (ok a) s = Q a s.db
Outcome d Q (err e) s = s.db ≡ d

pub record Settles {A : Type 0} (d : Database) (m : Sql A) (Q : A → Database → Type 0)
    : Type 0 where
  pub ends : Yields (λ s. s.db ≡ d) m (Outcome d Q)

-- A call that changes nothing, and of whose result `R` is known.
abbrev pub Finds : {A : Type 0} → Database → Sql A → (A → Type 0) → Type 0
Finds d m R = Settles d m (λ a e. (e ≡ d) × R a)

module _ {d : Database} where
  pub Settles-after :
      {A B : Type 0} {m : Sql A} {f : A → Sql B} (R : A → Type 0) {Q : B → Database → Type 0}
      → Finds d m R
      → ((a : A) → R a → Settles d (f a) Q)
      → Settles d (m >>= f) Q
  Settles-after R h k = record {
    ends =
        Yields-bind (Outcome d (λ a e. (e ≡ d) × R a)) h.ends (λ e s q. q)
          λ a. record { at = λ s q. (k a q.1).ends.at s q.0 };
  }

  pub Settles-wrap_error :
      {A : Type 0} (text : String) {m : Sql A} {Q : A → Database → Type 0}
      → Settles d m Q
      → Settles d (wrap_error text m) Q
  Settles-wrap_error text h = record { ends = Yields-wrap_error text h.ends (λ e s q. q) }

  pub Finds-pure : {A : Type 0} (a : A) (R : A → Type 0) → R a → Finds d (pure a) R
  Finds-pure a R r = record { ends = Yields-pure a (λ s p. (p, r)) }

  pub Settles-raise : {A : Type 0} (e : Error) (Q : A → Database → Type 0) → Settles d (raise e) Q
  Settles-raise e Q = record { ends = Yields-raise e (λ s p. p) }

  pub Finds-require : (b : Bool) (e : Error) → Finds d (require b e) (λ u. Unit {0})
  unfolding require
  Finds-require true e = Finds-pure tt _ tt
  Finds-require false e = Settles-raise e _

  pub Finds-or_raise :
      {A : Type 0} (R : A → Type 0) (o : Option A) (e : Error)
      → ((a : A) → o ≡ some a → R a)
      → Finds d (or_raise o e) R
  unfolding or_raise
  Finds-or_raise R none e k = Settles-raise e _
  Finds-or_raise R (some a) e k = Finds-pure a R (k a refl)

  pub Finds-query : {A : Type 0} (read : Database → A) → Finds d (query read) (λ a. a ≡ read d)
  unfolding query
  Finds-query read = record {
    ends = record {
      at = λ s p. elim (statement_cases (λ db. (read db, db)) s) [
        | inl c ↦ rw c.0 (c.1 ∙ p)
        | inr c ↦ rw c.0 (c.1 ∙ p, ap read p)
      ];
    };
  }

  pub Finds-meanwhile : Finds d (meanwhile (λ db. db)) (λ u. Unit {0})
  unfolding meanwhile
  Finds-meanwhile = record { ends = record { at = λ s p. (p, tt) } }

  pub Settles-statement :
      {A : Type 0} {Q : A → Database → Type 0} (run : Database → A × Database)
      → Q (run d).0 (run d).1
      → Settles d (statement run) Q
  Settles-statement run h = record {
    ends = record {
      at = λ s p. elim (statement_cases run s) [
        | inl c ↦ rw c.0 (c.1 ∙ p)
        | inr c ↦ rw (c.0, c.1, p) h
      ];
    };
  }
