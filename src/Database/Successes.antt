-- ===== src/Database/Successes.antt =====
-- Properties of the database that an action may break on the way to an error, but not otherwise.
use chrono_flow.Common.{String, inl, inr, Bool, true, false, Option, none, some, List, [], ◌∷◌}
use chrono_flow.Effect.{◌>>=◌, pure, raise, wrap_error, or_raise, require, for_each, run, Error}
use chrono_flow.Effect.Yields.{Yields-pure, Yields-raise, Yields-bind, Yields-wrap_error, Yields}
use chrono_flow.Database.Sessions.{Sql, statement, query, transaction, Database}
use chrono_flow.Database.SessionLaws.{statement_cases}
use chrono_flow.Database.Outcomes.{OnSuccess, Yields-transaction}

pub record Ensures {A : Type 0} (P Q : Database → Type 0) (m : Sql A) : Type 0 where
  pub ends : Yields (λ s. P s.db) m (OnSuccess (λ a. Q))

module _ {P : Database → Type 0} where
  pub Ensures-pure : {A : Type 0} (a : A) → Ensures P P (pure a)
  Ensures-pure a = record { ends = Yields-pure a (λ s q. q) }

  pub Ensures-raise :
      {A : Type 0} {Q : Database → Type 0} (e : Error) → Ensures P Q (raise {A = A} e)
  Ensures-raise e = record { ends = Yields-raise e (λ s q. tt) }

  pub Ensures-bind :
      {A B : Type 0} {m : Sql A} {f : A → Sql B} (Q : Database → Type 0) {R : Database → Type 0}
      → Ensures P Q m
      → ((a : A) → Ensures Q R (f a))
      → Ensures P R (m >>= f)
  Ensures-bind Q h k = record {
    ends = Yields-bind (OnSuccess (λ a. Q)) h.ends (λ e s q. tt) (λ a. (k a).ends);
  }

  pub Ensures-wrap_error :
      {A : Type 0} {Q : Database → Type 0} (text : String) {m : Sql A}
      → Ensures P Q m
      → Ensures P Q (wrap_error text m)
  Ensures-wrap_error text h = record { ends = Yields-wrap_error text h.ends (λ e s q. tt) }

  pub Ensures-or_raise : {A : Type 0} (o : Option A) (e : Error) → Ensures P P (or_raise o e)
  unfolding or_raise
  Ensures-or_raise none e = Ensures-raise e
  Ensures-or_raise (some a) e = Ensures-pure a

  pub Ensures-require : (b : Bool) (e : Error) → Ensures P P (require b e)
  unfolding require
  Ensures-require true e = Ensures-pure tt
  Ensures-require false e = Ensures-raise e

  pub Ensures-statement :
      {A : Type 0} (Q : Database → Type 0) (run : Database → A × Database)
      → ((db : Database) → P db → Q (run db).1)
      → Ensures P Q (statement run)
  Ensures-statement Q run k = record {
    ends = record {
      at = λ s h. elim (statement_cases run s) [
        | inl c ↦ rw c.0 tt
        | inr c ↦ rw (c.0, c.1) (k s.db h)
      ];
    };
  }

  pub Ensures-query : {A : Type 0} (read : Database → A) → Ensures P P (query read)
  unfolding query
  Ensures-query read = Ensures-statement P (λ db. (read db, db)) (λ db h. h)

  pub Ensures-for_each :
      {A B : Type 0} {body : B → A → Sql B}
      → ((b : B) (a : A) → Ensures P P (body b a))
      → (b : B) (xs : List A) → Ensures P P (for_each body b xs)
  unfolding for_each
  Ensures-for_each h b [] = Ensures-pure b
  Ensures-for_each h b (x ∷ xs) = Ensures-bind P (h b x) (λ b'. Ensures-for_each h b' xs)

  pub Ensures-transaction :
      {A : Type 0} {body : Sql A} (Q : Database → Type 0)
      → Ensures P Q body
      → Ensures P Q (transaction body)
  Ensures-transaction Q h = record { ends = Yields-transaction (λ a. Q) h.ends }
