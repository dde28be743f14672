-- ===== src/Effect/Keeps.antt =====
-- Actions that keep an invariant of the state, whether they succeed or fail.
use chrono_flow.Common.{if◌then◌else◌, String, Bool, true, false, Option, none, some, List, [], ◌∷◌}
use chrono_flow.Effect.Defs.{
  Action, continue, ◌>>=◌, pure, raise, wrap_error, try, or_raise, require, for_each, Error, wrap,
  Result, ok, err,
}

pub record Keeps {S A : Type 0} (P : S → Type 0) (m : Action S A) : Type 0 where
  pub at : (s : S) → P s → P (m s).1

module _ {S : Type 0} {P : S → Type 0} where
  pub Keeps-pure : {A : Type 0} (a : A) → Keeps P (pure {S = S} a)
  unfolding pure
  Keeps-pure a = record { at = λ s h. h }

  pub Keeps-raise : {A : Type 0} (e : Error) → Keeps P (raise {S = S} {A = A} e)
  unfolding raise
  Keeps-raise e = record { at = λ s h. h }

  bind_result :
      {A B : Type 0} (r : Result A × S) (f : A → Action S B)
      → ((a : A) → Keeps P (f a))
      → P r.1
      → P (continue r f (λ e s'. (err e, s'))).1
  bind_result (ok a, s) f k h = (k a).at s h
  bind_result (err e, s) f k h = h

  pub Keeps-bind :
      {A B : Type 0} {m : Action S A} {f : A → Action S B}
      → Keeps P m
      → ((a : A) → Keeps P (f a))
      → Keeps P (m >>= f)
  unfolding ◌>>=◌
  Keeps-bind {m = m} {f = f} h k = record { at = λ s p. bind_result (m s) f k (h.at s p) }

  pub Keeps-wrap_error :
      {A : Type 0} (text : String) {m : Action S A} → Keeps P m → Keeps P (wrap_error text m)
  unfolding wrap_error
  Keeps-wrap_error {A} text {m = m} h = record { at = λ s p. go (m s) (h.at s p) }
    where
      go :
          (r : Result A × S)
          → P r.1
          → P
              (continue {C = Result A × S} r
                (λ a s'. (ok a, s'))
                (λ e s'. (err (wrap text e), s'))).1
      go (ok a, s) h = h
      go (err e, s) h = h

  pub Keeps-try : {A : Type 0} {m : Action S A} → Keeps P m → Keeps P (try m)
  unfolding try
  Keeps-try {A} {m = m} h = record { at = λ s p. go (m s) (h.at s p) }
    where
      go :
          (r : Result A × S)
          → P r.1
          → P
              (continue {C = Result (Result A) × S} r
                (λ a s'. (ok (ok a), s'))
                (λ e s'. (ok (err e), s'))).1
      go (ok a, s) h = h
      go (err e, s) h = h

  pub Keeps-or_raise : {A : Type 0} (o : Option A) (e : Error) → Keeps P (or_raise {S = S} o e)
  unfolding or_raise
  Keeps-or_raise none e = Keeps-raise e
  Keeps-or_raise (some a) e = Keeps-pure a

  pub Keeps-require : (b : Bool) (e : Error) → Keeps P (require {S = S} b e)
  unfolding require
  Keeps-require true e = Keeps-pure tt
  Keeps-require false e = Keeps-raise e

  pub Keeps-if :
      {A : Type 0} (b : Bool) {m n : Action S A}
      → Keeps P m
      → Keeps P n
      → Keeps P (if b then m else n)
  Keeps-if true h k = h
  Keeps-if false h k = k

  pub Keeps-for_each :
      {A B : Type 0} {body : B → A → Action S B}
      → ((b : B) (a : A) → Keeps P (body b a))
      → (b : B) (xs : List A) → Keeps P (for_each body b xs)
  unfolding for_each
  Keeps-for_each h b [] = Keeps-pure b
  Keeps-for_each h b (x ∷ xs) = Keeps-bind (h b x) (λ b'. Keeps-for_each h b' xs)

pub ruleset keeps_rules = (
  Keeps-pure, Keeps-raise, Keeps-bind, Keeps-wrap_error, Keeps-try, Keeps-or_raise, Keeps-require,
  Keeps-if, Keeps-for_each,
)
