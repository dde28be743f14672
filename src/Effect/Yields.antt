-- ===== src/Effect/Yields.antt =====
-- What an action ends in, as a relation of its result and the state.
use chrono_flow.Common.{String}
use chrono_flow.Effect.Defs.{
  Action, continue, ◌>>=◌, pure, raise, wrap_error, try, Error, wrap, Result, ok, err,
}
use chrono_flow.Effect.Keeps.{Keeps}

pub record Yields {S A : Type 0} (P : S → Type 0) (m : Action S A) (Q : Result A → S → Type 0)
    : Type 0 where
  pub at : (s : S) → P s → Q (m s).0 (m s).1

module _ {S : Type 0} {P : S → Type 0} where
  pub Yields-pure :
      {A : Type 0} {Q : Result A → S → Type 0} (a : A)
      → ((s : S) → P s → Q (ok a) s)
      → Yields P (pure a) Q
  unfolding pure
  Yields-pure a k = record { at = k }

  pub Yields-raise :
      {A : Type 0} {Q : Result A → S → Type 0} (e : Error)
      → ((s : S) → P s → Q (err e) s)
      → Yields P (raise e) Q
  unfolding raise
  Yields-raise e k = record { at = k }

  pub Yields-keeps : {A : Type 0} {m : Action S A} → Keeps P m → Yields P m (λ r s. P s)
  Yields-keeps h = record { at = λ s p. h.at s p }

  pub Yields-bind :
      {A B : Type 0} {m : Action S A} {f : A → Action S B} (Q : Result A → S → Type 0)
      {R : Result B → S → Type 0}
      → Yields P m Q
      → ((e : Error) (s : S) → Q (err e) s → R (err e) s)
      → ((a : A) → Yields (Q (ok a)) (f a) R)
      → Yields P (m >>= f) R
  unfolding ◌>>=◌
  Yields-bind {A} {B} {m = m} {f = f} Q {R} h x k = record { at = λ s p. go (m s) (h.at s p) }
    where
      go :
          (r : Result A × S)
          → Q r.0 r.1
          → R
              (continue {C = Result B × S} r f (λ e s'. (err e, s'))).0
              (continue {C = Result B × S} r f (λ e s'. (err e, s'))).1
      go (ok a, s) q = (k a).at s q
      go (err e, s) q = x e s q

  pub Yields-wrap_error :
      {A : Type 0} {m : Action S A} {Q : Result A → S → Type 0} (text : String)
      → Yields P m Q
      → ((e : Error) (s : S) → Q (err e) s → Q (err (wrap text e)) s)
      → Yields P (wrap_error text m) Q
  unfolding wrap_error
  Yields-wrap_error {A} {m = m} {Q} text h x = record { at = λ s p. go (m s) (h.at s p) }
    where
      go :
          (r : Result A × S)
          → Q r.0 r.1
          → Q
              (continue {C = Result A × S} r
                (λ a s'. (ok a, s'))
                (λ e s'. (err (wrap text e), s'))).0
              (continue {C = Result A × S} r
                (λ a s'. (ok a, s'))
                (λ e s'. (err (wrap text e), s'))).1
      go (ok a, s) q = q
      go (err e, s) q = x e s q

  pub Yields-try :
      {A : Type 0} {m : Action S A} {Q : Result A → S → Type 0} {R : Result (Result A) → S → Type 0}
      → Yields P m Q
      → ((r : Result A) (s : S) → Q r s → R (ok r) s)
      → Yields P (try m) R
  unfolding try
  Yields-try {A} {m = m} {Q} {R} h x = record { at = λ s p. go (m s) (h.at s p) }
    where
      go :
          (r : Result A × S)
          → Q r.0 r.1
          → R
              (continue {C = Result (Result A) × S} r
                (λ a s'. (ok (ok a), s'))
                (λ e s'. (ok (err e), s'))).0
              (continue {C = Result (Result A) × S} r
                (λ a s'. (ok (ok a), s'))
                (λ e s'. (ok (err e), s'))).1
      go (ok a, s) q = x (ok a) s q
      go (err e, s) q = x (err e) s q

pub Yields-when :
    {S A : Type 0} {P : S → Type 0} {m : Action S A} {Q : Result A → S → Type 0} (P' : S → Type 0)
    → ((s : S) → P s → P' s)
    → Yields P' m Q
    → Yields P m Q
Yields-when P' k h = record { at = λ s p. h.at s (k s p) }
