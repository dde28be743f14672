-- ===== src/Effect/Defs.antt =====
-- `error` values, `if err != nil` chains and the loops of batches.
use chrono_flow.Common.{
  String, ◌≡◌, refl, ◌⊎◌, inl, inr, Bool, true, false, Option, none, some, List, [], ◌∷◌,
}

-- fmt.Errorf: the text of its format, with the values printed into it left out, and the error that
-- `%w` wraps.
pub data Error : Type 0 where
  database : Error
  message : String → Error
  wrap : String → Error → Error

pub data Result (A : Type 0) : Type 0 where
  ok : A → Result A
  err : Error → Result A

pub Result-cases :
    {A : Type 0} (r : Result A) → ((a : A) × (r ≡ ok a)) ⊎ ((e : Error) × (r ≡ err e))
Result-cases (ok a) = inl (a, refl)
Result-cases (err e) = inr (e, refl)

abbrev pub Action : Type 0 → Type 0 → Type 0
Action S A = S → Result A × S

abbrev pub continue {ℓ} :
    {S : Type 0} {A : Type 0} {C : Type ℓ} → Result A × S → (A → S → C) → (Error → S → C) → C
continue (ok a, s) f g = f a s
continue (err e, s) f g = g e s

infixl 5 ◌>>=◌ ◌>>◌
unfoldable pub ◌>>=◌ : {S A B : Type 0} → Action S A → (A → Action S B) → Action S B
◌>>=◌ m f s = continue (m s) f (λ e s'. (err e, s'))

abbrev pub ◌>>◌ : {S A B : Type 0} → Action S A → Action S B → Action S B
◌>>◌ m k = m >>= λ _. k

module _ {S : Type 0} where
  unfoldable pub pure : {A : Type 0} → A → Action S A
  pure a s = (ok a, s)

  unfoldable pub raise : {A : Type 0} → Error → Action S A
  raise e s = (err e, s)

  -- `if err != nil { return fmt.Errorf("…: %w", err) }`
  unfoldable pub wrap_error : {A : Type 0} → String → Action S A → Action S A
  wrap_error text m s = continue (m s) (λ a s'. (ok a, s')) (λ e s'. (err (wrap text e), s'))

  -- A call whose error the caller looks at.
  unfoldable pub try : {A : Type 0} → Action S A → Action S (Result A)
  try m s = continue (m s) (λ a s'. (ok (ok a), s')) (λ e s'. (ok (err e), s'))

  unfoldable pub or_raise : {A : Type 0} → Option A → Error → Action S A
  or_raise none e = raise e
  or_raise (some a) e = pure a

  -- `if !condition { return err }`
  unfoldable pub require : Bool → Error → Action S (Unit {0})
  require true e = pure tt
  require false e = raise e

  -- `for _, x := range xs` over what the loop has counted so far.
  unfoldable pub for_each : {A B : Type 0} → (B → A → Action S B) → B → List A → Action S B
  for_each body b [] = pure b
  for_each body b (x ∷ xs) = do b' ← body b x; for_each body b' xs

  -- To unfold this is to unfold all of the above but the loop.
  unfoldable pub run : {A : Type 0} → Action S A → S → Result A × S
  unfolding ◌>>=◌ pure raise wrap_error try or_raise require
  run m s = m s
