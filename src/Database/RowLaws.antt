-- ===== src/Database/RowLaws.antt =====
-- What the row operations keep.
use chrono_flow.Common.{
  Bool-cases, length, keep, All, All-take, ℤ, pos, negsuc, suc, ◌≡◌, refl, ap, inl, inr, Bool, true,
  some, List, [], ◌∷◌, arith,
}
use chrono_flow.Database.Rows.{update_where, count_where, find_where, limit}

module _ {A : Type 0} (P : A → Type 0) (p : A → Bool) where
  pub All-update_where :
      (f : A → A) (xs : List A)
      → ((x : A) → p x ≡ true → P x → P (f x))
      → All P xs
      → All P (update_where p f xs)
  unfolding update_where
  All-update_where f [] k h = tt
  All-update_where f (x ∷ xs) k h = elim (Bool-cases (p x)) [
    | inl e ↦ rw e (k x e h.0, All-update_where f xs k h.1)
    | inr e ↦ rw e (h.0, All-update_where f xs k h.1)
  ]

  -- The rows that a condition selects satisfy it.
  pub All-keep_lem : (xs : List A) → All P xs → All (λ x. (p x ≡ true) × P x) (keep p xs)
  All-keep_lem [] h = tt
  All-keep_lem (x ∷ xs) h = elim (Bool-cases (p x)) [
    | inl e ↦ rw e ((e, h.0), All-keep_lem xs h.1)
    | inr e ↦ rw e (All-keep_lem xs h.1)
  ]

  pub All-find_where :
      (xs : List A) {x : A} → All P xs → find_where p xs ≡ some x → (p x ≡ true) × P x
  unfolding find_where
  All-find_where [] h e = cc
  All-find_where (y ∷ ys) {x} h e = elim (Bool-cases (p y)) [
    | inl t ↦ ground arith
    | inr t ↦ All-find_where ys h.1 (ground arith)
  ]

  pub All-limit : (n : ℤ) (xs : List A) → All P xs → All P (limit n xs)
  All-limit (pos n) xs h = All-take P n xs h
  All-limit (negsuc n) xs h = h

module _ {A : Type 0} (p : A → Bool) (f : A → A) where
  -- No row affected: the table is as it was.
  pub update_where_none : (xs : List A) → count_where p xs ≡ 0 → update_where p f xs ≡ xs
  unfolding update_where count_where
  update_where_none [] h = refl
  update_where_none (x ∷ xs) h = ground (arith, update_where_none xs)

  pub length-update_where : (xs : List A) → length (update_where p f xs) ≡ length xs
  unfolding update_where
  length-update_where [] = refl
  length-update_where (x ∷ xs) = ap suc (length-update_where xs)
