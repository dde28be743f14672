-- ===== src/Database/Rows.antt =====
-- What the SQL of internal/repository uses of a table: UPDATE … WHERE with its RowsAffected, SELECT
-- … WHERE with ORDER BY and LIMIT, COUNT, and DELETE … WHERE.
use chrono_flow.Common.{
  if◌then◌else◌, Bool-cases, length, take, any, keep, drop, All, ℤ, pos, negsuc, ℕ, suc, ◌+◌, ◌≡◌,
  refl, sym, ap, ◌∙◌, inl, inr, Bool, true, false, ◌||◌, Option, none, some, List, [], ◌∷◌, arith,
}

or_pull : (a b c d : Bool) → ((a || c) ≡ true → d ≡ true) → (a || (b || c)) ≡ true → (b || d) ≡ true
or_pull a true c d k h = refl
or_pull true false c d k h = k refl
or_pull false false c d k h = k h

or_mono : (a b c : Bool) → (b ≡ true → c ≡ true) → (a || b) ≡ true → (a || c) ≡ true
or_mono true b c k h = refl
or_mono false b c k h = k h

or_swap : (a b c d : Bool) → (c ≡ true → (a || d) ≡ true) → (b || c) ≡ true → (a || (b || d)) ≡ true
or_swap true b c d k h = refl
or_swap false true c d k h = refl
or_swap false false c d k h = k h

module _ {A : Type 0} where
  unfoldable pub update_where : (A → Bool) → (A → A) → List A → List A
  update_where p f [] = []
  update_where p f (x ∷ xs) = (if p x then f x else x) ∷ update_where p f xs

  unfoldable pub count_where : (A → Bool) → List A → ℕ
  count_where p [] = 0
  count_where p (x ∷ xs) = (if p x then 1 else 0) + count_where p xs

  unfoldable pub find_where : (A → Bool) → List A → Option A
  find_where p [] = none
  find_where p (x ∷ xs) = if p x then some x else find_where p xs

  insert_by : (A → A → Bool) → A → List A → List A
  insert_by le x [] = x ∷ []
  insert_by le x (y ∷ ys) = if le x y then x ∷ y ∷ ys else y ∷ insert_by le x ys

  unfoldable pub order_by : (A → A → Bool) → List A → List A
  unfolding insert_by
  order_by le [] = []
  order_by le (x ∷ xs) = insert_by le x (order_by le xs)

  -- gorm's Limit: a negative number is no limit.
  abbrev pub limit : ℤ → List A → List A
  limit (pos n) rows = take n rows
  limit (negsuc n) rows = rows

  -- gorm's Offset: only a positive number has an effect.
  abbrev pub offset : ℤ → List A → List A
  offset (pos n) rows = drop n rows
  offset (negsuc n) rows = rows

  module _ (P : A → Type 0) (le : A → A → Bool) where
    All-insert_by : (x : A) (ys : List A) → P x → All P ys → All P (insert_by le x ys)
    unfolding insert_by
    All-insert_by x [] hx hs = (hx, tt)
    All-insert_by x (y ∷ ys) hx hs = elim (Bool-cases (le x y)) [
      | inl e ↦ rw e (hx, hs)
      | inr e ↦ rw e (hs.0, All-insert_by x ys hx hs.1)
    ]

    pub All-order_by : (xs : List A) → All P xs → All P (order_by le xs)
    unfolding order_by
    All-order_by [] h = tt
    All-order_by (x ∷ xs) h = All-insert_by x (order_by le xs) h.0 (All-order_by xs h.1)

  -- ORDER BY adds no row.
  module _ (q : A → Bool) (le : A → A → Bool) where
    any-insert_by :
        (x : A) (ys : List A) → any q (insert_by le x ys) ≡ true → (q x || any q ys) ≡ true
    unfolding insert_by
    any-insert_by x [] h = h
    any-insert_by x (y ∷ ys) h = elim (Bool-cases (le x y)) [
      | inl t ↦ rw (t, insert_by) at h
      | inr t ↦
          let g : (q y || any q (insert_by le x ys)) ≡ true = rw (t, insert_by) at h in
          or_swap (q x) (q y) (any q (insert_by le x ys)) (any q ys) (any-insert_by x ys) g
    ]

    pub any-order_by : (xs : List A) → any q (order_by le xs) ≡ true → any q xs ≡ true
    unfolding order_by
    any-order_by [] h = h
    any-order_by (x ∷ xs) h = ground (arith, any-insert_by x (order_by le xs), any-order_by xs)

  -- ORDER BY loses no row.
  module _ (q : A → Bool) (le : A → A → Bool) where
    insert_by-any :
        (x : A) (ys : List A) → (q x || any q ys) ≡ true → any q (insert_by le x ys) ≡ true
    unfolding insert_by
    insert_by-any x [] h = h
    insert_by-any x (y ∷ ys) h = elim (Bool-cases (le x y)) [
      | inl t ↦ rw t h
      | inr t ↦
          rw t (or_pull (q x) (q y) (any q ys) (any q (insert_by le x ys)) (insert_by-any x ys) h)
    ]

    pub order_by-any : (xs : List A) → any q xs ≡ true → any q (order_by le xs) ≡ true
    unfolding order_by
    order_by-any [] h = h
    order_by-any (x ∷ xs) h =
        insert_by-any x (order_by le xs)
          (or_mono (q x) (any q xs) (any q (order_by le xs)) (order_by-any xs) h)

  -- Two orders that agree on the rows put them in the same order.
  abbrev pub Agree : (A → A → Bool) → (A → A → Bool) → List A → Type 0
  Agree le before [] = Unit {0}
  Agree le before (x ∷ xs) = All (λ y. le x y ≡ before x y) xs × Agree le before xs

  module _ (le before : A → A → Bool) where
    insert_by-Agree :
        (x : A) (ys : List A)
        → All (λ y. le x y ≡ before x y) ys
        → insert_by le x ys ≡ insert_by before x ys
    unfolding insert_by
    insert_by-Agree x [] h = refl
    insert_by-Agree x (y ∷ ys) h = rw (h.0, insert_by-Agree x ys h.1) refl

    pub order_by-Agree : (xs : List A) → Agree le before xs → order_by le xs ≡ order_by before xs
    unfolding order_by
    order_by-Agree [] h = refl
    order_by-Agree (x ∷ xs) h =
        rw (sym (order_by-Agree xs h.1))
          (insert_by-Agree x (order_by le xs) (All-order_by (λ y. le x y ≡ before x y) le xs h.0))

  pub count_where-keep : (p : A → Bool) (xs : List A) → length (keep p xs) ≡ count_where p xs
  unfolding count_where
  count_where-keep p [] = refl
  count_where-keep p (x ∷ xs) = elim (Bool-cases (p x)) [
    | inl t ↦ rw t (omega (arith, count_where-keep p xs))
    | inr t ↦ rw t (omega (arith, count_where-keep p xs))
  ]

  pub length-order_by : (le : A → A → Bool) (xs : List A) → length (order_by le xs) ≡ length xs
  unfolding order_by insert_by
  length-order_by le [] = refl
  length-order_by le (x ∷ xs) = length-insert_by x (order_by le xs) ∙ ap suc (length-order_by le xs)
    where
      length-insert_by : (x : A) (ys : List A) → length (insert_by le x ys) ≡ suc (length ys)
      length-insert_by x [] = refl
      length-insert_by x (y ∷ ys) = elim (Bool-cases (le x y)) [
        | inl t ↦ rw t refl
        | inr t ↦ rw t (ap suc (length-insert_by x ys))
      ]
