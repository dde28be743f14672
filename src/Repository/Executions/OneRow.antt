-- ===== src/Repository/Executions/OneRow.antt =====
-- An UPDATE of the row of one id.
use mathlib.Core.Path.{subst}
use chrono_flow.Common.{
  ◌==◌, ==→eq, Bool-cases, ℕ, ◌≤◌, ◌≡◌, refl, sym, ap, inl, inr, Bool, true, false, some, List, [],
  ◌∷◌, arith,
}
use chrono_flow.Model.Execution.{TimerExecution}
use chrono_flow.Database.{update_where, count_where, find_where, Database, Session}
use chrono_flow.Repository.Invariant.{Below}
use chrono_flow.Repository.Executions.{update_executions}

-- The row of an id in a table whose ids are distinct.
pub record Row (id : ℕ) (e : TimerExecution) (db : Database) : Type 0 where
  pub below : Below db.next_execution_id db.executions
  pub here : find_where (λ r. r.id == id) db.executions ≡ some e

-- A session without faults.
abbrev pub quiet : Database → Session
quiet db = record { db = db; faults = [] }

pub row_id :
    (id : ℕ) (es : List TimerExecution) {e : TimerExecution}
    → find_where (λ r. r.id == id) es ≡ some e
    → (e.id == id) ≡ true
unfolding find_where
row_id id [] h = cc
row_id id (r ∷ es) {e} h = elim (Bool-cases (r.id == id)) [
  | inl t ↦ let it = rw t at h in cc
  | inr t ↦ row_id id es {e = e} (rw t at h)
]

module _ (id : ℕ) (p : TimerExecution → Bool) (f : TimerExecution → TimerExecution)
    (only : (r : TimerExecution) → (r.id == id) ≡ false → p r ≡ false)
    (same : (r : TimerExecution) → (f r).id ≡ r.id) where
  none_counted : (n : ℕ) (es : List TimerExecution) → Below n es → n ≤ id → count_where p es ≡ 0
  unfolding count_where
  none_counted n [] b le = refl
  none_counted n (r ∷ es) b le =
      let t : (r.id == id) ≡ false = ground (arith, b.0) in
      rw (only r t) (omega (arith, none_counted r.id es b.1 (omega (arith, b.0))))

  below_updated : (n : ℕ) (es : List TimerExecution) → Below n es → Below n (update_where p f es)
  unfolding update_where
  below_updated n [] b = tt
  below_updated n (r ∷ es) b = elim (Bool-cases (p r)) [
    | inl t ↦ rw (t, same r) (b.0, below_updated r.id es b.1)
    | inr t ↦ rw t (b.0, below_updated r.id es b.1)
  ]

  one_counted :
      (n : ℕ) (es : List TimerExecution) {e : TimerExecution}
      → Below n es
      → find_where (λ r. r.id == id) es ≡ some e
      → p e ≡ true
      → (count_where p es ≡ 1) × (find_where (λ r. r.id == id) (update_where p f es) ≡ some (f e))
  unfolding count_where find_where update_where
  one_counted n [] b found c = cc
  one_counted n (r ∷ es) {e} b found c = elim (Bool-cases (r.id == id)) [
    | inl t ↦
        let it : r ≡ e = some_injective (rw t at found) in
        let rest = none_counted r.id es b.1 (omega (arith, ==→eq r.id id t)) in
        let now : p r ≡ true = subst (λ x. p x ≡ true) (sym it) c in
        let kept : ((f r).id == id) ≡ true = rw (same r) t in
        rw (now, kept) (omega (arith, rest), ap (λ x. some (f x)) it)
    | inr t ↦
        let later = one_counted r.id es {e = e} b.1 (rw t at found) c in
        rw (only r t, t) (omega (arith, later.0), later.1)
  ]
    where
      some_injective : {a b : TimerExecution} → some a ≡ some b → a ≡ b
      some_injective h = cc

  -- The statement counts the one row and changes it.
  pub update-Row :
      {e : TimerExecution} {db : Database}
      → Row id e db
      → p e ≡ true
      → ((update_executions p f db).0 ≡ 1) × Row id (f e) (update_executions p f db).1
  unfolding update_executions
  update-Row {e} {db} row c =
      let it = one_counted db.next_execution_id db.executions {e = e} row.below row.here c in
      (it.0, record { below = below_updated _ _ row.below; here = it.1 })
