-- ===== src/Repository/Executions/Fencing.antt =====
-- Who may write to an execution: the lease and the run token of
-- internal/repository/timer_execution_repo.go.
use chrono_flow.Common.{
  ◌==◌, is_before, ==→eq, Bool-cases, All, ℕ, ◌+◌, String, ◌≡◌, refl, ap, ◌∙◌, ◌⊎◌, inl, inr, Bool,
  true, false, Option, none, some, List, [], ◌∷◌, arith,
}
use chrono_flow.Model.Timer.{Time}
use chrono_flow.Model.Execution.{is_running, is_terminal, TimerExecution}
use chrono_flow.Database.{update_where, count_where, find_where, run_sql, Database, Session}
use chrono_flow.Repository.Executions.{
  update_executions, is_claimable, can_claim, claimed, found_and, claim,
}
use chrono_flow.Effect.{Result, ok, err}
use chrono_flow.Database.RowLaws.{update_where_none}

-- Nobody can claim an execution whose lease runs to `now` or longer, or that has ended.
abbrev pub IsProtected : Time → TimerExecution → Type 0
IsProtected now e =
    ((is_running e.status ≡ true) × (is_before e.lease_until now ≡ false)) ⊎ (is_terminal e ≡ true)

protected-is_claimable :
    (now : Time) (e : TimerExecution) → IsProtected now e → is_claimable now e ≡ false
unfolding is_claimable
protected-is_claimable now e h = ground arith

-- The rows of one id, all protected.
abbrev pub Guarded : ℕ → Time → Database → Type 0
Guarded id now db = All (λ e. e.id ≡ id → IsProtected now e) db.executions

count-protected :
    (id : ℕ) (now : Time) (es : List TimerExecution)
    → All (λ e. e.id ≡ id → IsProtected now e) es
    → count_where (can_claim id now) es ≡ 0
unfolding count_where can_claim
count-protected id now [] h = refl
count-protected id now (e ∷ es) h = elim (Bool-cases (e.id == id)) [
  | inl t ↦
      rw (t, protected-is_claimable now e (h.0 (==→eq _ _ t)))
        (omega (arith, count-protected id now es h.1))
  | inr f ↦ rw f (omega (arith, count-protected id now es h.1))
]

abbrev pub won : Result (Option TimerExecution × Bool) → Bool
won (ok (e, b)) = b
won (err e) = false

module _ (others : Database → Database) (id : ℕ) (owner run_token : String) (now : Time)
    (ttl : ℕ) where
  abbrev pub after_update : Database → Database
  after_update db = record db {
    executions =
        update_where (can_claim id now) (claimed owner run_token now (now + ttl)) db.executions;
  }

  -- What the SELECT answers.
  abbrev pub answer : Database → Option TimerExecution × Bool
  answer db =
      found_and (find_where (λ e. e.id == id) (others (after_update db)).executions)
        (count_where (can_claim id now) db.executions == 1)

  -- Either the UPDATE fails, or it takes effect, and then the SELECT answers or fails.
  pub claim_cases :
      (s : Session)
      → (won (claim others id owner run_token now ttl s).0 ≡ false)
          × ((claim others id owner run_token now ttl s).1.db ≡ s.db)
        ⊎ (((claim others id owner run_token now ttl s).0 ≡ ok (answer s.db))
            ⊎ (won (claim others id owner run_token now ttl s).0 ≡ false))
          × ((claim others id owner run_token now ttl s).1.db ≡ others (after_update s.db))
  unfolding claim run_sql update_executions
  claim_cases s = go s.db s.faults
    where
      go :
          (db : Database) (fs : List Bool)
          → let r = claim others id owner run_token now ttl (record { db = db; faults = fs }) in
            (won r.0 ≡ false) × (r.1.db ≡ db)
            ⊎ ((r.0 ≡ ok (answer db)) ⊎ (won r.0 ≡ false)) × (r.1.db ≡ others (after_update db))
      go db [] = inr (inl refl, refl)
      go db (true ∷ fs) = inl (refl, refl)
      go db (false ∷ []) = inr (inl refl, refl)
      go db (false ∷ true ∷ fs) = inr (inr refl, refl)
      go db (false ∷ false ∷ fs) = inr (inl refl, refl)

  lost : (o : Option TimerExecution) (n : ℕ) → n ≡ 0 → won (ok (found_and o (n == 1))) ≡ false
  lost none n h = refl
  lost (some e) n h = ground arith

  -- A claim of an execution that has ended, or whose lease has not run out, never wins, and leaves
  -- the tables to the other sessions, whichever of its statements fails.
  pub claim_protected :
      (s : Session)
      → Guarded id now s.db
      → (won (claim others id owner run_token now ttl s).0 ≡ false)
        × (((claim others id owner run_token now ttl s).1.db ≡ s.db)
            ⊎ ((claim others id owner run_token now ttl s).1.db ≡ others s.db))
  claim_protected s g = elim (claim_cases s) [
    | inl c ↦ (c.0, inl c.1)
    | inr (inl r, d) ↦ (rw r (lost _ _ none_left), inr (d ∙ ap others untouched))
    | inr (inr r, d) ↦ (r, inr (d ∙ ap others untouched))
  ]
    where
      none_left : count_where (can_claim id now) s.db.executions ≡ 0
      none_left = count-protected id now s.db.executions g

      untouched : after_update s.db ≡ s.db
      untouched = rw (update_where_none _ _ s.db.executions none_left) refl
