-- ===== src/Repository/Executions/Takeover.antt =====
-- A claim of an execution that another worker held: run_token in
-- internal/repository/timer_execution_repo.go.
use mathlib.Core.Path.{subst}
use chrono_flow.Common.{
  ◌==◌, ==→eq, Bool-cases, ℕ, ◌+◌, ◌≤◌, ◌<◌, String, ◌≡◌, sym, ◌≢◌, inl, inr, true, Option, none,
  some, List, [], ◌∷◌, arith,
}
use chrono_flow.Effect.{ok}
use chrono_flow.Model.Timer.{Time}
use chrono_flow.Model.Execution.{TimerExecution}
use chrono_flow.Database.{update_where, count_where, Session}
use chrono_flow.Database.RowLaws.{update_where_none}
use chrono_flow.Repository.Invariant.{Below}
use chrono_flow.Repository.Executions.Stale.{Revoked}
use chrono_flow.Repository.Executions.{can_claim, claimed, found_and, claim}
use chrono_flow.Repository.Executions.Fencing.{won, claim_cases}

pub claimable-Below :
    (id n : ℕ) (now : Time) (es : List TimerExecution)
    → Below n es
    → 0 < count_where (can_claim id now) es
    → id < n
unfolding count_where can_claim
claimable-Below id n now [] b c = absurd (omega arith)
claimable-Below id n now (e ∷ es) b c = elim (Bool-cases (e.id == id)) [
  | inl t ↦ omega (arith, ==→eq e.id id t, b.0)
  | inr f ↦
      let rest : 0 < 0 + count_where (can_claim id now) es = rw f at c in
      omega (arith, claimable-Below id e.id now es b.1 (omega arith), b.0)
]

-- No row of the table has an id that is not below the bound.
Revoked-above :
    (id n : ℕ) (run_token : String) (es : List TimerExecution)
    → Below n es
    → n ≤ id
    → Revoked id run_token es
Revoked-above id n run_token [] b le = tt
Revoked-above id n run_token (e ∷ es) b le =
    (λ same. absurd (omega arith), Revoked-above id e.id run_token es b.1 (omega arith))

target_id : (id : ℕ) (now : Time) (e : TimerExecution) → can_claim id now e ≡ true → e.id ≤ id
unfolding can_claim
target_id id now e t = ground arith

module _ (id : ℕ) (owner winner : String) (now lease_until : Time) (run_token : String)
    (fresh : winner ≢ run_token) where
  claimed-Revoked :
      (n : ℕ) (es : List TimerExecution)
      → Below n es
      → count_where (can_claim id now) es ≡ 1
      → Revoked id run_token
          (update_where (can_claim id now) (claimed owner winner now lease_until) es)
  unfolding count_where update_where claimed
  claimed-Revoked n [] b c = tt
  claimed-Revoked n (e ∷ es) b c = elim (Bool-cases (can_claim id now e)) [
    | inl t ↦
        let count : 1 + count_where (can_claim id now) es ≡ 1 = rw t at c in
        rw
          (
            t,
            update_where_none (can_claim id now) (claimed owner winner now lease_until) es
                (omega arith),
          )
          ((λ _. fresh), Revoked-above id e.id run_token es b.1 (target_id id now e t))
    | inr f ↦
        let count : 0 + count_where (can_claim id now) es ≡ 1 = rw f at c in
        rw f (
          (λ same. absurd (omega (arith, claimable-Below id e.id now es b.1 (omega arith)))),
          claimed-Revoked e.id es b.1 (omega arith),
        )
  ]

won_count : (o : Option TimerExecution) (n : ℕ) → won (ok (found_and o (n == 1))) ≡ true → n ≡ 1
won_count none n h = cc
won_count (some e) n h = ground arith

-- Once a claim by another worker has won with a token of its own, and until other sessions commit,
-- the old token of the execution is revoked: no row of the execution carries it.
pub takeover_revokes :
    (id : ℕ) (owner winner : String) (now : Time) (ttl : ℕ) (run_token : String) (s : Session)
    → Below s.db.next_execution_id s.db.executions
    → winner ≢ run_token
    → won (claim (λ db. db) id owner winner now ttl s).0 ≡ true
    → Revoked id run_token (claim (λ db. db) id owner winner now ttl s).1.db.executions
takeover_revokes id owner winner now ttl run_token s below fresh w =
    elim (claim_cases (λ db. db) id owner winner now ttl s) [
      | inl c ↦ cc
      | inr (inl r, d) ↦
          subst (λ db. Revoked id run_token db.executions) (sym d)
            (claimed-Revoked id owner winner now (now + ttl) run_token fresh s.db.next_execution_id
              s.db.executions below (won_count _ _ (rw r at w)))
      | inr (inr r, d) ↦ cc
    ]
