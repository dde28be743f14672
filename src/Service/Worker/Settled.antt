-- ===== src/Service/Worker/Settled.antt =====
-- The rows that leave a message nothing to do, and the statements that make them
-- (internal/repository/timer_execution_repo.go).
use chrono_flow.Common.{
  ◌==◌, ==→eq, Bool-cases, any, ℕ, ◌+◌, ◌<◌, ◌≡◌, refl, sym, ◌∙◌, inl, inr, Bool, true, Option,
  none, some, List, [], ◌∷◌, arith,
}
use chrono_flow.Effect.{Result, ok}
use chrono_flow.Effect.Keeps.{Keeps-bind, Keeps}
use chrono_flow.Effect.Yields.{Yields}
use chrono_flow.Model.Execution.{TimerExecution}
use chrono_flow.Model.Outbox.{event_id_eq, OutboxEvent}
use chrono_flow.Database.{update_where, count_where, find_where, statement, Database}
use chrono_flow.Database.SessionLaws.{statement_cases, Keeps-statement, On}
use chrono_flow.Repository.Executions.{update_executions}
use chrono_flow.Repository.Events.{insert_event, create_event}
use chrono_flow.Repository.Invariant.{Below, from_result-Keeps, Invariant}
use chrono_flow.Service.Worker.{is_settled}
use mathlib.Core.Path.{subst}

abbrev pub row_settled : Option TimerExecution → Bool
row_settled none = true
row_settled (some e) = is_settled e

abbrev pub row_of : ℕ → List TimerExecution → Option TimerExecution
row_of id es = find_where (λ e. e.id == id) es

-- The table has no row of this id, or that row has ended or waits for its retry.
abbrev pub Settled : ℕ → Database → Type 0
Settled id db = row_settled (row_of id db.executions) ≡ true

eq→== : (a b : ℕ) → a ≡ b → (a == b) ≡ true
eq→== a b h = ground arith

module _ (id : ℕ) (p : TimerExecution → Bool)
    (target : (e : TimerExecution) → p e ≡ true → e.id ≡ id) where
  target-Below : (n : ℕ) (es : List TimerExecution) → Below n es → 0 < count_where p es → id < n
  unfolding count_where
  target-Below n [] b c = absurd (omega arith)
  target-Below n (e ∷ es) b c = elim (Bool-cases (p e)) [
    | inl t ↦ omega (arith, target e t, b.0)
    | inr t ↦
        let rest : 0 < 0 + count_where p es = rw t at c in
        omega (arith, target-Below e.id es b.1 (omega arith), b.0)
  ]

  module _ (f : TimerExecution → TimerExecution) (same : (e : TimerExecution) → (f e).id ≡ e.id)
      (settles : (e : TimerExecution) → is_settled (f e) ≡ true) where
    hit : (e : TimerExecution) → p e ≡ true → ((f e).id == id) ≡ true
    hit e t = eq→== (f e).id id (same e ∙ target e t)

    settled-update_where :
        (n : ℕ) (es : List TimerExecution)
        → Below n es
        → count_where p es ≡ 1
        → row_settled (row_of id (update_where p f es)) ≡ true
    unfolding count_where update_where find_where
    settled-update_where n [] b c = refl
    settled-update_where n (e ∷ es) b c = elim (Bool-cases (p e)) [
      | inl t ↦ rw (t, hit e t) (settles e)
      | inr t ↦
          let count : 0 + count_where p es ≡ 1 = rw t at c in
          elim (Bool-cases (e.id == id)) [
            | inl u ↦
                absurd (omega (arith, ==→eq e.id id u, target-Below e.id es b.1 (omega arith)))
            | inr u ↦ rw (t, u) (settled-update_where e.id es b.1 (omega arith))
          ]
    ]

    -- Affecting one row has settled it.
    pub update_executions-settles :
        Yields
          (On Invariant)
          (statement (update_executions p f))
          (λ r s. r ≡ ok 1 → Settled id s.db)
    unfolding update_executions
    update_executions-settles = record {
      at = λ s h one. elim (statement_cases (update_executions p f) s) [
        | inl c ↦ cc
        | inr c ↦ subst (Settled id) (sym c.1) (
            settled-update_where s.db.next_execution_id s.db.executions h.holds.numbered
              (count_one _ (sym c.0 ∙ one)))
      ];
    }
      where
        count_one : (n : ℕ) → Path (Result ℕ) (ok n) (ok 1) → n ≡ 1
        count_one n h = cc

insert_event-Settled :
    (id : ℕ) (event : OutboxEvent) (db : Database)
    → Settled id db
    → Settled id (insert_event event db).1
unfolding insert_event
insert_event-Settled id event db h =
    elim (Bool-cases (any (λ o. event_id_eq o.event_id event.event_id) db.outbox)) [
      | inl e ↦ rw e h
      | inr e ↦ rw e h
    ]

pub create_event-Settled :
    (id : ℕ) (event : OutboxEvent) → Keeps (On (Settled id)) (create_event event)
unfolding create_event
create_event-Settled id event =
    Keeps-bind (Keeps-statement (insert_event event) (insert_event-Settled id event))
      from_result-Keeps
