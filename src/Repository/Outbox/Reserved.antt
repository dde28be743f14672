-- ===== src/Repository/Outbox/Reserved.antt =====
-- The rows that ClaimBatch of internal/repository/outbox_repo.go has claimed.
use chrono_flow.Database.Outcomes.{OnSuccess}
use chrono_flow.Effect.Yields.{Yields}
use chrono_flow.Database.SessionLaws.{statement_cases}
use chrono_flow.Common.{
  ◌==◌, Bool-cases, All, ◌≤◌, String, ◌≡◌, refl, ap, inl, inr, Bool, true, false, ◌||◌, List, [],
  ◌∷◌, map, arith, str_eq,
}
use chrono_flow.Database.{update_where, statement, Database}
use chrono_flow.Model.Timer.{Time}
use chrono_flow.Model.Outbox.{OutboxEvent}
use chrono_flow.Repository.Outbox.{update_events, is_publishable, with_claim, is_among}

-- No session that asks up to the end of the claim is offered one of the events.
abbrev pub Reserved : Time → List OutboxEvent → Database → Type 0
Reserved until events db =
    All
      (λ o.
        is_among events o ≡ true → (later : Time) → later ≤ until → is_publishable later o ≡ false)
      db.outbox

module _ (owner : String) (until : Time) (named : str_eq owner "" ≡ false) where
  not_offered :
      (o : OutboxEvent) (later : Time)
      → later ≤ until
      → is_publishable later (with_claim owner until o) ≡ false
  unfolding is_publishable with_claim
  not_offered o later le = ground arith

  any-map :
      (o : OutboxEvent) (events : List OutboxEvent)
      → is_among (map (with_claim owner until) events) o ≡ is_among events o
  unfolding is_among with_claim
  any-map o [] = refl
  any-map o (e ∷ es) = ap (λ b. e.id == o.id || b) (any-map o es)

  reserve :
      (events os : List OutboxEvent)
      → All
          (λ o.
            is_among (map (with_claim owner until) events) o ≡ true
            → (later : Time) → later ≤ until
            → is_publishable later o ≡ false)
          (update_where (is_among events) (with_claim owner until) os)
  unfolding update_where
  reserve events [] = tt
  reserve events (o ∷ os) = elim (Bool-cases (is_among events o)) [
    | inl t ↦ rw t ((λ a later le. not_offered o later le), reserve events os)
    | inr t ↦ rw t ((λ a. absurd (clash (any-map o events) t a)), reserve events os)
  ]
    where
      clash : {a b : Bool} → a ≡ b → b ≡ false → a ≡ true → ⊥
      clash e f g = cc

  pub update-Reserved :
      (events : List OutboxEvent)
      → Yields
          (λ s. Unit {0})
          (statement (update_events (is_among events) (with_claim owner until)))
          (OnSuccess (λ n db. Reserved until (map (with_claim owner until) events) db))
  unfolding update_events
  update-Reserved events = record {
    at = λ s h.
        elim (statement_cases (update_events (is_among events) (with_claim owner until)) s) [
          | inl c ↦ rw c.0 tt
          | inr c ↦ rw (c.0, c.1) (reserve events s.db.outbox)
        ];
  }
