-- ===== src/Repository/Outbox/Batches.antt =====
-- What ClaimBatch of internal/repository/outbox_repo.go returns.
use chrono_flow.Common.{
  ◌==◌, length, All, All-map_lem, length-take, ℤ, pos, negsuc, ℕ, suc, ◌+◌, ◌≤◌, String, ◌≡◌, refl,
  ap, inl, inr, Bool, true, false, ◌&&◌, List, [], ◌∷◌, map, arith, str_eq,
}
use chrono_flow.Effect.{◌>>=◌, wrap_error, ok}
use chrono_flow.Effect.Yields.{Yields-pure, Yields-keeps, Yields-bind, Yields-wrap_error, Yields}
use chrono_flow.Database.{limit, All-order_by, query, transaction, Database, Session}
use chrono_flow.Database.RowLaws.{All-keep_lem, All-limit}
use chrono_flow.Model.Timer.{Time}
use chrono_flow.Model.Outbox.{OutboxEvent}
use chrono_flow.Repository.Outbox.{
  is_publishable, by_id, select_publishable, with_claim, is_among, claim_events, claim_unless_empty,
  claim_batch,
}
use mathlib.Core.Path.{subst}
use chrono_flow.Database.SessionLaws.{statement_cases}
use chrono_flow.Repository.Outbox.Reserved.{Reserved, update-Reserved}
use chrono_flow.Database.Outcomes.{OnSuccess, Yields-transaction}
use chrono_flow.Effect.Keeps.{Keeps-require}

-- A claimed event, and the row that it was: unpublished, available, not waiting for a retry, with no
-- claim in force, and its lock free.
pub record IsClaimedFrom (unlocked : ℕ → Bool) (owner : String) (now until : Time) (o : OutboxEvent)
    : Type 0 where
  pub before : OutboxEvent
  pub taken : o ≡ with_claim owner until before
  pub free : unlocked before.id ≡ true
  pub publishable : is_publishable now before ≡ true

-- A batch of at most the requested length.
abbrev pub Fits : ℤ → ℕ → Type 0
Fits (pos n) count = count ≤ n
Fits (negsuc n) count = Unit {0}

pub record IsBatch (unlocked : ℕ → Bool) (owner : String) (now until : Time) (batch : ℤ)
    (events : List OutboxEvent) : Type 0 where
  pub claimed : All (IsClaimedFrom unlocked owner now until) events
  pub fits : Fits batch (length events)

module _ (unlocked : ℕ → Bool) (owner : String) (now until : Time) (batch : ℤ) where
  abbrev IsFree : OutboxEvent → Type 0
  IsFree o = (unlocked o.id && is_publishable now o) ≡ true

  abbrev Selected : List OutboxEvent → Type 0
  Selected events = All IsFree events × Fits batch (length events)

  limit-Fits : (b : ℤ) (events : List OutboxEvent) → Fits b (length (limit b events))
  limit-Fits (pos n) events = length-take n events
  limit-Fits (negsuc n) events = tt

  All-Unit : (events : List OutboxEvent) → All (λ o. Unit {0}) events
  All-Unit [] = tt
  All-Unit (e ∷ es) = (tt, All-Unit es)

  select-Selected : (db : Database) → Selected (select_publishable unlocked now batch db)
  unfolding select_publishable
  select-Selected db = (
    All-limit IsFree (λ o. true) batch _
        (All-order_by IsFree by_id _ (
          All-map_lem _ IsFree _ (λ o h. h.0)
            (All-keep_lem (λ o. Unit {0}) (λ o. unlocked o.id && is_publishable now o) db.outbox
              (All-Unit db.outbox)))),
    limit-Fits batch _,
  )

  with_claim-IsClaimedFrom :
      (o : OutboxEvent)
      → IsFree o
      → IsClaimedFrom unlocked owner now until (with_claim owner until o)
  with_claim-IsClaimedFrom o h = record {
    before = o;
    taken = refl;
    free = ground arith;
    publishable = ground arith;
  }

  map-IsClaimedFrom :
      (events : List OutboxEvent)
      → All IsFree events
      → All (IsClaimedFrom unlocked owner now until) (map (with_claim owner until) events)
  map-IsClaimedFrom [] h = tt
  map-IsClaimedFrom (e ∷ es) h = (with_claim-IsClaimedFrom e h.0, map-IsClaimedFrom es h.1)

  length-map :
      (events : List OutboxEvent) → length (map (with_claim owner until) events) ≡ length events
  length-map [] = refl
  length-map (e ∷ es) = ap suc (length-map es)

  abbrev IsReservedBatch : List OutboxEvent → Database → Type 0
  IsReservedBatch events db =
      IsBatch unlocked owner now until batch events × Reserved until events db

  nothing-Reserved : (db : Database) → Reserved until [] db
  unfolding is_among
  nothing-Reserved db = none db.outbox
    where
      none :
          (os : List OutboxEvent)
          → All
              (λ o. false ≡ true → (later : Time) → later ≤ until → is_publishable later o ≡ false)
              os
      none [] = tt
      none (o ∷ os) = ((λ h. cc), none os)

  claim_events-IsReservedBatch :
      str_eq owner "" ≡ false
      → (events : List OutboxEvent) → Selected events
      → Yields (λ s. Unit {0}) (claim_unless_empty owner until events) (OnSuccess IsReservedBatch)
  unfolding claim_events
  claim_events-IsReservedBatch named [] h =
      Yields-pure [] (λ s q. (record { claimed = tt; fits = h.1 }, nothing-Reserved s.db))
  claim_events-IsReservedBatch named (e ∷ es) h =
      let events = e ∷ es in
      Yields-bind (OnSuccess (λ n db. Reserved until (map (with_claim owner until) events) db))
        (Yields-wrap_error _ (update-Reserved owner until named events) (λ x s q. tt)) (λ x s q. tt)
        λ n.
          Yields-bind (λ r s. Reserved until (map (with_claim owner until) events) s.db)
            (Yields-keeps (Keeps-require (n == length events) _)) (λ x s q. tt)
            λ done. Yields-pure _ λ s q.
              (record { claimed = map-IsClaimedFrom events h.0; fits = rw (length-map es) h.1 }, q)

  query-Selected :
      Yields
        (λ s. Unit {0})
        (query (select_publishable unlocked now batch))
        (OnSuccess (λ events db. Selected events))
  unfolding query
  query-Selected = record {
    at = λ s h. elim (statement_cases (λ db. (select_publishable unlocked now batch db, db)) s) [
      | inl c ↦ rw c.0 tt
      | inr c ↦ rw c.0 (select-Selected s.db)
    ];
  }

  claim_batch-Yields :
      str_eq owner "" ≡ false
      → Yields
          (λ s. Unit {0})
          (transaction (
            wrap_error "claim outbox events" (query (select_publishable unlocked now batch))
            >>= claim_unless_empty owner until))
          (OnSuccess IsReservedBatch)
  claim_batch-Yields named = Yields-transaction IsReservedBatch (
      Yields-bind (OnSuccess (λ events db. Selected events))
        (Yields-wrap_error _ query-Selected (λ e s q. tt)) (λ e s q. tt)
        λ found. record { at = λ s q. (claim_events-IsReservedBatch named found q).at s tt })

-- A batch that a dispatcher of some name claims has at most the requested number of events. Each of
-- them was, when it was claimed, unpublished, available, not waiting for a later attempt and claimed
-- by no one whose claim was in force; it is returned with the new owner and the end of the claim. In
-- the table that is left, no event of the batch may be claimed again up to the end of the claim.
pub claim_batch-IsReservedBatch :
    (unlocked : ℕ → Bool) (owner : String) (now : Time) (batch : ℤ) (ttl : ℕ) (s : Session)
    {events : List OutboxEvent}
    → str_eq owner "" ≡ false
    → (claim_batch unlocked owner now batch ttl s).0 ≡ ok events
    → IsBatch unlocked owner now (now + ttl) batch events
      × Reserved (now + ttl) events (claim_batch unlocked owner now batch ttl s).1.db
unfolding claim_batch
claim_batch-IsReservedBatch unlocked owner now batch ttl s {events} named h =
    subst
      (λ r.
        OnSuccess (IsReservedBatch unlocked owner now (now + ttl) batch) r
          (claim_batch unlocked owner now batch ttl s).1)
      h ((claim_batch-Yields unlocked owner now (now + ttl) batch named).at s tt)
