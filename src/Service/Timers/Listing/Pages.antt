-- ===== src/Service/Timers/Listing/Pages.antt =====
-- The pages of the list of timers.
use native.Mathlib.Nat.{zero-mul, suc-mul}
use chrono_flow.Common.{
  ◌==◌, ==→eq, Bool-cases, keep, All, All-map_lem, if◌then◌else◌, length, take, drop, take-drop,
  pred-ℤ, *ℤ_small, pos, ℕ, zero, suc, ◌+◌, ◌*◌, ◌^◌, ◌<◌, ◌≡◌, refl, ◌≢◌, inl, inr, ap, ◌∙◌, Bool,
  true, false, ◌&&◌, List, [], ◌∷◌, ◌++◌, arith,
}
use chrono_flow.Effect.{Result, ok, err}
use chrono_flow.Model.Timer.{
  Time, status_eq, TimerDefinition, TimerDefinitionListRequest, TimerDefinitionListResponse,
  TimerStatus, active, inactive, deleted,
}
use chrono_flow.Database.{
  count_where, offset, count_where-keep, length-order_by, Agree, order_by-Agree, run_sql, Database,
  Session,
}
use chrono_flow.Database.RowLaws.{All-keep_lem}
use chrono_flow.Repository.Timers.Listing.{
  offset_of, newest_first, is_listed, listed, list_definitions, count_list_by_status, Collation,
  RowOrder,
}
use chrono_flow.Service.Timers.Listing.{with_page_defaults, stats_of, list_page, list_timers}

-- A row that is listed is ACTIVE or INACTIVE.
one_status :
    (col : Collation) (req : TimerDefinitionListRequest) (t : TimerDefinition)
    → (if is_listed col req t && status_eq t.status active then 1 else 0)
        + (if is_listed col req t && status_eq t.status inactive then 1 else 0)
      ≡ (if is_listed col req t then 1 else 0)
one_status col req t = split (is_listed col req t) t.status (unlisted t)
  where
    unlisted :
        (t : TimerDefinition) → status_eq t.status deleted ≡ true → is_listed col req t ≡ false
    unlisted t h = unfold is_listed in rw h refl

    split :
        (b : Bool) (status : TimerStatus)
        → (status_eq status deleted ≡ true → b ≡ false)
        → (if b && status_eq status active then 1 else 0)
            + (if b && status_eq status inactive then 1 else 0)
          ≡ (if b then 1 else 0)
    split true active h = refl
    split true inactive h = refl
    split true deleted h = let e = h refl in cc
    split false status h = refl

count_where-statuses :
    (col : Collation) (req : TimerDefinitionListRequest) (ts : List TimerDefinition)
    → count_where (λ t. is_listed col req t && status_eq t.status active) ts
        + count_where (λ t. is_listed col req t && status_eq t.status inactive) ts
      ≡ count_where (is_listed col req) ts
unfolding count_where
count_where-statuses col req [] = omega arith
count_where-statuses col req (t ∷ ts) =
    omega (arith, one_status col req t, count_where-statuses col req ts)

with_page_defaults_kept :
    (req : TimerDefinitionListRequest) (page size : ℕ)
    → 0 < page
    → 0 < size
    → req.page ≡ pos page
    → req.page_size ≡ pos size
    → with_page_defaults req ≡ req
unfolding with_page_defaults
with_page_defaults_kept req page size hp hs e f = ground arith

offset_of_page :
    (n size : ℕ)
    → n < 2 ^ 63
    → size < 2 ^ 63
    → n * size < 2 ^ 63
    → offset_of (pos (suc n)) (pos size) ≡ pos (n * size)
unfolding offset_of
offset_of_page n size hn hs h = rw (pred-ℤ n hn) (*ℤ_small n size hn hs h)

module _ (col : Collation) (order : RowOrder) (req : TimerDefinitionListRequest)
    (db : Database) where
  -- All the rows of a request, newest first.
  abbrev pub all_rows : List TimerDefinition
  all_rows = listed col order req db

  length-all_rows : length all_rows ≡ count_where (is_listed col req) db.timers
  unfolding listed
  length-all_rows =
      length-order_by (newest_first order) _ ∙ count_where-keep (is_listed col req) db.timers

  abbrev pub count_of : TimerStatus → ℕ
  count_of status = count_where (λ t. is_listed col req t && status_eq t.status status) db.timers

  -- A page of a given size, asked for while no statement fails and no other session writes.
  abbrev pub page_of : ℕ → ℕ → Result TimerDefinitionListResponse × Session
  page_of page size =
      list_timers col order (λ d. d) (λ d. d) (record req { page = pos page; page_size = pos size })
        (record { db = db; faults = [] })

  page_of_lem :
      (page size : ℕ)
      → 0 < page
      → 0 < size
      → page_of page size ≡ (
        ok (record {
          total = count_where (is_listed col req) db.timers;
          page = pos page;
          page_size = pos size;
          items = take size (offset (offset_of (pos page) (pos size)) all_rows);
          stats = stats_of count_of;
        }),
        record { db = db; faults = [] },
      )
  unfolding list_timers
  page_of_lem page size hp hs =
      let asked = record req { page = pos page; page_size = pos size } in
      ap
        (λ (r : TimerDefinitionListRequest).
          list_page col order (λ d. d) (λ d. d) r (record { db = db; faults = [] }))
        (with_page_defaults_kept asked page size hp hs refl refl)
      ∙ read
    where
      read :
          list_page col order
            (λ d. d)
            (λ d. d)
            (record req { page = pos page; page_size = pos size })
            (record { db = db; faults = [] })
          ≡ (
            ok (record {
              total = count_where (is_listed col req) db.timers;
              page = pos page;
              page_size = pos size;
              items = take size (offset (offset_of (pos page) (pos size)) all_rows);
              stats = stats_of count_of;
            }),
            record { db = db; faults = [] },
          )
      read = unfold list_page list_definitions count_list_by_status run_sql is_listed listed in refl

  -- While no statement fails and no other session writes, page n + 1 has the rows of its place among
  -- the rows that are listed, newest first, with those of equal created_at as the query places them;
  -- the total is the number of these rows, and so is the sum of the two statuses. The numbers must fit
  -- an int, the product of n and the size too.
  pub list_timers_lem :
      (n size : ℕ)
      → 0 < size
      → n < 2 ^ 63
      → size < 2 ^ 63
      → n * size < 2 ^ 63
      → page_of (suc n) size ≡ (
        ok (record {
          total = length all_rows;
          page = pos (suc n);
          page_size = pos size;
          items = take size (drop (n * size) all_rows);
          stats = record {
            total = length all_rows;
            active = count_of active;
            inactive = count_of inactive;
          };
        }),
        record { db = db; faults = [] },
      )
  list_timers_lem n size h hn hs hp =
      page_of_lem (suc n) size (omega arith) h
      ∙ rw (offset_of_page n size hn hs hp, count_where-statuses col req db.timers, length-all_rows)
          refl

abbrev pub items_of : Result TimerDefinitionListResponse → List TimerDefinition
items_of (ok response) = response.items
items_of (err e) = []

-- No two of the rows have the same created_at.
abbrev pub CreatedApart : (ℕ → Time) → List TimerDefinition → Type 0
CreatedApart created_at [] = Unit {0}
CreatedApart created_at (t ∷ ts) =
    All (λ u. created_at t.id ≢ created_at u.id) ts × CreatedApart created_at ts

-- The order of a query that places the rows of equal created_at in this way.
abbrev pub placed_by : (ℕ → Time) → (ℕ → ℕ) → RowOrder
placed_by created_at place = record { created_at = created_at; place = place }

module _ (created_at : ℕ → Time) (p q : ℕ → ℕ) where
  newest_first-apart :
      (t u : TimerDefinition)
      → created_at t.id ≢ created_at u.id
      → newest_first (placed_by created_at p) t u ≡ newest_first (placed_by created_at q) t u
  newest_first-apart t u h = elim (Bool-cases (created_at t.id == created_at u.id)) [
    | inl e ↦ absurd (h (==→eq _ _ e))
    | inr e ↦ rw e refl
  ]

  newest_first-Agree :
      (listed : TimerDefinition → Bool) (ts : List TimerDefinition)
      → CreatedApart created_at ts
      → Agree
          (newest_first (placed_by created_at p))
          (newest_first (placed_by created_at q))
          (keep listed ts)
  newest_first-Agree listed [] h = tt
  newest_first-Agree listed (t ∷ ts) h = elim (Bool-cases (listed t)) [
    | inl e ↦ rw e (
      All-map_lem _ _ (keep listed ts) (λ u k. newest_first-apart t u k.1)
          (All-keep_lem _ listed ts h.0),
      newest_first-Agree listed ts h.1,
    )
    | inr e ↦ rw e (newest_first-Agree listed ts h.1)
  ]

  all_rows-placed :
      (col : Collation) (req : TimerDefinitionListRequest) (db : Database)
      → CreatedApart created_at db.timers
      → all_rows col (placed_by created_at p) req db ≡ all_rows col (placed_by created_at q) req db
  unfolding listed
  all_rows-placed col req db apart =
      order_by-Agree _ _ _ (newest_first-Agree (is_listed col req) db.timers apart)

-- `places` tells how the query of each page places the rows of equal created_at.
module _ (col : Collation) (created_at : ℕ → Time) (places : ℕ → ℕ → ℕ)
    (req : TimerDefinitionListRequest) (db : Database) where
  -- The items of the first pages, one page after another.
  abbrev pub first_pages : ℕ → ℕ → List TimerDefinition
  first_pages zero size = []
  first_pages (suc n) size =
      first_pages n size
      ++ items_of (page_of col (placed_by created_at (places n)) req db (suc n) size).0

  -- The first n pages together are the first n times the size of the rows, so that each row is on one
  -- page and none is left out, if no two timers have the same created_at: MySQL may place those in
  -- another way for each page. No statement fails and no other session writes, and the numbers fit an
  -- int.
  pub first_pages_join :
      (place : ℕ → ℕ) (n size : ℕ)
      → CreatedApart created_at db.timers
      → 0 < size
      → n < 2 ^ 63
      → size < 2 ^ 63
      → n * size < 2 ^ 63
      → first_pages n size ≡ take (n * size) (all_rows col (placed_by created_at place) req db)
  first_pages_join place zero size apart h hn hs hp = rw (zero-mul size) refl
  first_pages_join place (suc n) size apart h hn hs hp =
      let smaller : n * size < 2 ^ 63 = grind (arith, suc-mul n size) in
      let rows = all_rows col (placed_by created_at place) req db in
      let here =
        ap (λ (r : Result TimerDefinitionListResponse × Session). items_of r.0)
          (list_timers_lem col (placed_by created_at (places n)) req db n size h (omega arith) hs
            smaller)
        ∙ ap (λ (l : List TimerDefinition). take size (drop (n * size) l))
            (all_rows-placed created_at (places n) place col req db apart) in
      rw (first_pages_join place n size apart h (omega arith) hs smaller, here)
        (take-drop (n * size) size rows ∙ rw (suc-mul n size) refl)
