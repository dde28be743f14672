-- ===== src/Repository/Timers/Listing.antt =====
-- List and CountListByStatus of internal/repository/timer_definition_repo.go.
use Prim.Native.String.{◌++◌ as append}
use chrono_flow.Common.{
  ltb, leb, ◌==◌, keep, ◌-ℤ◌, ◌*ℤ◌, ℤ, pos, ℕ, String, Bool, true, not, ◌&&◌, ◌||◌, Option, none,
  some, List, str_eq,
}
use chrono_flow.Effect.{◌>>=◌, ◌>>◌, pure, wrap_error}
use chrono_flow.Model.Timer.{
  Time, status_eq, TimerDefinition, TimerDefinitionListRequest, TimerStatus, deleted,
}
use chrono_flow.Database.{count_where, order_by, limit, offset, Sql, query, meanwhile, Database}

-- How MySQL compares texts, and `column LIKE pattern`.
pub record Collation : Type 0 where
  pub same : String → String → Bool
  pub like : String → String → Bool

abbrev pub is_any_status : Option TimerStatus → TimerStatus → Bool
is_any_status none status = true
is_any_status (some wanted) status = status_eq status wanted

-- (page - 1) * pageSize, as int.
unfoldable pub offset_of : ℤ → ℤ → ℤ
offset_of page page_size = (page -ℤ pos 1) *ℤ page_size

-- The order of the rows of one query: the column created_at of a row, by its id, and the place that the
-- row has among those with the same created_at, which the server chooses for each query.
pub record RowOrder : Type 0 where
  pub created_at : ℕ → Time
  pub place : ℕ → ℕ

-- "created_at DESC"
abbrev pub newest_first : RowOrder → TimerDefinition → TimerDefinition → Bool
newest_first order a b =
    ltb (order.created_at b.id) (order.created_at a.id)
    || (order.created_at a.id == order.created_at b.id && leb (order.place a.id) (order.place b.id))

module _ (col : Collation) where
  -- The WHERE that both queries build.
  unfoldable pub is_listed : TimerDefinitionListRequest → TimerDefinition → Bool
  is_listed req t =
      not (status_eq t.status deleted)
      && (str_eq req.app "" || col.same t.app req.app)
      && is_any_status req.status t.status
      && (str_eq req.keyword ""
          || col.like t.name (append "%" (append req.keyword "%"))
          || col.like t.callback_url (append "%" (append req.keyword "%")))

  -- All rows of the list, of which a page is read.
  unfoldable pub listed : RowOrder → TimerDefinitionListRequest → Database → List TimerDefinition
  listed order req db = order_by (newest_first order) (keep (is_listed req) db.timers)

  -- `others` is what other sessions commit between the two statements.
  unfoldable pub list_definitions :
      RowOrder → (Database → Database) → TimerDefinitionListRequest → Sql (List TimerDefinition × ℕ)
  list_definitions order others req = do
    total ←
        wrap_error "count timer definitions" (query (λ db. count_where (is_listed req) db.timers))
    meanwhile others
    items ← wrap_error "list timer definitions" (
        query (λ db.
          limit req.page_size (offset (offset_of req.page req.page_size) (listed order req db))))
    pure (items, total)

  -- The rows of SELECT status, count(*) … GROUP BY status, as the map that is built from them.
  unfoldable pub count_list_by_status : TimerDefinitionListRequest → Sql (TimerStatus → ℕ)
  count_list_by_status req =
      wrap_error "count timer list statuses" (
        query
          λ db status. count_where (λ t. is_listed req t && status_eq t.status status) db.timers)
