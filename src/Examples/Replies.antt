-- ===== src/Examples/Replies.antt =====
-- Lists, replies, processes, migrations, and the counts of the load tests.
use chrono_flow.Common.{
  Bytes, length, take, pos, ℕ, zero, suc, ◌+◌, ◌≤◌, ◌≡◌, refl, ◌↔◌, Bool, true, false, none, some,
  [], ◌∷◌, arith, str_eq,
}
use mathlib.Core.List.{reverse}
use chrono_flow.Common.Decimal.{format_int, parse_int}
use chrono_flow.Effect.{ok}
use chrono_flow.Config.{SecurityConfig}
use chrono_flow.Model.Timer.{
  CreateTimerDefinitionRequest, TimerDefinitionListRequest, active, inactive, deleted, catch_up,
}
use chrono_flow.Repository.Timers.Listing.{Collation, RowOrder}
use chrono_flow.Service.Timers.Listing.Pages.{
  all_rows, count_of, page_of, list_timers_lem, placed_by, first_pages, first_pages_join,
}
use chrono_flow.Service.Timers.Effects.{has_timer, IsCreated}
use chrono_flow.Handler.Timers.{create_timer, delete_timer, activate_timer, deactivate_timer}
use chrono_flow.Handler.Timers.Writes.{Tells, writes_tell}
use chrono_flow.App.Roles.{all}
use chrono_flow.App.Builders.{build, Application, Startup}
use chrono_flow.App.Running.{launch, Ending}
use chrono_flow.App.Release.{fresh, Builds, IsClean, build_complete, launch_releases}
use chrono_flow.Migration.{
  parse_command, execute, run_cli, Command, Engine, up, down, command, completed,
}
use chrono_flow.Migration.Commands.{parse_command-print_command, Folds}
use chrono_flow.Database.{Database}
use chrono_flow.Collector.{
  snapshot, new_collector, count_total, Collector, arrives, Served, started, step,
}
use chrono_flow.Collector.Counts.{Distinct, firsts, snapshot_balanced}
use chrono_flow.Service.ErrorText.{truncate_worker_error, truncate_outbox_error}
use chrono_flow.Service.ErrorText.Characters.{IsText, truncated-IsText}
use chrono_flow.Examples.Data.{
  no_json, every_ten, minute_timer, waiting, tables, session, scheduler_cfg, one_host,
}

abbrev plain : Collation
plain = record { same = str_eq; like = λ text pattern. true }

abbrev anything : TimerDefinitionListRequest
anything = record { page = pos 1; page_size = pos 10; app = ""; status = none; keyword = "" }

abbrev in_order : RowOrder
in_order = placed_by (λ id. id) (λ id. id)

list_timers_lem_example : page_of plain in_order anything (tables waiting) 1 10 ≡ (
  ok (record {
    total = length (all_rows plain in_order anything (tables waiting));
    page = pos 1;
    page_size = pos 10;
    items = take 10 (all_rows plain in_order anything (tables waiting));
    stats = record {
      total = length (all_rows plain in_order anything (tables waiting));
      active = count_of plain in_order anything (tables waiting) active;
      inactive = count_of plain in_order anything (tables waiting) inactive;
    };
  }),
  record { db = tables waiting; faults = [] },
)
list_timers_lem_example =
    list_timers_lem plain in_order anything (tables waiting) 0 10 (omega arith) (omega arith)
      (omega arith) (omega arith)

-- Two timers, the second of which is older.
abbrev two_timers : Database
two_timers = record (tables waiting) { timers = record minute_timer { id = 5 } ∷ minute_timer ∷ [] }

first_pages_join_example :
    first_pages plain (λ id. id) (λ page id. page + id) anything two_timers 2 1
    ≡ take 2 (all_rows plain in_order anything two_timers)
first_pages_join_example =
    first_pages_join plain (λ id. id) (λ page id. page + id) anything two_timers (λ id. id) 2 1
      (((λ e. omega (arith, e)), tt), (tt, tt)) (omega arith) (omega arith) (omega arith)
      (omega arith)

abbrev closed_security : SecurityConfig
closed_security = record {
  api_key = "";
  allowed_origins = [];
  allow_private_callbacks = false;
  max_request_bytes = pos 1024;
}

abbrev daily : CreateTimerDefinitionRequest
daily = record {
  app = "app";
  name = "daily";
  cron_expr = "0 0 0 * * *";
  callback_url = "https://example.com";
  callback_method = "POST";
  callback_body = "";
  callback_headers = none;
  misfire_policy = catch_up;
  max_catch_up = pos 0;
}

writes_tell_example :
    Tells 201
      (tables waiting)
      (IsCreated (tables waiting))
      (create_timer every_ten one_host no_json scheduler_cfg closed_security 50
        (some daily)
        (session waiting)).0
      (create_timer every_ten one_host no_json scheduler_cfg closed_security 50
        (some daily)
        (session waiting)).1
    × Tells 200
        (tables waiting)
        (λ u db. has_timer 1 active db ≡ true)
        (activate_timer (λ db. db) every_ten 50 "1" (session waiting)).0
        (activate_timer (λ db. db) every_ten 50 "1" (session waiting)).1
    × Tells 200
        (tables waiting)
        (λ u db. has_timer 1 inactive db ≡ true)
        (deactivate_timer (λ db. db) "1" (session waiting)).0
        (deactivate_timer (λ db. db) "1" (session waiting)).1
    × Tells 200
        (tables waiting)
        (λ u db. has_timer 1 deleted db ≡ true)
        (delete_timer "1" (session waiting)).0
        (delete_timer "1" (session waiting)).1
unfolding parse_int
writes_tell_example =
    writes_tell (session waiting) every_ten 50 one_host no_json scheduler_cfg closed_security
      (some daily) "1"

-- The pool of workers cannot be made.
abbrev no_pool : Startup
no_pool = record {
  database = true;
  redis = true;
  consumer_group = true;
  worker_group = true;
  worker_pool = false;
  routes = true;
}

build_complete_example : Builds all (build no_pool all fresh).0 (build no_pool all fresh).1
build_complete_example = build_complete no_pool all

-- A signal comes while the server runs.
abbrev signalled : Ending
signalled = record { server_result = none; shutdown_error = none; stopped_in_time = true }

launch_releases_example :
    ((launch true no_pool all signalled fresh).1.closed
      ≡ reverse (launch true no_pool all signalled fresh).1.opened)
    × (((launch true no_pool all signalled fresh).0 ≡ ok tt) ↔ (
        (Path Bool true true)
        × ((a : Application) × ((build no_pool all fresh).0 ≡ ok a))
        × IsClean signalled))
launch_releases_example = launch_releases true no_pool all signalled

same_words : Folds (λ word. word)
same_words = record { up_word = refl; down_word = refl; version_word = refl; force_word = refl }

abbrev two_down : Command
two_down = record { action = down; number = pos 2 }

parse_command-print_command_example :
    parse_command (λ word. word) ("down" ∷ "2" ∷ []) ≡ command two_down
unfolding format_int
parse_command-print_command_example =
    parse_command-print_command (λ word. word) same_words two_down (omega arith, omega arith)

abbrev engine : Engine
engine = record {
  new = ok tt;
  perform = λ call. ok (some tt);
  version = ok (some (3, false));
  close = none;
}

migrated :
    run_cli (λ word. word) true false (ok "file:///migrations") engine ("up" ∷ [])
    ≡ ok (completed up 3)
unfolding run_cli parse_command execute
migrated = refl

abbrev one_request : Collector
one_request = count_total "k" new_collector

one_request-Served : Served one_request
one_request-Served = step started (arrives "k")

snapshot_balanced_example :
    Distinct one_request.keys
    × ((snapshot one_request one_request one_request one_request).total
        ≡ (snapshot one_request one_request one_request one_request).unique
          + (snapshot one_request one_request one_request one_request).duplicates
          + (snapshot one_request one_request one_request one_request).missing_idempotency_key
          + length one_request.counted
          + length one_request.asked)
    × (length one_request.keys
        ≡ (snapshot one_request one_request one_request one_request).unique
          + firsts one_request.asked)
snapshot_balanced_example = snapshot_balanced one_request one_request-Served

abbrev letters : ℕ → Bytes
letters zero = []
letters (suc n) = b'a' ∷ letters n

length-letters : (n : ℕ) → length (letters n) ≡ n
length-letters zero = refl
length-letters (suc n) = omega (arith, length-letters n)

truncated-IsText_example :
    (length (truncate_worker_error (λ text. text) (letters 2049)) ≤ 2048)
    × (length (truncate_outbox_error (λ text. text) (letters 2049)) ≤ 2048)
    × (IsText (truncate_worker_error (λ text. text) (letters 2049))
        ↔ IsText (take 2045 (letters 2049)))
    × (IsText (truncate_outbox_error (λ text. text) (letters 2049))
        ↔ IsText (take 2045 (letters 2049)))
truncated-IsText_example =
    truncated-IsText (λ text. text) (letters 2049) (omega (arith, length-letters 2049))
