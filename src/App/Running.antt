-- ===== src/App/Running.antt =====
-- Run and Close of internal/app/application.go, under Run of internal/launcher/launcher.go.
use chrono_flow.Common.{if◌then◌else◌, String, Bool, not, Option, none, some}
use chrono_flow.Effect.{◌>>=◌, ◌>>◌, pure, raise, try, Error, message, wrap, Result, ok, err}
use chrono_flow.App.Roles.{Role}
use chrono_flow.App.Builders.{Setup, close_with_context, build, Application, Startup}

-- How a run ends: what ListenAndServe returns before a signal comes, if it does, where
-- ErrServerClosed counts as no error; the error of Shutdown; and whether the services stop in time.
pub record Ending : Type 0 where
  pub server_result : Option (Option Error)
  pub shutdown_error : Option Error
  pub stopped_in_time : Bool

-- An error is only noted where there is none yet.
abbrev pub or_error : Option Error → Option Error → Option Error
or_error (some e) next = some e
or_error none next = next

abbrev pub server_error : Option (Option Error) → Option Error
server_error none = none
server_error (some none) = none
server_error (some (some e)) = some (wrap "run HTTP server" e)

abbrev pub wrapped : String → Option Error → Option Error
wrapped text none = none
wrapped text (some e) = some (wrap text e)

unfoldable pub run_error : Ending → Option Error
run_error ending =
    or_error
      (or_error (server_error ending.server_result)
        (wrapped "shut down HTTP server" ending.shutdown_error))
      (if ending.stopped_in_time
        then none
        else some (message "timed out waiting for background components to stop"))

abbrev pub result_of : Option Error → Setup (Unit {0})
result_of none = pure tt
result_of (some e) = raise e

unfoldable pub run : Ending → Application → Setup (Unit {0})
unfolding run_error
run ending a =
    if not a.server
    then raise (message "HTTP server is not configured")
    else (do close_with_context a; result_of (run_error ending))

abbrev pub passed_on : Result (Unit {0}) → Setup (Unit {0})
passed_on (ok u) = pure u
passed_on (err e) = raise e

-- `config` is whether the configuration has been loaded; Close is deferred.
unfoldable pub launch : Bool → Startup → Role → Ending → Setup (Unit {0})
unfolding run
launch config up role ending = if not config then raise (message "load configuration") else (do
  a ← build up role
  outcome ← try (run ending a)
  close_with_context a
  passed_on outcome)
