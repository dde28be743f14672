-- ===== src/Migration.antt =====
-- internal/migration: the command line, and what it asks of golang-migrate, which is a parameter.
pub mod Commands
pub mod Runs
use chrono_flow.Common.{
  if◌then◌else◌, ltb_ℤ, ℤ, pos, negsuc, ℕ, zero, suc, String, Bool, true, false, not, ◌||◌, Option,
  none, some, List, [], ◌∷◌, str_eq,
}
use chrono_flow.Common.Decimal.{parse_int, NumError}
use chrono_flow.Effect.{run, Error, database, message, wrap, Result, ok, err}

-- command.go
pub data MigrationAction : Type 0 where
  up down version force : MigrationAction

pub record Command : Type 0 where
  pub action : MigrationAction
  pub number : ℤ

-- `help` is ErrHelp.
pub data Parsed : Type 0 where
  help : Parsed
  command : Command → Parsed
  refused : Error → Parsed

abbrev pub positive : ℤ × Option NumError → Option ℤ
positive (n, some e) = none
positive (n, none) = if ltb_ℤ n (pos 1) then none else some n

unfoldable pub positive_int : String → Option ℤ
positive_int value = positive (parse_int value)

abbrev pub alone : List String → Parsed → Parsed
alone [] parsed = parsed
alone (arg ∷ args) parsed = refused (message "additional arguments are not accepted")

abbrev pub numbered : MigrationAction → Option ℤ → Parsed
numbered action none = refused (wrap "invalid value" (message "must be a positive integer"))
numbered action (some n) = command (record { action = action; number = n })

abbrev pub with_number : MigrationAction → List String → Parsed
with_number action (value ∷ []) = numbered action (positive_int value)
with_number action _ = refused (message "exactly one version or step count is required")

-- `fold` is strings.ToLower after strings.TrimSpace.
unfoldable pub parse_command : (String → String) → List String → Parsed
parse_command fold [] = refused (message "missing migration action")
parse_command fold (arg ∷ args) =
    let action = fold arg in
    if str_eq action "help" || str_eq action "-h" || str_eq action "--help"
    then alone args help
    else if str_eq action "up"
    then alone args (command (record { action = up; number = pos 0 }))
    else if str_eq action "version"
    then alone args (command (record { action = version; number = pos 0 }))
    else if str_eq action "down"
    then with_number down args
    else if str_eq action "force"
    then with_number force args
    else refused (message "unknown migration action")

-- migrator.go
pub record MigrationResult : Type 0 where
  pub version : ℕ
  pub dirty : Bool
  pub changed : Bool

pub data Call : Type 0 where
  up_all : Call
  steps : ℤ → Call
  force_version : ℤ → Call

-- Of golang-migrate: migrate.New; what a call answers, where none is ErrNoChange; Version, where none
-- is ErrNilVersion; and the first error of Close.
pub record Engine : Type 0 where
  pub new : Result (Unit {0})
  pub perform : Call → Result (Option (Unit {0}))
  pub version : Result (Option (ℕ × Bool))
  pub close : Option Error

abbrev pub negated : ℤ → ℤ
negated (pos zero) = pos 0
negated (pos (suc n)) = negsuc n
negated (negsuc n) = pos (suc n)

-- The switch of Execute; none is a command that only reads.
abbrev pub call_of : Command → Option Call
call_of c = elim c.action [
  | up ↦ some up_all
  | down ↦ some (steps (negated c.number))
  | force ↦ some (force_version c.number)
  | version ↦ none
]

abbrev pub with_version : Bool → Result (Option (ℕ × Bool)) → Result MigrationResult
with_version changed (err e) = err (wrap "read migration version" e)
with_version changed (ok none) = ok (record { version = 0; dirty = false; changed = changed })
with_version changed (ok (some (n, dirty))) =
    ok (record { version = n; dirty = dirty; changed = changed })

abbrev pub after_call : Engine → Result (Option (Unit {0})) → Result MigrationResult
after_call engine (err e) = err (wrap "run migration" e)
after_call engine (ok none) = with_version false engine.version
after_call engine (ok (some done)) = with_version true engine.version

abbrev pub called : Engine → Option Call → Result MigrationResult
called engine none = with_version false engine.version
called engine (some call) = after_call engine (engine.perform call)

-- The deferred Close: its error is returned if there is no other.
abbrev pub closing : Option Error → Result MigrationResult → Result MigrationResult
closing none result = result
closing (some e) (ok result) = err (wrap "close migration" e)
closing (some e) (err x) = err x

abbrev pub opened : Engine → Command → Result (Unit {0}) → Result MigrationResult
opened engine c (err e) = err (wrap "initialize migration engine" e)
opened engine c (ok done) = closing engine.close (called engine (call_of c))

-- `blank_dsn` is whether the DSN is blank, and `source` what fileSourceURL makes of the path.
unfoldable pub execute : Bool → Result String → Engine → Command → Result MigrationResult
execute true source engine c = err (message "database dsn is required")
execute false (err e) engine c = err e
execute false (ok url) engine c = opened engine c engine.new

-- cli.go: what is printed.
pub data Output : Type 0 where
  usage : Output
  clean_version : ℕ → Output
  completed : MigrationAction → ℕ → Output
  already_at : ℕ → Output

abbrev pub reported : Command → MigrationResult → Output
reported c result = elim c.action [
  | version ↦ clean_version result.version
  | _ ↦ if result.changed then completed c.action result.version else already_at result.version
]

abbrev pub reported_if_clean : Command → Result MigrationResult → Result Output
reported_if_clean c (err e) = err e
reported_if_clean c (ok result) =
    if result.dirty then err (message "migration version is dirty") else ok (reported c result)

-- `config` is whether the configuration has been loaded.
abbrev pub run_parsed : Bool → Bool → Result String → Engine → Parsed → Result Output
run_parsed config blank_dsn source engine help = ok usage
run_parsed config blank_dsn source engine (refused e) = err e
run_parsed config blank_dsn source engine (command c) =
    if config
    then reported_if_clean c (execute blank_dsn source engine c)
    else err (message "load configuration")

unfoldable pub run_cli :
    (String → String) → Bool → Bool → Result String → Engine → List String → Result Output
unfolding execute
run_cli fold config blank_dsn source engine args =
    run_parsed config blank_dsn source engine (parse_command fold args)
