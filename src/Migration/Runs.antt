-- ===== src/Migration/Runs.antt =====
-- When a run of the migrations reports a success.
use chrono_flow.Common.{
  Bool-cases, ℕ, String, ◌≡◌, refl, ◌∙◌, ◌≢◌, inl, inr, Bool, true, false, Option, none, some, List,
}
use chrono_flow.Effect.{Error, Result, ok, err}
use chrono_flow.Migration.{
  parse_command, call_of, with_version, after_call, called, closing, opened, execute,
  reported_if_clean, run_parsed, run_cli, Command, MigrationResult, Engine, Parsed, help, command,
  refused, Call, Output, usage,
}

abbrev pub is_dirty : Option (ℕ × Bool) → Bool
is_dirty none = false
is_dirty (some (n, dirty)) = dirty

-- The call was answered, if there was one.
abbrev pub Performed : Engine → Option Call → Type 0
Performed engine none = Unit {0}
Performed engine (some call) = (r : Option (Unit {0})) × (engine.perform call ≡ ok r)

-- The version was read and is clean.
abbrev pub IsClean : Engine → Type 0
IsClean engine = (v : Option (ℕ × Bool)) × (engine.version ≡ ok v) × (is_dirty v ≡ false)

-- What stands behind a result.
abbrev Behind : Engine → Option Call → MigrationResult → Type 0
Behind engine call result =
    Performed engine call
    × ((v : Option (ℕ × Bool)) × (engine.version ≡ ok v) × (is_dirty v ≡ result.dirty))

module _ (engine : Engine) where
  versioned :
      (changed : Bool) (r : Result (Option (ℕ × Bool))) (result : MigrationResult)
      → engine.version ≡ r
      → with_version changed r ≡ ok result
      → (v : Option (ℕ × Bool)) × (engine.version ≡ ok v) × (is_dirty v ≡ result.dirty)
  versioned changed (err e) result h k = cc
  versioned changed (ok none) result h k = (none, h, cc)
  versioned changed (ok (some (n, dirty))) result h k = (some (n, dirty), h, cc)

  performed :
      (call : Call) (r : Result (Option (Unit {0}))) (result : MigrationResult)
      → engine.perform call ≡ r
      → after_call engine r ≡ ok result
      → Behind engine (some call) result
  performed call (err e) result h k = cc
  performed call (ok none) result h k = ((none, h), versioned false engine.version result refl k)
  performed call (ok (some done)) result h k =
      ((some done, h), versioned true engine.version result refl k)

  called_lem :
      (call : Option Call) (result : MigrationResult)
      → called engine call ≡ ok result
      → Behind engine call result
  called_lem none result k = (tt, versioned false engine.version result refl k)
  called_lem (some call) result k = performed call (engine.perform call) result refl k

  closing_lem :
      (e : Option Error) (r : Result MigrationResult) (result : MigrationResult)
      → closing e r ≡ ok result
      → (e ≡ none) × (r ≡ ok result)
  closing_lem none r result k = (refl, k)
  closing_lem (some e) (ok x) result k = cc
  closing_lem (some e) (err x) result k = cc

  opened_lem :
      (c : Command) (r : Result (Unit {0})) (result : MigrationResult)
      → opened engine c r ≡ ok result
      → (engine.close ≡ none) × Behind engine (call_of c) result
  opened_lem c (err e) result k = cc
  opened_lem c (ok done) result k =
      let (closed, made) = closing_lem engine.close (called engine (call_of c)) result k in
      (closed, called_lem (call_of c) result made)

  execute_lem :
      (blank : Bool) (source : Result String) (c : Command) (result : MigrationResult)
      → execute blank source engine c ≡ ok result
      → (engine.close ≡ none) × Behind engine (call_of c) result
  unfolding execute
  execute_lem true source c result k = cc
  execute_lem false (err e) c result k = cc
  execute_lem false (ok url) c result k = opened_lem c engine.new result k

  -- What a run that reports a success rests on.
  abbrev pub Rests : Command → Type 0
  Rests c = (engine.close ≡ none) × Performed engine (call_of c) × IsClean engine

  reported_lem :
      (c : Command) (r : Result MigrationResult) (out : Output)
      → ((result : MigrationResult)
          → r ≡ ok result
          → (engine.close ≡ none) × Behind engine (call_of c) result)
      → reported_if_clean c r ≡ ok out
      → Rests c
  reported_lem c (err e) out k h = cc
  reported_lem c (ok result) out k h = elim (Bool-cases result.dirty) [
    | inl t ↦ let bad = rw t at h in cc
    | inr t ↦
        let (closed, (done, (v, read, clean))) = k result refl in
        (closed, done, (v, read, clean ∙ t))
  ]

module _ (fold : String → String) (config blank_dsn : Bool) (source : Result String)
    (engine : Engine) where
  parsed_lem :
      (parsed : Parsed) (out : Output)
      → run_parsed config blank_dsn source engine parsed ≡ ok out
      → out ≢ usage
      → (c : Command) × (parsed ≡ command c) × Rests engine c
  parsed_lem help out h ne = absurd (ne cc)
  parsed_lem (refused e) out h ne = cc
  parsed_lem (command c) out h ne = elim (Bool-cases config) [
    | inl t ↦ (
      c,
      refl,
      reported_lem engine c (execute blank_dsn source engine c) out
          (execute_lem engine blank_dsn source c) (rw t at h),
    )
    | inr t ↦ let bad = rw t at h in cc
  ]

  -- A run that reports anything but the help text was given a command, the migration that the command
  -- asks for was performed without an error, the engine was closed without one, and the version that
  -- was read after it is not dirty.
  pub run_cli-succeeds :
      (args : List String) (out : Output)
      → run_cli fold config blank_dsn source engine args ≡ ok out
      → out ≢ usage
      → (c : Command) × (parse_command fold args ≡ command c) × Rests engine c
  unfolding run_cli
  run_cli-succeeds args out = parsed_lem (parse_command fold args) out
