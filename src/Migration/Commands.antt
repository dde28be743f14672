-- ===== src/Migration/Commands.antt =====
-- The commands that are accepted, and how they are written.
use chrono_flow.Common.{
  pos_part, ltb_ℤ, ℤ, pos, negsuc, ℕ, ◌^◌, ◌<◌, String, ◌≡◌, refl, false, some, List, [], ◌∷◌,
  arith,
}
use chrono_flow.Common.Decimal.{format_int}
use chrono_flow.Migration.{
  positive_int, parse_command, Command, MigrationAction, up, down, version, force, command,
}
use chrono_flow.Common.Decimal.RoundTrip.{parse_int-format_int}

-- How the help text writes a command.
abbrev pub print_command : Command → List String
print_command c = elim c.action [
  | up ↦ "up" ∷ []
  | version ↦ "version" ∷ []
  | down ↦ "down" ∷ format_int (pos_part c.number) ∷ []
  | force ↦ "force" ∷ format_int (pos_part c.number) ∷ []
]

-- A number from 1 on that is an int for the two actions that take one, and none for the others.
abbrev IsNumber : MigrationAction → ℤ → Type 0
IsNumber up n = n ≡ pos 0
IsNumber version n = n ≡ pos 0
IsNumber down n = (0 < pos_part n) × (pos_part n < 2 ^ 63)
IsNumber force n = (0 < pos_part n) × (pos_part n < 2 ^ 63)

-- The four words are in lower case and have no blanks.
pub record Folds (fold : String → String) : Type 0 where
  pub up_word : fold "up" ≡ "up"
  pub down_word : fold "down" ≡ "down"
  pub version_word : fold "version" ≡ "version"
  pub force_word : fold "force" ≡ "force"

positive_int-format_int : (n : ℕ) → 0 < n → n < 2 ^ 63 → positive_int (format_int n) ≡ some (pos n)
unfolding positive_int
positive_int-format_int n h k =
    rw (parse_int-format_int n k)
      (let t : ltb_ℤ (pos n) (pos 1) ≡ false = ground arith in rw t refl)

module _ (fold : String → String) (folds : Folds fold) where
  read :
      (action : MigrationAction) (n : ℤ)
      → IsNumber action n
      → parse_command fold (print_command (record { action = action; number = n }))
        ≡ command (record { action = action; number = n })
  unfolding parse_command
  read up n h = rw (folds.up_word, h) refl
  read version n h = rw (folds.version_word, h) refl
  read down (pos n) h = rw (folds.down_word, positive_int-format_int n h.0 h.1) refl
  read down (negsuc n) h = absurd (omega arith)
  read force (pos n) h = rw (folds.force_word, positive_int-format_int n h.0 h.1) refl
  read force (negsuc n) h = absurd (omega arith)

  -- Every command is read back from the way in which the help text writes it: down and force with a
  -- number from 1 on that is an int, up and version without one.
  pub parse_command-print_command :
      (c : Command) → IsNumber c.action c.number → parse_command fold (print_command c) ≡ command c
  parse_command-print_command c h = read c.action c.number h
