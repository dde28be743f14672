-- ===== src/App/Roles.antt =====
-- internal/app/role.go
use chrono_flow.Common.{String, List, [], ◌∷◌}

pub data Role : Type 0 where
  api scheduler dispatcher worker all : Role

unfoldable pub runtime_mode : Role → String
runtime_mode api = "control-plane"
runtime_mode scheduler = "scheduler"
runtime_mode dispatcher = "outbox-dispatcher"
runtime_mode worker = "stream-worker"
runtime_mode all = "combined"

abbrev pub components : Role → List String
components api = "api" ∷ []
components scheduler = "scheduler" ∷ "execution-reconciler" ∷ []
components dispatcher = "outbox-dispatcher" ∷ []
components worker = "stream-worker" ∷ "stream-retention-cleaner" ∷ []
components all =
    "api" ∷ "scheduler" ∷ "execution-reconciler" ∷ "outbox-dispatcher" ∷ "stream-worker"
    ∷ "stream-retention-cleaner" ∷ []
