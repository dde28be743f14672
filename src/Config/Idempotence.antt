-- ===== src/Config/Idempotence.antt =====
-- internal/config/config.go: normalising a configuration twice.
use chrono_flow.Common.{
  if◌then◌else◌, Bool-cases, ltb_ℤ, ℤ, pos, ◌*◌, String, ◌≡◌, refl, ◌⊎◌, inl, inr, Bool, true,
  false, List, [], ◌∷◌, str_eq,
}
use chrono_flow.Config.{
  normalize_scheduler_config, normalize_outbox_config, normalize_security_config, SchedulerConfig,
  OutboxConfig, SecurityConfig,
}

-- A setting that is replaced by a default when it is below a limit.
abbrev clamp : ℤ → ℤ → ℤ → ℤ
clamp limit default n = if ltb_ℤ n limit then default else n

clamp_again :
    (limit default n : ℤ)
    → ltb_ℤ default limit ≡ false
    → clamp limit default (clamp limit default n) ≡ clamp limit default n
clamp_again limit default n h = elim (Bool-cases (ltb_ℤ n limit)) [
  | inl t ↦ rw (t, h) refl
  | inr t ↦ rw (t, t) refl
]

default_text :
    (text default : String)
    → (if str_eq (if str_eq text "" then default else text) ""
        then default
        else (if str_eq text "" then default else text))
      ≡ (if str_eq text "" then default else text)
default_text text default = elim (Bool-cases (str_eq text "")) [
  | inl t ↦ rw t (either (str_eq default ""))
  | inr t ↦ rw (t, t) refl
]
  where
    either : (b : Bool) → (if b then default else default) ≡ default
    either true = refl
    either false = refl

scheduler_again :
    (cfg : SchedulerConfig)
    → normalize_scheduler_config (normalize_scheduler_config cfg) ≡ normalize_scheduler_config cfg
unfolding normalize_scheduler_config
scheduler_again cfg =
    rw
      (
        clamp_again (pos 10) (pos 500) cfg.poll_interval_ms refl,
        clamp_again (pos 1) (pos 100) cfg.batch_size refl,
        clamp_again (pos 0) (pos 0) cfg.misfire_grace_seconds refl,
        clamp_again (pos 1) (pos 10) cfg.default_max_catch_up refl,
      )
      refl

outbox_again :
    (cfg : OutboxConfig)
    → normalize_outbox_config (normalize_outbox_config cfg) ≡ normalize_outbox_config cfg
unfolding normalize_outbox_config
outbox_again cfg =
    rw
      (
        clamp_again (pos 10) (pos 200) cfg.poll_interval_ms refl,
        clamp_again (pos 1) (pos 100) cfg.batch_size refl,
        clamp_again (pos 1) (pos 30) cfg.claim_ttl_seconds refl,
        clamp_again (pos 1) (pos 30) cfg.max_backoff_seconds refl,
        default_text cfg.stream "chronoflow:execution:ready",
        default_text cfg.consumer_group "chronoflow-workers",
        clamp_again (pos 0) (pos 0) cfg.stream_max_len refl,
      )
      refl

security_again :
    (cfg : SecurityConfig)
    → normalize_security_config (normalize_security_config cfg) ≡ normalize_security_config cfg
unfolding normalize_security_config
security_again cfg = elim (list_cases cfg.allowed_origins) [
  | inl e ↦ rw (e, clamp_again (pos 1) (pos (1024 * 1024)) cfg.max_request_bytes refl) refl
  | inr (o, os, e) ↦ rw (e, clamp_again (pos 1) (pos (1024 * 1024)) cfg.max_request_bytes refl) refl
]
  where
    list_cases :
        (os : List String) → (os ≡ []) ⊎ ((x : String) × (xs : List String) × (os ≡ x ∷ xs))
    list_cases [] = inl refl
    list_cases (x ∷ xs) = inr (x, xs, refl)

-- Normalising the settings of the scheduler, of the dispatcher or of the API a second time changes
-- nothing.
normalization_again :
    (scheduler : SchedulerConfig) (outbox : OutboxConfig) (security : SecurityConfig)
    → (normalize_scheduler_config (normalize_scheduler_config scheduler)
        ≡ normalize_scheduler_config scheduler)
      × (normalize_outbox_config (normalize_outbox_config outbox) ≡ normalize_outbox_config outbox)
      × (normalize_security_config (normalize_security_config security)
          ≡ normalize_security_config security)
normalization_again scheduler outbox security =
    (scheduler_again scheduler, outbox_again outbox, security_again security)
