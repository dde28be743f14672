-- ===== src/Service/ErrorText.antt =====
-- truncateWorkerError and truncateOutboxError of internal/service: the text of an error as it is
-- stored. Texts are bytes, and strings.TrimSpace is a parameter.
pub mod Characters
use chrono_flow.Common.{leb, if◌then◌else◌, Bytes, length, take, [], ◌∷◌, ◌++◌}

abbrev pub ellipsis : Bytes
ellipsis = b'.' ∷ b'.' ∷ b'.' ∷ []

unfoldable pub cut : Bytes → Bytes
cut message = if leb (length message) 2048 then message else take 2045 message ++ ellipsis

module _ (trim_space : Bytes → Bytes) where
  unfoldable pub truncate_worker_error : Bytes → Bytes
  unfolding cut
  truncate_worker_error message = cut (trim_space message)

  unfoldable pub truncate_outbox_error : Bytes → Bytes
  unfolding cut
  truncate_outbox_error message = cut (trim_space message)
