-- ===== src/Outbox/Samples.antt =====
-- Rows, events and a configuration that the tests of the outbox share.
use im_backend.Prelude.{refl, ℕ, ◌-◌, Bool, false, [], ◌∷◌, none, some}
use im_backend.Outbox.Types.{Row, OutboxEvent, OutboxWorkerConfig}
use im_backend.Outbox.Claim.Sound.{UniqueIds}

-- The defaults of defaultOutboxWorkerConfig, in nanoseconds.
abbrev pub defaults : OutboxWorkerConfig
defaults = record {
  event_types = "message.created" ∷ [];
  batch_size = 64;
  concurrency = 16;
  lease_duration = 30_000_000_000;
  attempt_timeout = 10_000_000_000;
  poll_interval = 500_000_000;
  max_attempts = 10;
  base_backoff = 1_000_000_000;
  max_backoff = 300_000_000_000;
}

abbrev pub ready_row : Row
ready_row = record {
  event_id = 5;
  event_type = "message.created";
  payload_version = 4;
  message_id = 7;
  payload = none;
  attempt_count = 0;
  next_attempt_at = 100;
  locked_until = none;
  lock_token = none;
  ready_at = some 100;
  published_at = none;
  dead_at = none;
  last_error = none;
  created_at = 100;
}

-- The token that the n-th statement draws for the event `e`.
abbrev pub numbered : ℕ → ℕ → ℕ
numbered n e = n

abbrev pub held_row : Row
held_row = record ready_row { attempt_count = 1; locked_until = some 30200; lock_token = some 0 }

abbrev pub held_event : OutboxEvent
held_event = record {
  event_id = 5;
  event_type = "message.created";
  payload_version = 4;
  message_id = 7;
  payload = none;
  attempt_count = 1;
  lock_token = 0;
  ready_at = some 100;
}

abbrev pub nobody : ℕ → Bool
nobody id = false

abbrev pub half_up : ℕ → ℕ
half_up n = n - 1

abbrev pub one_place : OutboxWorkerConfig
one_place = record defaults { batch_size = 1 }

abbrev pub later_row : Row
later_row = record ready_row { event_id = 6; next_attempt_at = 150 }

abbrev pub ids : UniqueIds (later_row ∷ ready_row ∷ [])
ids = (refl, (refl, tt))
