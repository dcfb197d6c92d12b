-- ===== src/Outbox/Types.antt =====
-- outbox.go and schema.sql: the rows of outbox_events, the claimed events, the configuration, the
-- failures of a publication, and what one statement of the database may do. An event type is a
-- String, a UUID a number, a time of the database a number of milliseconds, and a Go duration a
-- number of nanoseconds. A payload is `none` where its JSON does not decode.
use im_backend.Prelude.{ℕ, ◌/◌, Bool, true, false, String, List, Option, none, some, ◌==◌}
use im_backend.Message.{Text, MessageCreatedEventPayload}

pub record Row : Type 0 where
  pub event_id : ℕ
  pub event_type : String
  pub payload_version : ℕ
  pub message_id : ℕ
  pub payload : Option MessageCreatedEventPayload
  pub attempt_count : ℕ
  pub next_attempt_at : ℕ
  pub locked_until : Option ℕ
  pub lock_token : Option ℕ
  pub ready_at : Option ℕ
  pub published_at : Option ℕ
  pub dead_at : Option ℕ
  pub last_error : Option Text
  pub created_at : ℕ

pub record OutboxEvent : Type 0 where
  pub event_id : ℕ
  pub event_type : String
  pub payload_version : ℕ
  pub message_id : ℕ
  pub payload : Option MessageCreatedEventPayload
  pub attempt_count : ℕ
  pub lock_token : ℕ
  pub ready_at : Option ℕ

pub record OutboxWorkerConfig : Type 0 where
  pub event_types : List String
  pub batch_size : ℕ
  pub concurrency : ℕ
  pub lease_duration : ℕ
  pub attempt_timeout : ℕ
  pub poll_interval : ℕ
  pub max_attempts : ℕ
  pub base_backoff : ℕ
  pub max_backoff : ℕ

-- An error of `Publish`: a `publishFailure` anywhere in its chain, or none.
pub data PublishError : Type 0 where
  plain : Text → PublishError
  failure : Text → Bool → ℕ → PublishError

abbrev pub error_text : PublishError → Text
error_text (plain t) = t
error_text (failure t _ _) = t

abbrev pub is_permanent : PublishError → Bool
is_permanent (plain _) = false
is_permanent (failure _ p _) = p

abbrev pub retry_after : PublishError → ℕ
retry_after (plain _) = 0
retry_after (failure _ _ d) = d

-- What becomes of one statement: it runs and its result arrives; it fails and changes nothing; or
-- it runs and the connection fails before the result arrives.
pub data Reply : Type 0 where
  served refused lost : Reply

pub data StateError : Type 0 where
  lease_lost db_error : StateError

abbrev pub is_none {ℓ} : {A : Type ℓ} → Option A → Bool
is_none none = true
is_none (some _) = false

abbrev pub milliseconds : ℕ → ℕ
milliseconds d = d / 1_000_000

abbrev pub holds : ℕ → Option ℕ → Bool
holds t none = false
holds t (some u) = u == t

pub data WorkerConfigError : Type 0 where
  no_event_types bad_counts bad_durations timeout_not_shorter backoff_reversed : WorkerConfigError
