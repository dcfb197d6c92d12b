-- ===== src/Outbox/Mark.antt =====
-- outbox.go: markPublished, markPublishedBatch, markFailed, truncateRunes and cleanupPublished. An
-- UPDATE is a map over the rows that its WHERE selects; the count of affected rows decides whether
-- the lease was still held.
pub mod Fencing
pub mod Leaves
pub mod Owner
use im_backend.Prelude.{
  ℕ, ◌+◌, Bool, ◌&&◌, ◌||◌, List, [], ◌∷◌, map, Option, none, some, ltb, leb, ◌==◌, if◌then◌else◌,
  keep, take, any, length,
}
use im_backend.Message.{Text}
use im_backend.Outbox.Types.{
  Row, OutboxEvent, OutboxWorkerConfig, PublishError, error_text, is_permanent, retry_after, Reply,
  served, refused, lost, StateError, lease_lost, db_error, is_none, holds, milliseconds,
}
use im_backend.Outbox.Backoff.{retry_delay}

unfoldable pub truncate_runes : Text → ℕ → Text
truncate_runes value limit = if leb (length value) limit then value else take limit value

-- WHERE event_id = $1 AND lock_token = $2 AND published_at IS NULL AND dead_at IS NULL
unfoldable pub owns : ℕ → ℕ → Row → Bool
owns id token r =
    (r.event_id == id) && holds token r.lock_token && is_none r.published_at && is_none r.dead_at

unfoldable pub update_where : (Row → Bool) → (Row → Row) → List Row → List Row
update_where test change = map λ r. if test r then change r else r

-- An UPDATE that has to affect `wanted` rows.
unfoldable pub exec_update :
    (Row → Bool) → (Row → Row) → ℕ → Reply → List Row → List Row × Option StateError
unfolding update_where
exec_update test change wanted served rows = (
  update_where test change rows,
  if length (keep test rows) == wanted then none else some lease_lost,
)
exec_update test change wanted refused rows = (rows, some db_error)
exec_update test change wanted lost rows = (update_where test change rows, some db_error)

unfoldable pub set_published : ℕ → Row → Row
set_published now r = record r {
  locked_until = none;
  lock_token = none;
  published_at = some now;
  last_error = none;
}

unfoldable pub set_dead : ℕ → Text → Row → Row
set_dead now text r = record r {
  locked_until = none;
  lock_token = none;
  dead_at = some now;
  last_error = some text;
}

unfoldable pub set_retry : ℕ → Text → Row → Row
set_retry at text r = record r {
  next_attempt_at = at;
  locked_until = none;
  lock_token = none;
  last_error = some text;
}

unfoldable pub mark_published : Reply → ℕ → OutboxEvent → List Row → List Row × Option StateError
mark_published reply now event =
    exec_update (owns event.event_id event.lock_token) (set_published now) 1 reply

-- The row is named, with its token, by one of the events.
unfoldable pub claimed_by : List OutboxEvent → Row → Bool
claimed_by events r = any (λ e. owns e.event_id e.lock_token r) events

unfoldable pub mark_published_batch :
    Reply → ℕ → List OutboxEvent → List Row → List Row × Option StateError
mark_published_batch reply now [] rows = (rows, none)
mark_published_batch reply now (e ∷ events) rows =
    exec_update (claimed_by (e ∷ events)) (set_published now) (length (e ∷ events)) reply rows

unfoldable pub gives_up : OutboxWorkerConfig → OutboxEvent → PublishError → Bool
gives_up config event error = is_permanent error || leb config.max_attempts event.attempt_count

-- retryDelay, or the publisher's own delay where that is longer.
unfoldable pub failure_delay : OutboxWorkerConfig → (ℕ → ℕ) → OutboxEvent → PublishError → ℕ
failure_delay config jitter event error =
    let delay = retry_delay config jitter event.attempt_count in
    if ltb delay (retry_after error) then retry_after error else delay

unfoldable pub mark_failed :
    OutboxWorkerConfig
    → (ℕ → ℕ)
    → Reply
    → ℕ
    → OutboxEvent
    → PublishError
    → List Row
    → List Row × Option StateError
unfolding gives_up failure_delay
mark_failed config jitter reply now event error =
    let text = truncate_runes (error_text error) 2000 in
    if gives_up config event error
    then exec_update (owns event.event_id event.lock_token) (set_dead now text) 1 reply
    else exec_update (owns event.event_id event.lock_token)
        (set_retry (now + milliseconds (failure_delay config jitter event error)) text) 1 reply
