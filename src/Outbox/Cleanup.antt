-- ===== src/Outbox/Cleanup.antt =====
-- outbox.go: cleanupPublished, and newOutboxWorker's checks of the configuration.
use im_backend.Prelude.{
  ℕ, zero, suc, Bool, true, false, ◌||◌, not, List, Option, none, some, ltb, leb, ◌==◌,
  if◌then◌else◌, keep, take, any, length, sort_by,
}
use im_backend.Outbox.Types.{
  Row, OutboxWorkerConfig, WorkerConfigError, no_event_types, bad_counts, bad_durations,
  timeout_not_shorter, backoff_reversed,
}

-- published_at IS NOT NULL AND published_at < $1
unfoldable pub published_before : ℕ → Row → Bool
published_before older_than r = elim r.published_at [ none ↦ false | some at ↦ ltb at older_than ]

abbrev publication : Row → ℕ
publication r = elim r.published_at [ none ↦ 0 | some at ↦ at ]

-- ORDER BY published_at, event_id
pub published_order : Row → Row → Bool
published_order a b =
    if ltb (publication a) (publication b)
    then true
    else if ltb (publication b) (publication a)
    then false
    else leb a.event_id b.event_id

unfoldable pub doomed : ℕ → ℕ → List Row → List Row
doomed older_than batch_size rows =
    take batch_size (sort_by published_order (keep (published_before older_than) rows))

abbrev pub named_in : List Row → Row → Bool
named_in picked r = any (λ d. d.event_id == r.event_id) picked

-- `none` is the refusal of a batch size that is not positive; the number counts the rows deleted.
unfoldable pub cleanup_published : ℕ → ℕ → List Row → Option (List Row × ℕ)
cleanup_published older_than zero rows = none
cleanup_published older_than (suc n) rows =
    let dead = doomed older_than (suc n) rows in
    some (keep (λ r. not (named_in dead r)) rows, length (keep (named_in dead) rows))

pub check_config : OutboxWorkerConfig → Option WorkerConfigError
check_config c =
    if length c.event_types == 0
    then some no_event_types
    else if c.batch_size == 0 || c.concurrency == 0 || c.max_attempts == 0
    then some bad_counts
    else if c.lease_duration == 0
        || c.attempt_timeout == 0
        || c.poll_interval == 0
        || c.base_backoff == 0
        || c.max_backoff == 0
    then some bad_durations
    else if leb c.lease_duration c.attempt_timeout
    then some timeout_not_shorter
    else if ltb c.max_backoff c.base_backoff
    then some backoff_reversed
    else none
