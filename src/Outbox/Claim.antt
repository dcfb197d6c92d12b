-- ===== src/Outbox/Claim.antt =====
-- outbox.go: claimLimit and claim. The rows that other transactions hold locked are a parameter,
-- which SKIP LOCKED leaves out; `uuid n e` is what gen_random_uuid() gives to the row of the event
-- `e` in the n-th claim statement that the database runs.
pub mod Waiting
pub mod Sound
pub mod First
use im_backend.Prelude.{
  ℕ, ◌+◌, min, Bool, true, false, ◌&&◌, not, List, [], ◌∷◌, map, Option, none, some, ltb, leb, ◌==◌,
  if◌then◌else◌, str_eq, keep, take, any, sort_by,
}
use im_backend.Outbox.Types.{
  Row, OutboxEvent, OutboxWorkerConfig, Reply, served, refused, lost, is_none, milliseconds,
}

unfoldable pub claim_limit : OutboxWorkerConfig → ℕ
claim_limit config = min config.batch_size config.concurrency

-- locked_until IS NULL OR locked_until <= CURRENT_TIMESTAMP
abbrev pub lease_over : ℕ → Option ℕ → Bool
lease_over now none = true
lease_over now (some until) = leb until now

unfoldable pub is_due : OutboxWorkerConfig → ℕ → Row → Bool
is_due config now r =
    is_none r.published_at
    && is_none r.dead_at
    && any (str_eq r.event_type) config.event_types
    && leb r.next_attempt_at now
    && lease_over now r.locked_until

-- ORDER BY next_attempt_at, created_at, event_id
unfoldable pub before : Row → Row → Bool
before a b =
    if ltb a.next_attempt_at b.next_attempt_at
    then true
    else if ltb b.next_attempt_at a.next_attempt_at
    then false
    else if ltb a.created_at b.created_at
    then true
    else if ltb b.created_at a.created_at
    then false
    else leb a.event_id b.event_id

unfoldable pub is_available : OutboxWorkerConfig → (ℕ → Bool) → ℕ → Row → Bool
is_available config locked now r = is_due config now r && not (locked r.event_id)

unfoldable pub candidates : OutboxWorkerConfig → (ℕ → Bool) → ℕ → List Row → List Row
candidates config locked now rows =
    take (claim_limit config) (sort_by before (keep (is_available config locked now) rows))

unfoldable pub chosen : List Row → Row → Bool
chosen picked r = any (λ p. p.event_id == r.event_id) picked

unfoldable pub lease : OutboxWorkerConfig → ℕ → ℕ → Row → Row
lease config now token r = record r {
  attempt_count = r.attempt_count + 1;
  locked_until = some (now + milliseconds config.lease_duration);
  lock_token = some token;
}

unfoldable pub claimed_event : ℕ → Row → OutboxEvent
claimed_event token r = record {
  event_id = r.event_id;
  event_type = r.event_type;
  payload_version = r.payload_version;
  message_id = r.message_id;
  payload = r.payload;
  attempt_count = r.attempt_count + 1;
  lock_token = token;
  ready_at = r.ready_at;
}

-- The table after the claim statement, and the rows that it returns.
unfoldable pub lease_rows : OutboxWorkerConfig → (ℕ → ℕ) → ℕ → List Row → List Row → List Row
lease_rows config token now picked =
    map λ r. if chosen picked r then lease config now (token r.event_id) r else r

unfoldable pub claimed_events : (ℕ → ℕ) → List Row → List Row → List OutboxEvent
claimed_events token picked rows =
    map (λ r. claimed_event (token r.event_id) r) (keep (chosen picked) rows)

-- `none` is an error of the query. A result that is lost leaves its leases behind.
unfoldable pub claim :
    OutboxWorkerConfig
    → (ℕ → ℕ)
    → (ℕ → Bool)
    → Reply
    → ℕ
    → List Row
    → List Row × Option (List OutboxEvent)
claim config token locked served now rows =
    let picked = candidates config locked now rows in
    (lease_rows config token now picked rows, some (claimed_events token picked rows))
claim config token locked refused now rows = (rows, none)
claim config token locked lost now rows =
    (lease_rows config token now (candidates config locked now rows) rows, none)
