-- ===== src/Outbox/Mark/Leaves.antt =====
-- What a row of outbox_events is after a mark of outbox.go, field by field.
use im_backend.Prelude.{
  some, take, take-short, leb, leb→le, refl, sym, ap, ℕ, ◌+◌, ◌≤◌, ◌≡◌, inl, inr, true, List, none,
  arith, Bool-cases, length, In,
}
use im_backend.Outbox.Types.{Row, OutboxEvent, milliseconds}
use im_backend.Message.{Text}
use im_backend.Outbox.Claim.Waiting.{is_none-none}
use im_backend.Outbox.Mark.{owns, set_published, set_dead, set_retry, truncate_runes}

-- `r'` is the same event as `r`, with as many attempts, and nobody holds it.
pub record IsReleased (r r' : Row) : Type 0 where
  pub no_holder : r'.lock_token ≡ none
  pub no_lease : r'.locked_until ≡ none
  pub same_event : r'.event_id ≡ r.event_id
  pub same_type : r'.event_type ≡ r.event_type
  pub same_message : r'.message_id ≡ r.message_id
  pub same_payload : r'.payload ≡ r.payload
  pub same_attempts : r'.attempt_count ≡ r.attempt_count

-- The row of the table that a mark leaves for `r`.
abbrev pub Leaves : Row → List Row → (Row → Type 0) → Type 0
Leaves r rows P = (r' : Row) × In r' rows × IsReleased r r' × P r'

abbrev pub IsPublished : ℕ → Row → Type 0
IsPublished now r = (r.published_at ≡ some now) × (r.dead_at ≡ none) × (r.last_error ≡ none)

abbrev pub IsDead : ℕ → Text → Row → Type 0
IsDead now text r =
    (r.published_at ≡ none) × (r.dead_at ≡ some now) × (r.last_error ≡ some (take 2000 text))

-- Open for another attempt, at a time that is no earlier than `now` and each of the delays.
abbrev pub IsRetried : ℕ → ℕ → ℕ → Text → Row → Type 0
IsRetried now delay asked text r =
    (r.published_at ≡ none)
    × (r.dead_at ≡ none)
    × (r.last_error ≡ some (take 2000 text))
    × (now + milliseconds delay ≤ r.next_attempt_at)
    × (now + milliseconds asked ≤ r.next_attempt_at)

owns-open :
    (event : OutboxEvent) (r : Row)
    → owns event.event_id event.lock_token r ≡ true
    → (r.published_at ≡ none) × (r.dead_at ≡ none)
unfolding owns
owns-open event r h =
    (is_none-none r.published_at (ground arith), is_none-none r.dead_at (ground arith))

truncated : (text : Text) → truncate_runes text 2000 ≡ take 2000 text
unfolding truncate_runes
truncated text = elim (Bool-cases (leb (length text) 2000)) [
  | inl e ↦ rw e (sym (take-short 2000 text (leb→le (length text) 2000 e)))
  | inr e ↦ rw e refl
]

pub set_published-Leaves :
    (now : ℕ) (event : OutboxEvent) (r : Row) (rows : List Row)
    → owns event.event_id event.lock_token r ≡ true
    → In (set_published now r) rows
    → Leaves r rows (IsPublished now)
unfolding set_published
set_published-Leaves now event r rows h m = (
  set_published now r,
  m,
  record {
    no_holder = refl;
    no_lease = refl;
    same_event = refl;
    same_type = refl;
    same_message = refl;
    same_payload = refl;
    same_attempts = refl;
  },
  (refl, (owns-open event r h).1, refl),
)

pub set_dead-Leaves :
    (now : ℕ) (text : Text) (event : OutboxEvent) (r : Row) (rows : List Row)
    → owns event.event_id event.lock_token r ≡ true
    → In (set_dead now (truncate_runes text 2000) r) rows
    → Leaves r rows (IsDead now text)
unfolding set_dead
set_dead-Leaves now text event r rows h m = (
  set_dead now (truncate_runes text 2000) r,
  m,
  record {
    no_holder = refl;
    no_lease = refl;
    same_event = refl;
    same_type = refl;
    same_message = refl;
    same_payload = refl;
    same_attempts = refl;
  },
  ((owns-open event r h).0, refl, ap some (truncated text)),
)

pub set_retry-Leaves :
    (now at delay asked : ℕ) (text : Text) (event : OutboxEvent) (r : Row) (rows : List Row)
    → owns event.event_id event.lock_token r ≡ true
    → now + milliseconds delay ≤ at
    → now + milliseconds asked ≤ at
    → In (set_retry at (truncate_runes text 2000) r) rows
    → Leaves r rows (IsRetried now delay asked text)
unfolding set_retry
set_retry-Leaves now at delay asked text event r rows h p q m = (
  set_retry at (truncate_runes text 2000) r,
  m,
  record {
    no_holder = refl;
    no_lease = refl;
    same_event = refl;
    same_type = refl;
    same_message = refl;
    same_payload = refl;
    same_attempts = refl;
  },
  ((owns-open event r h).0, (owns-open event r h).1, ap some (truncated text), p, q),
)
