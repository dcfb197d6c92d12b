-- ===== src/Outbox/Claim/Waiting.antt =====
-- What the claim of outbox.go asks of a row, and what a lease makes of it, field by field.
use im_backend.Prelude.{
  ℕ, ◌+◌, ◌≤◌, ◌≡◌, refl, sym, subst, true, Option, none, some, some-injective, false≢true, str_eq,
  str_eq_iff, leb→le, arith, In, any-In,
}
use im_backend.Outbox.Types.{Row, OutboxWorkerConfig, is_none, milliseconds}
use im_backend.Outbox.Claim.{is_due, lease_over, lease}

-- The row waits for a worker: it is neither published nor dead, its type is one of the worker's, its
-- time has come, and no lease on it is running.
pub record IsWaiting (config : OutboxWorkerConfig) (now : ℕ) (r : Row) : Type 0 where
  pub unpublished : r.published_at ≡ none
  pub alive : r.dead_at ≡ none
  pub handled : In r.event_type config.event_types
  pub ready : r.next_attempt_at ≤ now
  pub unleased : (until : ℕ) → r.locked_until ≡ some until → until ≤ now

-- `r'` is `r` with the token, a lease until the end of its term, and one more attempt.
pub record IsLease (config : OutboxWorkerConfig) (now token : ℕ) (r r' : Row) : Type 0 where
  pub holder : r'.lock_token ≡ some token
  pub until : r'.locked_until ≡ some (now + milliseconds config.lease_duration)
  pub attempts : r'.attempt_count ≡ r.attempt_count + 1
  pub same_event : r'.event_id ≡ r.event_id
  pub same_type : r'.event_type ≡ r.event_type
  pub same_version : r'.payload_version ≡ r.payload_version
  pub same_message : r'.message_id ≡ r.message_id
  pub same_payload : r'.payload ≡ r.payload
  pub same_time : r'.next_attempt_at ≡ r.next_attempt_at
  pub same_ready : r'.ready_at ≡ r.ready_at
  pub same_created : r'.created_at ≡ r.created_at
  pub still_unpublished : r'.published_at ≡ r.published_at
  pub still_alive : r'.dead_at ≡ r.dead_at

pub is_none-none {ℓ} : {A : Type ℓ} (o : Option A) → is_none o ≡ true → o ≡ none
is_none-none none h = refl
is_none-none (some a) h = absurd (false≢true h)

over-unleased :
    (now until : ℕ) (o : Option ℕ) → lease_over now o ≡ true → o ≡ some until → until ≤ now
over-unleased now until none h e = absurd (cc)
over-unleased now until (some u) h e =
    let same = some-injective u until e in omega (arith, same, leb→le u now h)

pub due-IsWaiting :
    (config : OutboxWorkerConfig) (now : ℕ) (r : Row)
    → is_due config now r ≡ true
    → IsWaiting config now r
unfolding is_due
due-IsWaiting config now r h = record {
  unpublished = is_none-none r.published_at (ground arith);
  alive = is_none-none r.dead_at (ground arith);
  handled = handled;
  ready = leb→le r.next_attempt_at now (ground arith);
  unleased = λ until e. over-unleased now until r.locked_until (ground arith) e;
}
  where
    handled : In r.event_type config.event_types
    handled =
        let (t, m, e) = any-In (str_eq r.event_type) config.event_types (ground arith) in
        subst (λ z. In z config.event_types) (sym ((str_eq_iff r.event_type t).0 e)) m

pub lease-IsLease :
    (config : OutboxWorkerConfig) (now token : ℕ) (r : Row)
    → IsLease config now token r (lease config now token r)
unfolding lease
lease-IsLease config now token r = record {
  holder = refl;
  until = refl;
  attempts = refl;
  same_event = refl;
  same_type = refl;
  same_version = refl;
  same_message = refl;
  same_payload = refl;
  same_time = refl;
  same_ready = refl;
  same_created = refl;
  still_unpublished = refl;
  still_alive = refl;
}
