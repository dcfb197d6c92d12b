-- ===== src/Sync/Ack.antt =====
-- sync_ack.go: acknowledgeConversation and the table device_conversation_sync_states.
pub mod Cursor
pub mod Bound
use im_backend.Prelude.{
  ok, err, refuse_if, ◌>>=◌, ◌>>◌, ℕ, Bool, ◌&&◌, List, [], ◌∷◌, Option, none, some, ltb, ◌==◌,
  if◌then◌else◌, max, find,
}
use im_backend.Prelude.Int.{ℤ, natural}
use im_backend.Message.{Text}
use im_backend.Messages.Database.{Database}
use im_backend.Sync.Request.{
  Response, internal_error, cursor_ahead, invalid_json, invalid_ack, parse_conversation_id,
}
use im_backend.Sync.Page.{read_cursor}

pub record SyncState : Type 0 where
  pub user_id : ℕ
  pub device_id : ℕ
  pub conversation_id : ℕ
  pub applied_seq : ℕ
  pub updated_at : ℕ

unfoldable pub is_state_of : ℕ → ℕ → ℕ → SyncState → Bool
is_state_of user device conversation s =
    (s.user_id == user) && (s.device_id == device) && (s.conversation_id == conversation)

-- SET applied_seq = GREATEST(…), updated_at = GREATEST(…)
unfoldable pub raise : ℕ → ℕ → SyncState → SyncState
raise cursor now s = record s {
  applied_seq = max s.applied_seq cursor;
  updated_at = max s.updated_at now;
}

abbrev pub first_state : ℕ → ℕ → ℕ → ℕ → ℕ → SyncState
first_state user device conversation cursor now = record {
  user_id = user;
  device_id = device;
  conversation_id = conversation;
  applied_seq = cursor;
  updated_at = now;
}

-- INSERT … ON CONFLICT (user_id, device_id, conversation_id) DO UPDATE … RETURNING: the table after
-- the statement, and the row.
unfoldable pub upsert : ℕ → ℕ → ℕ → ℕ → ℕ → List SyncState → List SyncState × SyncState
upsert user device conversation cursor now [] = (
  first_state user device conversation cursor now ∷ [],
  first_state user device conversation cursor now,
)
upsert user device conversation cursor now (s ∷ rest) =
    let (later, written) = upsert user device conversation cursor now rest in
    if is_state_of user device conversation s
    then (raise cursor now s ∷ rest, raise cursor now s)
    else (s ∷ later, written)

-- The body as decodeSingleJSON leaves it: none where it is not the expected JSON; `cursor` may be
-- absent.
abbrev pub Body : Type 0
Body = Option (Option ℤ)

abbrev given_cursor : Option ℤ → Response ℕ
given_cursor none = err invalid_ack
given_cursor (some n) = elim (natural n) [ none ↦ err invalid_ack | some k ↦ ok k ]

unfoldable pub read_body : Body → Response ℕ
read_body none = err invalid_json
read_body (some cursor) = given_cursor cursor

-- The checks before the write; `db` is what their statement sees.
unfoldable pub checked_ack : ℕ → Text → Body → Option Database → Response (ℕ × ℕ)
unfolding read_body
checked_ack user path body db = do
  conversation ← parse_conversation_id path
  cursor ← read_body body
  current ← read_cursor user conversation db
  refuse_if (ltb current cursor) cursor_ahead
  ok (conversation, cursor)

-- `write_fails` is an error of the write, which changes nothing.
unfoldable pub write_ack :
    ℕ → ℕ → Bool → ℕ → List SyncState → Response (ℕ × ℕ) → List SyncState × Response SyncState
unfolding upsert
write_ack user device write_fails now table (err e) = (table, err e)
write_ack user device write_fails now table (ok (conversation, cursor)) =
    if write_fails
    then (table, err internal_error)
    else let (later, written) = upsert user device conversation cursor now table in
      (later, ok written)

unfoldable pub acknowledge_conversation :
    ℕ
    → ℕ
    → Text
    → Body
    → Option Database
    → Bool
    → ℕ
    → List SyncState
    → List SyncState × Response SyncState
unfolding write_ack checked_ack
acknowledge_conversation user device path body db write_fails now table =
    write_ack user device write_fails now table (checked_ack user path body db)
