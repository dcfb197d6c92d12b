-- ===== src/Messages/Database.antt =====
-- message_store.go and schema.sql: the tables users, conversations, conversation_members, messages
-- and outbox_events as the message service sees them. A generated key is the next number of its
-- table; `started` is CURRENT_TIMESTAMP and `clock` is clock_timestamp(). A direct conversation has its two users; a group has none.
use im_backend.Prelude.{ℕ, List, Option}
use im_backend.Message.{Message}
use im_backend.Outbox.Types.{Row}

pub record Conversation : Type 0 where
  pub id : ℕ
  pub direct_users : Option (ℕ × ℕ)
  pub last_seq : ℕ
  pub updated_at : ℕ

pub record Member : Type 0 where
  pub conversation_id : ℕ
  pub user_id : ℕ

pub record Database : Type 0 where
  pub users : List ℕ
  pub conversations : List Conversation
  pub members : List Member
  pub messages : List Message
  pub outbox : List Row
  pub next_conversation_id : ℕ
  pub next_message_id : ℕ
  pub next_event_id : ℕ
  pub started : ℕ
  pub clock : ℕ

-- The result of a query: a row, no row (pgx.ErrNoRows), or an error of the database.
pub data DatabaseError : Type 0 where
  foreign_key_violation check_violation unreachable : DatabaseError

pub data Sql {ℓ} (A : Type ℓ) : Type ℓ where
  row : A → Sql A
  no_rows : Sql A
  failed : DatabaseError → Sql A
