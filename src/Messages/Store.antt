-- ===== src/Messages/Store.antt =====
-- message_store.go: the statements of one transaction. Each is a function of the database that the
-- transaction sees.
use im_backend.Prelude.{
  ℕ, suc, ◌+◌, max, Bool, true, false, ◌&&◌, not, List, [], ◌∷◌, ◌++◌, map, Option, none, some, leb,
  ◌==◌, if◌then◌else◌, length, any, find,
}
use im_backend.Message.{Text, Message, MessageCreatedEventPayload}
use im_backend.Outbox.Types.{Row}
use im_backend.Messages.Database.{
  Conversation, Database, foreign_key_violation, check_violation, Sql, row, no_rows, failed,
}

unfoldable pub text_eq : Text → Text → Bool
text_eq [] [] = true
text_eq [] (_ ∷ _) = false
text_eq (_ ∷ _) [] = false
text_eq (a ∷ s) (b ∷ t) = (a == b) && text_eq s t

-- WHERE sender_id = $1 AND client_message_id = $2
unfoldable pub has_key : ℕ → Text → Message → Bool
has_key sender client_id m = (m.sender_id == sender) && text_eq m.client_message_id client_id

unfoldable pub find_idempotent_message : ℕ → Text → Database → Option Message
find_idempotent_message sender client_id db = find (has_key sender client_id) db.messages

unfoldable pub is_direct : ℕ → ℕ → Conversation → Bool
is_direct low high c = elim c.direct_users [
  | none ↦ false
  | some (l, h) ↦ (l == low) && (h == high)
]

unfoldable pub find_direct : ℕ → ℕ → Database → Option Conversation
find_direct low high db = find (is_direct low high) db.conversations

abbrev pub is_user : Database → ℕ → Bool
is_user db u = any (λ v. v == u) db.users

unfoldable pub new_conversation : ℕ → ℕ → Database → Conversation
new_conversation low high db = record {
  id = db.next_conversation_id;
  direct_users = some (low, high);
  last_seq = 0;
  updated_at = db.started;
}

-- INSERT INTO conversations … ON CONFLICT (direct_user_low_id, direct_user_high_id) DO NOTHING
unfoldable pub insert_conversation : ℕ → ℕ → Database → Sql ℕ × Database
insert_conversation low high db = elim (find_direct low high db) [
  | some _ ↦ (no_rows, db)
  | none ↦
      if is_user db low && is_user db high
      then (
        row db.next_conversation_id,
        record db {
          conversations = new_conversation low high db ∷ db.conversations;
          next_conversation_id = suc db.next_conversation_id;
        },
      )
      else (failed foreign_key_violation, db)
]

-- SELECT DISTINCT user_id FROM unnest(…)
abbrev pub participants : ℕ → ℕ → List ℕ
participants sender receiver = if sender == receiver then sender ∷ [] else sender ∷ receiver ∷ []

unfoldable pub insert_conversation_members : ℕ → ℕ → ℕ → Database → Sql (Unit {0}) × Database
insert_conversation_members conversation sender receiver db =
    if is_user db sender && is_user db receiver
    then (
      row tt,
      record db {
        members =
            map (λ u. record { conversation_id = conversation; user_id = u })
              (participants sender receiver)
            ++ db.members;
      },
    )
    else (failed foreign_key_violation, db)

-- UPDATE conversations SET last_seq = last_seq + 1, updated_at = GREATEST(…) WHERE id = $1
unfoldable pub allocate : ℕ → Conversation → Conversation
allocate now c = record c { last_seq = c.last_seq + 1; updated_at = max c.updated_at now }

unfoldable pub allocate_in : ℕ → ℕ → List Conversation → List Conversation
allocate_in id now = map λ c. if c.id == id then allocate now c else c

unfoldable pub created_message : Database → Conversation → ℕ → ℕ → Text → Text → Message
created_message db c sender receiver client_id content = record {
  id = db.next_message_id;
  conversation_id = c.id;
  conversation_seq = c.last_seq + 1;
  client_message_id = client_id;
  sender_id = sender;
  receiver_id = receiver;
  content = content;
  created_at = max c.updated_at db.clock;
}

unfoldable pub event_payload : Message → MessageCreatedEventPayload
event_payload m = record {
  message = m;
  recipients =
      map (λ u. record { user_id = u; cursor = 0 }) (participants m.sender_id m.receiver_id);
}

-- The event of the message: version 4, ready, not locked, not finished.
unfoldable pub created_event : ℕ → ℕ → Message → Row
created_event id now m = record {
  event_id = id;
  event_type = "message.created";
  payload_version = 4;
  message_id = m.id;
  payload = some (event_payload m);
  attempt_count = 0;
  next_attempt_at = now;
  locked_until = none;
  lock_token = none;
  ready_at = some m.created_at;
  published_at = none;
  dead_at = none;
  last_error = none;
  created_at = now;
}

-- The checks of the table messages: char_length counts characters.
unfoldable pub passes_checks : Text → Text → Bool
passes_checks client_id content =
    leb 16 (length client_id)
    && leb (length client_id) 128
    && leb 1 (length content)
    && leb (length content) 4000

unfoldable pub write_message : Database → Conversation → Message → Database
write_message db c m = record db {
  conversations = allocate_in c.id db.clock db.conversations;
  messages = m ∷ db.messages;
  outbox = created_event db.next_event_id db.started m ∷ db.outbox;
  next_message_id = suc db.next_message_id;
  next_event_id = suc db.next_event_id;
}

abbrev pub find_conversation : ℕ → Database → Option Conversation
find_conversation id db = find (λ c. c.id == id) db.conversations

-- ON CONFLICT (sender_id, client_message_id) DO NOTHING: where the key is taken only the allocation
-- of the sequence is left, until the rollback.
unfoldable pub write_or_conflict :
    Conversation → Message → Option Message → Database → Sql Message × Database
write_or_conflict c m (some _) db =
    (no_rows, record db { conversations = allocate_in c.id db.clock db.conversations })
write_or_conflict c m none db = (row m, write_message db c m)

unfoldable pub insert_in : Conversation → ℕ → ℕ → Text → Text → Database → Sql Message × Database
insert_in c sender receiver client_id content db =
    if not (passes_checks client_id content)
    then (failed check_violation, db)
    else if not (is_user db sender && is_user db receiver)
    then (failed foreign_key_violation, db)
    else write_or_conflict c (created_message db c sender receiver client_id content)
        (find_idempotent_message sender client_id db) db

-- The one statement that allocates the sequence and writes the message and its event.
unfoldable pub insert_message_and_outbox :
    ℕ → ℕ → ℕ → Text → Text → Database → Sql Message × Database
insert_message_and_outbox conversation sender receiver client_id content db =
    elim (find_conversation conversation db) [
      | none ↦ (no_rows, db)
      | some c ↦ insert_in c sender receiver client_id content db
    ]
