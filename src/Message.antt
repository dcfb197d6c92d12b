-- ===== src/Message.antt =====
-- The message and the payload of a message.created event: main.go (message), websocket.go
-- (messageEventRecipient, messageCreatedEventPayload). Ids, sequences and times are numbers; a text
-- is the list of its runes.
use im_backend.Prelude.{ℕ, List}

abbrev pub Text : Type 0
Text = List ℕ

pub record Message : Type 0 where
  pub id : ℕ
  pub conversation_id : ℕ
  pub conversation_seq : ℕ
  pub client_message_id : Text
  pub sender_id : ℕ
  pub receiver_id : ℕ
  pub content : Text
  pub created_at : ℕ

pub record MessageEventRecipient : Type 0 where
  pub user_id : ℕ
  pub cursor : ℕ

pub record MessageCreatedEventPayload : Type 0 where
  pub message : Message
  pub recipients : List MessageEventRecipient
