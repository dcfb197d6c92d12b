-- ===== src/Messages/Samples.antt =====
-- Small databases: an empty one, and one with a conversation of two messages.
use im_backend.Prelude.{refl, [], ◌∷◌, codes, arith}
use im_backend.Message.{Message}
use im_backend.Messages.Command.{ValidCommand}
use im_backend.Messages.Database.{Database}
use im_backend.Messages.Store.{
  insert_conversation, insert_conversation_members, insert_message_and_outbox, find_direct,
  insert_in, passes_checks, write_or_conflict, find_idempotent_message, created_message,
  write_message, allocate_in, allocate, has_key, text_eq, new_conversation,
}
use im_backend.Messages.Consistency.{IsConsistent}
use im_backend.Messages.Consistency.Conversations.{
  insert_conversation-IsConsistent, insert_members-IsConsistent,
}
use im_backend.Messages.Outcome.{insert-Inserted}

abbrev pub empty : Database
empty = record {
  users = 1 ∷ 2 ∷ [];
  conversations = [];
  members = [];
  messages = [];
  outbox = [];
  next_conversation_id = 1;
  next_message_id = 1;
  next_event_id = 1;
  started = 10;
  clock = 11;
}

abbrev pub hello : ValidCommand
hello = record {
  sender = 1;
  receiver = 2;
  client_id = codes "0123456789abcdef";
  text = codes "hello";
}

pub empty-IsConsistent : IsConsistent empty
empty-IsConsistent = record {
  no_gaps = λ c k i. absurd i.1;
  placed = λ m i. absurd i.1;
  one_per_seq = λ m n i. absurd i.1;
  one_per_key = λ m n i. absurd i.1;
  conversation_ids = tt;
  ids_below = λ c i. absurd i.1;
  message_ids = tt;
  message_ids_below = λ m i. absurd i.1;
  message_ids_from_one = λ m i. absurd i.1;
  next_from_one = omega arith;
}

unfoldable pub with_members : Database
unfolding insert_conversation insert_conversation_members
with_members = (insert_conversation_members 1 1 2 (insert_conversation 1 2 empty).1).1

with_members-IsConsistent : IsConsistent with_members
unfolding with_members
with_members-IsConsistent =
    insert_members-IsConsistent 1 1 2 _
      (insert_conversation-IsConsistent 1 2 empty empty-IsConsistent)

abbrev pub reply : ValidCommand
reply = record {
  sender = 2;
  receiver = 1;
  client_id = codes "fedcba9876543210";
  text = codes "hello to you";
}

unfoldable pub after_sending : ValidCommand → Database → Database
unfolding insert_message_and_outbox
after_sending c db = (insert_message_and_outbox 1 c.sender c.receiver c.client_id c.text db).1

unfoldable pub with_two : Database
unfolding after_sending with_members
with_two = after_sending reply (after_sending hello with_members)

abbrev pub first_message : Message
first_message = record {
  id = 1;
  conversation_id = 1;
  conversation_seq = 1;
  client_message_id = codes "0123456789abcdef";
  sender_id = 1;
  receiver_id = 2;
  content = codes "hello";
  created_at = 11;
}

abbrev pub second_message : Message
second_message = record {
  id = 2;
  conversation_id = 1;
  conversation_seq = 2;
  client_message_id = codes "fedcba9876543210";
  sender_id = 2;
  receiver_id = 1;
  content = codes "hello to you";
  created_at = 11;
}

with_one-IsConsistent : IsConsistent (after_sending hello with_members)
unfolding after_sending with_members insert_message_and_outbox insert_in passes_checks
    write_or_conflict find_idempotent_message created_message find_direct insert_conversation
    insert_conversation_members new_conversation
with_one-IsConsistent =
    (insert-Inserted 1 hello with_members with_members-IsConsistent first_message refl).1

pub with_two-IsConsistent : IsConsistent with_two
unfolding with_two after_sending with_members insert_message_and_outbox insert_in passes_checks
    write_or_conflict find_idempotent_message created_message write_message allocate_in allocate
    has_key text_eq find_direct insert_conversation insert_conversation_members new_conversation
with_two-IsConsistent =
    (insert-Inserted 1 reply (after_sending hello with_members) with_one-IsConsistent second_message
      refl).1
