-- ===== src/Messages/Outcome.antt =====
-- What `send` of message_service.go leaves committed, whatever statements fail and whatever other
-- transactions commit between its own.
pub mod Stages
use im_backend.Prelude.{
  ok, err, ℕ, suc, ◌+◌, ◌≤◌, ◌≡◌, ◌≢◌, refl, sym, ap, subst, ◌∙◌, ◌⊎◌, inl, inr, Bool, true, false,
  ◌&&◌, not, List, [], ◌∷◌, Option, none, some, arith, ◌==◌, if◌then◌else◌, Bool-cases,
  Option-cases, find-In, In, max,
}
use im_backend.Message.{Message}
use im_backend.Outbox.Types.{Row, Reply, served, refused, lost}
use im_backend.Messages.Database.{
  Conversation, Database, DatabaseError, Sql, row, no_rows, failed, unreachable,
}
use im_backend.Messages.Store.{
  find_idempotent_message, find_direct, insert_conversation, insert_conversation_members,
  insert_message_and_outbox, insert_in, write_or_conflict, created_message, created_event,
  write_message, passes_checks, is_user, find_conversation, allocate_in,
}
use im_backend.Messages.Command.{ValidCommand, Answer, internal, unavailable}
use im_backend.Messages.Service.{
  World, Stage, begin, find, select_conversation, add_conversation, select_again, add_members,
  add_message, roll_back, find_winner, Transaction, SendMessageResult, Sent, run_statement,
  others_commit, reading, to_sql, existing_result, same_message_request, commit_created,
  winner_result, answer_with_winner, after_insert, insert_stage, after_members, after_resolve,
  direct_id, tagged, resolve_again, resolve_new, resolve_direct_conversation, after_find,
  send_valid, low_user, high_user,
}
use im_backend.Messages.Consistency.{IsConsistent}
use im_backend.Messages.Consistency.Write.{write_message-IsConsistent}
use im_backend.Messages.Consistency.Conversations.{
  insert_conversation-IsConsistent, insert_members-IsConsistent,
}

-- The message and its event stand in the database, newest first, the message is the command's, and
-- the message keeps the place in its conversation.
pub record Created (c : ValidCommand) (m : Message) (db : Database) : Type 0 where
  pub sender : m.sender_id ≡ c.sender
  pub receiver : m.receiver_id ≡ c.receiver
  pub key : m.client_message_id ≡ c.client_id
  pub text : m.content ≡ c.text
  pub older : List Message
  pub messages : db.messages ≡ m ∷ older
  pub event_id : ℕ
  pub event_time : ℕ
  pub older_events : List Row
  pub outbox : db.outbox ≡ created_event event_id event_time m ∷ older_events

row-injective : (m n : Message) → row m ≡ row n → m ≡ n
row-injective m n e = cc

abbrev pub answer_created : Message → Answer SendMessageResult
answer_created m = ok (record { message = m; created = true })

-- Either what is committed satisfies `R` and no creation is reported, or the message is written, and
-- that is reported, or the reply to the commit was lost.
abbrev pub Outcome : World → ValidCommand → (Database → Type 0) → Sent → Type 0
Outcome w c R s =
    (R s.0 × ((m : Message) → s.1 ≢ answer_created m))
    ⊎ ((m : Message) × Created c m s.0
        × IsConsistent s.0
        × ((s.1 ≡ answer_created m) ⊎ ((w.commit ≡ lost) × (s.1 ≡ err internal))))

-- What a statement returns as a row it has written, next to its event.
abbrev pub Inserted : ValidCommand → Sql Message × Database → Type 0
Inserted c p = (m : Message) → p.0 ≡ row m → Created c m p.1 × IsConsistent p.1

write-Inserted :
    (c : ValidCommand) (db : Database) (d : Conversation)
    → IsConsistent db
    → In d db.conversations
    → find_idempotent_message c.sender c.client_id db ≡ none
    → let m = created_message db d c.sender c.receiver c.client_id c.text in
      Inserted c (row m, write_message db d m)
unfolding created_message
write-Inserted c db d s i free m e =
    subst
      (λ (z : Message).
        Created c z (write_message db d new) × IsConsistent (write_message db d new))
      (row-injective new m e)
      (
        unfold write_message in
            record {
              sender = refl;
              receiver = refl;
              key = refl;
              text = refl;
              older = db.messages;
              messages = refl;
              event_id = db.next_event_id;
              event_time = db.started;
              older_events = db.outbox;
              outbox = refl;
            },
        write_message-IsConsistent db d new s i refl refl refl free,
      )
  where
    new : Message
    new = created_message db d c.sender c.receiver c.client_id c.text

write_or_conflict-Inserted :
    (c : ValidCommand) (db : Database) (d : Conversation) (found : Option Message)
    → IsConsistent db
    → In d db.conversations
    → found ≡ find_idempotent_message c.sender c.client_id db
    → Inserted c
        (write_or_conflict d (created_message db d c.sender c.receiver c.client_id c.text) found db)
unfolding write_or_conflict
write_or_conflict-Inserted c db d none s i e = write-Inserted c db d s i (sym e)
write_or_conflict-Inserted c db d (some x) s i e = λ m q. absurd (cc)

insert_in-Inserted :
    (c : ValidCommand) (db : Database) (d : Conversation)
    → IsConsistent db
    → In d db.conversations
    → Inserted c (insert_in d c.sender c.receiver c.client_id c.text db)
unfolding insert_in
insert_in-Inserted c db d s i = elim (Bool-cases (not (passes_checks c.client_id c.text))) [
  | inl t ↦ rw t (λ m q. absurd (cc))
  | inr t ↦ rw t (elim (Bool-cases (not (is_user db c.sender && is_user db c.receiver))) [
    | inl u ↦ rw u (λ m q. absurd (cc))
    | inr u ↦ rw u (write_or_conflict-Inserted c db d _ s i refl)
  ])
]

pub insert-Inserted :
    (conversation : ℕ) (c : ValidCommand) (db : Database)
    → IsConsistent db
    → Inserted c (insert_message_and_outbox conversation c.sender c.receiver c.client_id c.text db)
unfolding insert_message_and_outbox
insert-Inserted conversation c db s = elim (Option-cases (find_conversation conversation db)) [
  | inl e ↦ rw (e, insert_message_and_outbox) (λ m q. absurd (cc))
  | inr (d, e) ↦
      rw (e, insert_message_and_outbox)
        (insert_in-Inserted c db d s (find-In (λ x. x.id == conversation) db.conversations d e).0)
]
