-- ===== src/Messages/Retry.antt =====
-- A request of message_service.go that is sent again.
use im_backend.Prelude.{
  ok, err, ℕ, ◌≡◌, refl, sym, ap, ◌∙◌, true, false, ◌&&◌, List, some, arith, ◌==◌, if◌then◌else◌,
  In, In-find, find-In,
}
use im_backend.Message.{Message}
use im_backend.Outbox.Types.{served}
use im_backend.Messages.Database.{Database}
use im_backend.Messages.Store.{text_eq, has_key, find_idempotent_message}
use im_backend.Messages.Command.{ValidCommand, idempotency_conflict}
use im_backend.Messages.Service.{
  World, Stage, begin, find, send_valid, run_statement, others_commit, after_find, existing_result,
  same_message_request,
}
use im_backend.Messages.Consistency.{IsConsistent, has_key-intro, text_eq_sound}

has_key-elim :
    (sender : ℕ) (client_id : List ℕ) (m : Message)
    → has_key sender client_id m ≡ true
    → (m.sender_id ≡ sender) × (m.client_message_id ≡ client_id)
unfolding has_key
has_key-elim sender client_id m h =
    (ground arith, text_eq_sound m.client_message_id client_id (ground arith))

-- The message that has a key is the one that is found.
stored-found :
    (sender : ℕ) (client_id : List ℕ) (m : Message) (db : Database)
    → IsConsistent db
    → In m db.messages
    → m.sender_id ≡ sender
    → m.client_message_id ≡ client_id
    → find_idempotent_message sender client_id db ≡ some m
unfolding find_idempotent_message
stored-found sender client_id m db s i p q =
    let (b, e) =
      In-find (has_key sender client_id) db.messages m i (has_key-intro sender client_id m p q) in
    let (j, k) = find-In (has_key sender client_id) db.messages b e in
    let (p', q') = has_key-elim sender client_id b k in
    e ∙ ap some (s.one_per_key b m j i (p' ∙ sym p) (q' ∙ sym q))

-- Any message of the table is sent again: a request with its sender and its key, with which nothing
-- fails at first and nobody else commits, changes nothing; with the same receiver and content it
-- returns that message as not created, and otherwise it is refused as a conflict. So a client may
-- repeat a request whose answer it never saw, however long ago.
pub repeated_request :
    (w : World) (again : ValidCommand) (m : Message) (db : Database)
    → IsConsistent db
    → In m db.messages
    → again.sender ≡ m.sender_id
    → again.client_id ≡ m.client_message_id
    → ((stage : Stage) → w.others stage db ≡ db)
    → w.fails begin ≡ false
    → w.fails find ≡ false
    → send_valid w db again ≡ (
      db,
      if (m.receiver_id == again.receiver) && text_eq m.content again.text
          then ok (record { message = m; created = false })
          else err idempotency_conflict,
    )
unfolding send_valid run_statement others_commit existing_result same_message_request after_find
repeated_request w again m db s i p q quiet b f =
    rw
      (
        b,
        quiet begin,
        f,
        quiet find,
        stored-found again.sender again.client_id m db s i (sym p) (sym q),
      )
      refl

-- Nothing fails, nobody else commits, and the commit is answered.
abbrev pub alone : World
alone = record { fails = λ stage. false; others = λ stage db. db; commit = served }
