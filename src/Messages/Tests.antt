-- ===== src/Messages/Tests.antt =====
-- Runs of the sending of messages, and the theorems at them.
use im_backend.Prelude.{inl, inr, ok, err, ◌≡◌, refl, [], codes, ◌&&◌, ◌==◌, if◌then◌else◌, false}
use im_backend.Messages.Command.{idempotency_conflict, ValidCommand}
use im_backend.Messages.Store.{
  insert_conversation, insert_conversation_members, insert_message_and_outbox, insert_in,
  passes_checks, write_or_conflict, find_idempotent_message, created_message, write_message,
  allocate_in, allocate, has_key, text_eq, find_direct, new_conversation,
}
use im_backend.Messages.Service.{send_valid}
use im_backend.Messages.Outcome.{Outcome}
use im_backend.Messages.Outcome.Stages.{send-Outcome}
use im_backend.Messages.Samples.{
  empty, hello, empty-IsConsistent, with_members, after_sending, with_two, with_two-IsConsistent,
  first_message,
}
use im_backend.Messages.Retry.{alone, repeated_request}

send-Outcome_example : Outcome alone hello (λ db. db.messages ≡ []) (send_valid alone empty hello)
send-Outcome_example =
    send-Outcome alone hello (λ db. db.messages ≡ []) (λ stage db q. q) (λ stage db s. s) empty refl
      empty-IsConsistent

abbrev other_text : ValidCommand
other_text = record hello { text = codes "goodbye" }

repeated_request_example : send_valid alone with_two other_text ≡ (
  with_two,
  if (2 == 2) && text_eq (codes "hello") (codes "goodbye")
      then ok (record { message = first_message; created = false })
      else err idempotency_conflict,
)
unfolding with_two after_sending with_members insert_message_and_outbox insert_in passes_checks
    write_or_conflict find_idempotent_message created_message write_message allocate_in allocate
    has_key text_eq find_direct insert_conversation insert_conversation_members new_conversation
repeated_request_example =
    repeated_request alone other_text first_message with_two with_two-IsConsistent (inr (inl refl))
      refl refl (λ stage. refl) refl refl
