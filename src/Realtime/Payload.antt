-- ===== src/Realtime/Payload.antt =====
-- websocket.go: decodeMessageCreatedEvent. An id that is not positive is read as 0.
pub mod Recipients
use im_backend.Prelude.{
  Result, ok, err, ◌>>=◌, ◌>>◌, refuse_if, ℕ, zero, suc, Bool, true, false, ◌&&◌, ◌||◌, not, List,
  [], ◌∷◌, Option, none, some, ltb, ◌==◌, if◌then◌else◌, any, length,
}
use im_backend.Message.{Message, MessageEventRecipient, MessageCreatedEventPayload}
use im_backend.Outbox.Types.{OutboxEvent}

pub data PayloadError : Type 0 where
  unsupported_version undecodable incomplete invalid_recipient not_a_participant
        duplicated_recipient recipients_incomplete no_conversation user_cursor :
      PayloadError

abbrev pub Decoded {ℓ} : Type ℓ → Type ℓ
Decoded A = Result PayloadError A

-- The size of the set { sender, receiver }.
abbrev pub expected_count : Message → ℕ
expected_count m = if m.sender_id == m.receiver_id then 1 else 2

unfoldable pub is_participant : Message → ℕ → Bool
is_participant m u = (m.sender_id == u) || (m.receiver_id == u)

-- The loop over the recipients; the result is the set of the ids seen.
unfoldable pub check_recipients : Message → List ℕ → List MessageEventRecipient → Decoded (List ℕ)
check_recipients m seen [] = ok seen
check_recipients m seen (r ∷ rest) =
    let later = check_recipients m (r.user_id ∷ seen) rest in
    if r.user_id == 0
    then err invalid_recipient
    else if not (is_participant m r.user_id)
    then err not_a_participant
    else if any (λ s. s == r.user_id) seen
    then err duplicated_recipient
    else later

unfoldable pub decode_payload : ℕ → MessageCreatedEventPayload → Decoded MessageCreatedEventPayload
decode_payload message_id payload = do
  let m = payload.message
  refuse_if
      ((m.id == 0)
        || (m.sender_id == 0)
        || (m.receiver_id == 0)
        || (ltb 0 message_id && not (m.id == message_id))
        || (length payload.recipients == 0))
      incomplete
  seen ← check_recipients m [] payload.recipients
  refuse_if (not (length seen == expected_count m)) recipients_incomplete
  refuse_if ((m.conversation_id == 0) || (m.conversation_seq == 0)) no_conversation
  refuse_if (any (λ r. not (r.cursor == 0)) payload.recipients) user_cursor
  ok payload

abbrev decode_found : ℕ → Option MessageCreatedEventPayload → Decoded MessageCreatedEventPayload
decode_found message_id none = err undecodable
decode_found message_id (some payload) = decode_payload message_id payload

unfoldable pub decode_message_created_event : OutboxEvent → Decoded MessageCreatedEventPayload
decode_message_created_event event =
    if not (event.payload_version == 4)
    then err unsupported_version
    else decode_found event.message_id event.payload
