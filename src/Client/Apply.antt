-- ===== src/Client/Apply.antt =====
-- internal/headlessclient/client.go: applyMessage and ApplyRealtime.
pub mod Log
pub mod Sound
use im_backend.Prelude.{
  ok, err, ℕ, suc, ◌+◌, max, Bool, true, false, ◌||◌, not, Option, none, some, leb, ltb, ◌==◌,
  if◌then◌else◌, String, str_eq,
}
use im_backend.Message.{Message}
use im_backend.Client.State.{
  ConversationState, State, ClientError, invalid_message, conflict_with_log, message_gap,
  invalid_envelope, envelope_disagrees, Answer, put, Storage, update,
}

pub data ApplyResult : Type 0 where
  applied duplicate : ApplyResult

abbrev pub empty_conversation : ConversationState
empty_conversation = record {
  applied_cursor = 0;
  acked_cursor = 0;
  pending_ack = 0;
  messages = λ k. none;
}

abbrev pub or_empty : Option ConversationState → ConversationState
or_empty none = empty_conversation
or_empty (some c) = c

-- The conversation, or a new one.
abbrev pub conversation_of : State → ℕ → ConversationState
conversation_of s id = or_empty (s.conversations id)

unfoldable pub append_message : Message → ConversationState → ConversationState
append_message m c = record c {
  messages = put m.conversation_seq m c.messages;
  applied_cursor = m.conversation_seq;
  pending_ack = if ltb c.pending_ack m.conversation_seq then m.conversation_seq else c.pending_ack;
}

-- A cursor that is already applied must name the message that is stored there.
unfoldable pub check_duplicate :
    Message → ConversationState → Option Message → Answer (ApplyResult × ConversationState)
check_duplicate m c none = err conflict_with_log
check_duplicate m c (some existing) =
    if existing.id == m.id then ok (duplicate, c) else err conflict_with_log

unfoldable pub apply_step : Message → ConversationState → Answer (ApplyResult × ConversationState)
unfolding check_duplicate append_message
apply_step m c =
    if leb m.conversation_seq c.applied_cursor
    then check_duplicate m c (c.messages m.conversation_seq)
    else if not (m.conversation_seq == c.applied_cursor + 1)
    then err message_gap
    else ok (applied, append_message m c)

unfoldable pub store_conversation :
    ℕ → State → Answer (ApplyResult × ConversationState) → Answer (ApplyResult × State)
store_conversation id s (err e) = err e
store_conversation id s (ok (result, c)) =
    ok (result, record s { conversations = put id c s.conversations })

unfoldable pub apply_to : Message → State → Answer (ApplyResult × State)
unfolding store_conversation apply_step
apply_to m s =
    store_conversation m.conversation_id s (apply_step m (conversation_of s m.conversation_id))

unfoldable pub apply_message : Storage → Message → State → State × Answer ApplyResult
unfolding apply_to
apply_message storage m s =
    if (m.id == 0) || (m.conversation_id == 0) || (m.conversation_seq == 0)
    then (s, err invalid_message)
    else update storage (apply_to m) s

pub record RealtimeEnvelope : Type 0 where
  pub event_type : String
  pub conversation_id : ℕ
  pub conversation_seq : ℕ
  pub message : Message

unfoldable pub apply_realtime : Storage → RealtimeEnvelope → State → State × Answer ApplyResult
unfolding apply_message
apply_realtime storage e s =
    if not (str_eq e.event_type "message.created") || (e.conversation_id == 0)
    then (s, err invalid_envelope)
    else if not (e.message.conversation_id == e.conversation_id)
        || not (e.message.conversation_seq == e.conversation_seq)
    then (s, err envelope_disagrees)
    else apply_message storage e.message s
