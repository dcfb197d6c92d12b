-- ===== src/Realtime/Tests.antt =====
-- Runs of the checks of an event, and the theorems at them.
use im_backend.Prelude.{
  refuse_if, ◌>>◌, ◌>>=◌, err, ℕ, ◌≡◌, refl, true, [], ◌∷◌, any, ◌==◌, All, DistinctBy,
}
use im_backend.Message.{MessageCreatedEventPayload}
use im_backend.Messages.Samples.{first_message}
use im_backend.Realtime.Payload.{
  duplicated_recipient, is_participant, check_recipients, decode_payload,
}
use im_backend.Realtime.Payload.Recipients.{recipient_user, decoded_recipients}

abbrev both : MessageCreatedEventPayload
both = record {
  message = first_message;
  recipients = record { user_id = 2; cursor = 0 } ∷ record { user_id = 1; cursor = 0 } ∷ [];
}

decoded_recipients_example :
    (both ≡ both)
    × All (λ r. is_participant both.message r.user_id ≡ true) both.recipients
    × DistinctBy recipient_user both.recipients
    × ((u : ℕ)
        → is_participant both.message u ≡ true
        → any (λ r. recipient_user r == u) both.recipients ≡ true)
unfolding ◌>>=◌ ◌>>◌ refuse_if decode_payload check_recipients is_participant
decoded_recipients_example = decoded_recipients 1 both both refl

-- A recipient that comes twice is refused.
duplicate-refused :
    decode_payload 1 (record both {
      recipients = record { user_id = 2; cursor = 0 } ∷ record { user_id = 2; cursor = 0 } ∷ [];
    })
    ≡ err duplicated_recipient
unfolding ◌>>=◌ ◌>>◌ refuse_if decode_payload check_recipients is_participant
duplicate-refused = refl
