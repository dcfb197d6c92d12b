-- ===== src/Messages/Command.antt =====
-- message_service.go: the checks of a command before the first statement of send, and the errors of
-- the service.
use im_backend.Prelude.{
  Result, ok, err, ℕ, ◌+◌, Bool, ◌&&◌, [], ◌∷◌, Option, none, some, leb, ltb, ◌==◌, if◌then◌else◌,
  length,
}
use im_backend.Prelude.Int.{ℤ, positive}
use im_backend.Message.{Text}

pub data MessageServiceErrorCode : Type 0 where
  invalid_json invalid_message receiver_not_found idempotency_conflict unavailable internal :
      MessageServiceErrorCode

pub record SendMessageCommand : Type 0 where
  pub sender_id : ℕ
  pub receiver_id : ℤ
  pub client_message_id : Text
  pub content : Option Text

abbrev pub Answer {ℓ} : Type ℓ → Type ℓ
Answer A = Result MessageServiceErrorCode A

-- The bytes of a rune in UTF-8.
abbrev pub rune_bytes : ℕ → ℕ
rune_bytes r = if ltb r 0x80 then 1 else if ltb r 0x800 then 2 else if ltb r 0x10000 then 3 else 4

abbrev pub byte_length : Text → ℕ
byte_length [] = 0
byte_length (r ∷ rest) = rune_bytes r + byte_length rest

-- `len` counts bytes.
unfoldable pub valid_opaque_id : Text → Bool
valid_opaque_id value = leb 16 (byte_length value) && leb (byte_length value) 128

abbrev pub max_message_content_runes : ℕ
max_message_content_runes = 4000

-- The command behind the checks of `send`.
pub record ValidCommand : Type 0 where
  pub sender : ℕ
  pub receiver : ℕ
  pub client_id : Text
  pub text : Text

unfoldable pub check_content : ℕ → ℕ → Text → Text → Answer ValidCommand
check_content sender receiver client_id text =
    if length text == 0
    then err invalid_message
    else if ltb max_message_content_runes (length text)
    then err invalid_message
    else ok (record { sender = sender; receiver = receiver; client_id = client_id; text = text })

unfoldable pub check_parts : ℕ → Text → Option ℕ → Option Text → Answer ValidCommand
unfolding check_content
check_parts sender client_id (some receiver) (some text) =
    if valid_opaque_id client_id
    then check_content sender receiver client_id text
    else err invalid_message
check_parts sender client_id none text = err invalid_message
check_parts sender client_id (some receiver) none = err invalid_message

unfoldable pub check_command : SendMessageCommand → Answer ValidCommand
unfolding check_parts
check_command c = check_parts c.sender_id c.client_message_id (positive c.receiver_id) c.content
