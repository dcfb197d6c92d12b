-- ===== src/Client/State.antt =====
-- internal/headlessclient/store.go: the stored state, and Update. A map is a function; an id or a
-- cursor that is not positive is read as 0.
use im_backend.Prelude.{Result, ok, err, ℕ, Option, some, ◌==◌, if◌then◌else◌}
use im_backend.Message.{Text, Message}

pub record AuthState : Type 0 where
  pub session_id : ℕ
  pub device_id : Text
  pub session_expires_at : Text
  pub access_token : Text
  pub access_token_expires_at : Text
  pub refresh_token : Text
  pub refresh_token_expires_at : Text

pub record PendingRefresh : Type 0 where
  pub refresh_token : Text
  pub idempotency_key : Text

pub record ConversationState : Type 0 where
  pub applied_cursor : ℕ
  pub acked_cursor : ℕ
  pub pending_ack : ℕ
  pub messages : ℕ → Option Message

pub record State : Type 0 where
  pub auth : Option AuthState
  pub pending_refresh : Option PendingRefresh
  pub conversations : ℕ → Option ConversationState

pub data ClientError : Type 0 where
  storage_failed invalid_message conflict_with_log message_gap invalid_envelope envelope_disagrees
        invalid_argument not_authenticated invalid_page snapshot_changed page_not_applied
        another_refresh_pending refresh_changed older_acknowledgement conversation_disappeared
        request_failed too_many_pages :
      ClientError

abbrev pub Answer {ℓ} : Type ℓ → Type ℓ
Answer A = Result ClientError A

abbrev pub put {ℓ} : {A : Type ℓ} → ℕ → A → (ℕ → Option A) → ℕ → Option A
put k a f = λ j. if k == j then some a else f j

-- The fate of an access to the file: it is served; it cannot be read; the new file is not put in
-- place of the old one; it is, and then the directory cannot be synced.
pub data Storage : Type 0 where
  intact unreadable not_replaced not_synced : Storage

unfoldable pub load : Storage → State → Answer State
load unreadable s = err storage_failed
load _ s = ok s

unfoldable pub persist {ℓ} : {A : Type ℓ} → Storage → State → Answer (A × State) → State × Answer A
persist storage old (err e) = (old, err e)
persist intact old (ok (a, new)) = (new, ok a)
persist unreadable old (ok (a, new)) = (old, err storage_failed)
persist not_replaced old (ok (a, new)) = (old, err storage_failed)
persist not_synced old (ok (a, new)) = (new, err storage_failed)

-- Under the lock of the store: load, change, persist. A change that fails persists nothing.
unfoldable pub update {ℓ} :
    {A : Type ℓ} → Storage → (State → Answer (A × State)) → State → State × Answer A
unfolding persist
update unreadable change s = (s, err storage_failed)
update intact change s = persist intact s (change s)
update not_replaced change s = persist not_replaced s (change s)
update not_synced change s = persist not_synced s (change s)
