-- ===== src/Client/Tests.antt =====
-- Runs of the headless client, and the theorems at them.
use im_backend.Prelude.{ok, ℕ, ◌≤◌, ◌≡◌, refl, [], some, none, arith, codes}
use im_backend.Messages.Database.{Database}
use im_backend.Messages.Store.{
  insert_conversation, insert_conversation_members, insert_message_and_outbox, insert_in,
  passes_checks, write_or_conflict, find_idempotent_message, created_message, write_message,
  allocate_in, allocate, has_key, text_eq, find_direct, new_conversation,
}
use im_backend.Messages.Samples.{
  with_two, with_members, after_sending, with_two-IsConsistent, first_message,
}
use im_backend.Sync.Page.{is_member}
use im_backend.Client.State.{AuthState, State, not_synced}
use im_backend.Client.Apply.{conversation_of, RealtimeEnvelope, apply_realtime}
use im_backend.Client.Apply.Log.{IsLog}
use im_backend.Client.Apply.Sound.{IsAdvance, realtime_keeps_logs}
use im_backend.Client.Sync.{sync_conversation}
use im_backend.Client.Sync.Pages.{cursor_of}
use im_backend.Client.Sync.History.{world_of, IsHistory}
use im_backend.Client.Sync.Converge.{IsGenuine, sync_converges}

abbrev auth : AuthState
auth = record {
  session_id = 1;
  device_id = codes "device";
  session_expires_at = [];
  access_token = codes "access";
  access_token_expires_at = [];
  refresh_token = codes "refresh";
  refresh_token_expires_at = [];
}

abbrev new_client : State
new_client = record { auth = some auth; pending_refresh = none; conversations = λ id. none }

abbrev envelope : RealtimeEnvelope
envelope = record {
  event_type = "message.created";
  conversation_id = 1;
  conversation_seq = 1;
  message = first_message;
}

realtime_keeps_logs_example :
    IsAdvance
      (λ id m. m.conversation_id ≡ id)
      new_client
      (apply_realtime not_synced envelope new_client).0
realtime_keeps_logs_example =
    realtime_keeps_logs not_synced envelope new_client (λ id c e. absurd (cc))

abbrev steady : ℕ → Database
steady i = with_two

abbrev history : IsHistory 1 1 steady
unfolding with_two after_sending with_members insert_message_and_outbox insert_in passes_checks
    write_or_conflict find_idempotent_message created_message write_message allocate_in allocate
    has_key text_eq find_direct insert_conversation insert_conversation_members new_conversation
    is_member
history = record {
  consistent = λ i. with_two-IsConsistent;
  grows = λ i c j. (c, j, refl, omega arith);
  member = λ i. refl;
  found = λ i. (record { id = 1; direct_users = some (1, 2); last_seq = 2; updated_at = 11 }, refl);
}

abbrev one_is_known : 1 ≤ 1
one_is_known = omega arith

sync_converges_example :
    (t : State) × (sync_conversation (world_of 1 1 steady) 3 1 1 new_client ≡ (t, ok tt))
    × (t.auth ≡ some auth)
    × (cursor_of t 1 ≡ 2)
    × IsLog (IsGenuine 1 1 steady history one_is_known 1) (conversation_of t 1)
unfolding history
sync_converges_example =
    sync_converges 1 1 steady history one_is_known 1 3 new_client auth (omega arith) (omega arith)
      (omega arith) refl (λ id c e. absurd (cc)) (omega arith) (omega arith)
