-- ===== src/Client/Session.antt =====
-- internal/headlessclient/client.go: PersistAuth, Refresh and FlushACK. The server's answer is a
-- parameter: `fail` where the request fails.
use im_backend.Prelude.{
  ok, err, ℕ, Bool, false, ◌&&◌, ◌||◌, not, Option, none, some, leb, ltb, ◌==◌, if◌then◌else◌,
  length,
}
use im_backend.Message.{Text}
use im_backend.Messages.Store.{text_eq}
use im_backend.Client.State.{
  AuthState, PendingRefresh, ConversationState, State, invalid_argument, not_authenticated,
  another_refresh_pending, refresh_changed, older_acknowledgement, conversation_disappeared, Answer,
  put, Storage, load, update,
}

abbrev is_empty : Text → Bool
is_empty t = length t == 0

unfoldable pub set_auth : AuthState → State → Answer (Unit {0} × State)
set_auth auth s = ok (tt, record s { auth = some auth; pending_refresh = none })

unfoldable pub persist_auth : Storage → AuthState → State → State × Answer (Unit {0})
unfolding set_auth
persist_auth storage auth s =
    if is_empty auth.access_token
      || is_empty auth.refresh_token
      || (auth.session_id == 0)
      || is_empty auth.device_id
    then (s, err invalid_argument)
    else update storage (set_auth auth) s

-- The pending refresh, or a new one with the stored refresh token.
abbrev pub pending_or_new : Text → AuthState → Option PendingRefresh → PendingRefresh
pending_or_new key auth none = record { refresh_token = auth.refresh_token; idempotency_key = key }
pending_or_new key auth (some p) = p

unfoldable pub begin_with : Text → State → AuthState → Answer (PendingRefresh × State)
begin_with key s auth =
    let p = pending_or_new key auth s.pending_refresh in
    if is_empty auth.refresh_token
    then err not_authenticated
    else if not (text_eq p.idempotency_key key)
    then err another_refresh_pending
    else ok (p, record s { pending_refresh = some p })

unfoldable pub begin_refresh : Text → State → Answer (PendingRefresh × State)
unfolding begin_with
begin_refresh key s = elim s.auth [
  | none ↦ err not_authenticated
  | some auth ↦ begin_with key s auth
]

abbrev same_refresh : PendingRefresh → Option PendingRefresh → Bool
same_refresh p none = false
same_refresh p (some q) =
    text_eq p.refresh_token q.refresh_token && text_eq p.idempotency_key q.idempotency_key

unfoldable pub finish_refresh : PendingRefresh → AuthState → State → Answer (Unit {0} × State)
finish_refresh p response s =
    if same_refresh p s.pending_refresh
    then ok (tt, record s { auth = some response; pending_refresh = none })
    else err refresh_changed

-- What the server answers to a refresh.
abbrev pub RefreshServer : Type 0
RefreshServer = PendingRefresh → Answer AuthState

unfoldable pub commit_refresh :
    Storage → PendingRefresh → State → Answer AuthState → State × Answer (Unit {0})
unfolding finish_refresh
commit_refresh storage p s (err e) = (s, err e)
commit_refresh storage p s (ok response) = update storage (finish_refresh p response) s

unfoldable pub send_refresh :
    RefreshServer → Storage → State × Answer PendingRefresh → State × Answer (Unit {0})
unfolding commit_refresh
send_refresh server storage (s, err e) = (s, err e)
send_refresh server storage (s, ok p) = commit_refresh storage p s (server p)

-- The pending refresh is stored before the request, so that a retry sends the same one.
unfoldable pub refresh :
    RefreshServer → Storage → Storage → Text → State → State × Answer (Unit {0})
unfolding send_refresh begin_refresh
refresh server first second key s =
    if is_empty key
    then (s, err invalid_argument)
    else send_refresh server second (update first (begin_refresh key) s)

unfoldable pub acknowledged : ℕ → ConversationState → ConversationState
acknowledged cursor c = record c {
  acked_cursor = if ltb c.acked_cursor cursor then cursor else c.acked_cursor;
  pending_ack = if leb c.pending_ack cursor then 0 else c.pending_ack;
}

unfoldable pub store_ack : ℕ → ℕ → State → Answer (Unit {0} × State)
unfolding acknowledged
store_ack conversation cursor s = elim (s.conversations conversation) [
  | none ↦ err conversation_disappeared
  | some c ↦
      ok (tt, record s { conversations = put conversation (acknowledged cursor c) s.conversations })
]

unfoldable pub commit_ack : Storage → ℕ → ℕ → State → Answer ℕ → State × Answer (Unit {0})
unfolding store_ack
commit_ack storage conversation pending s (err e) = (s, err e)
commit_ack storage conversation pending s (ok cursor) =
    if ltb cursor pending
    then (s, err older_acknowledgement)
    else update storage (store_ack conversation cursor) s

-- What the server answers to an acknowledgement: the cursor that it has stored.
abbrev pub AckServer : Type 0
AckServer = ℕ → Answer ℕ

unfoldable pub flush_conversation :
    AckServer → Storage → ℕ → State → Option ConversationState → State × Answer (Unit {0})
unfolding commit_ack
flush_conversation server storage conversation s none = (s, ok tt)
flush_conversation server storage conversation s (some c) =
    if leb c.pending_ack c.acked_cursor
    then (s, ok tt)
    else commit_ack storage conversation c.pending_ack s (server c.pending_ack)

unfoldable pub flush_loaded :
    AckServer → Storage → ℕ → State → Answer State → State × Answer (Unit {0})
unfolding flush_conversation
flush_loaded server storage conversation s (err e) = (s, err e)
flush_loaded server storage conversation s (ok state) = elim state.auth [
  | none ↦ (s, err not_authenticated)
  | some _ ↦ flush_conversation server storage conversation s (state.conversations conversation)
]

unfoldable pub flush_ack : AckServer → Storage → Storage → ℕ → State → State × Answer (Unit {0})
unfolding flush_loaded load
flush_ack server first second conversation s =
    flush_loaded server second conversation s (load first s)
