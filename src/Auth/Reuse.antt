-- ===== src/Auth/Reuse.antt =====
-- auth.go: handleUsedOrInvalidRefresh, for a refresh token that has been consumed or cannot be.
use im_backend.Prelude.{
  ok, err, ◌>>=◌, ℕ, ◌+◌, Bool, false, ◌&&◌, Option, none, some, ltb, ◌==◌, if◌then◌else◌, find,
  codes,
}
use im_backend.Message.{Text}
use im_backend.Messages.Store.{text_eq}
use im_backend.Auth.Answer.{Answer, failure}
use im_backend.Auth.Types.{
  Session, RefreshToken, RefreshResult, Database, AuthResponse, Environment, select_refresh_token,
  select_refresh_result, revoke_session, idle_reading, absolute_reading, replay_reading,
  session_absolute_lifetime,
}
use im_backend.Auth.Cipher.{Library, ResponseCipher, decrypt}
use im_backend.Auth.Sessions.{committed}
use im_backend.Auth.Access.{find_session, revoke_where}
use im_backend.Auth.Login.{with_session_expiry}

abbrev pub refresh_purpose : Text
refresh_purpose = codes "refresh"

-- http.StatusOK with a response, or http.StatusUnauthorized.
pub data Outcome : Type 0 where
  rotated : AuthResponse → Outcome
  unauthorized : Outcome

abbrev pub is_result_of : ℕ → RefreshResult → Bool
is_result_of token r = r.refresh_token_id == token

unfoldable pub replayed_response :
    Library → ResponseCipher → RefreshToken → Session → RefreshResult → Answer Outcome
unfolding decrypt with_session_expiry
replayed_response lib c t s r = do
  response ←
      decrypt lib c r.key_version refresh_purpose (lib.format_int t.id) r.nonce r.encrypted_response
  ok (rotated (with_session_expiry s.created_at response))

-- A consumed token that comes back without the key of its rotation closes its session.
unfoldable pub close_session : Environment → Session → Database → Database × Answer Outcome
unfolding committed revoke_where
close_session env s db =
    if env.fails revoke_session
    then (db, err failure)
    else committed env.reply db (unauthorized, revoke_where (λ o. o.id == s.id) env.started db)

unfoldable pub replay_or_close :
    Library
    → ResponseCipher
    → Environment
    → Text
    → RefreshToken
    → Session
    → Option RefreshResult
    → Database
    → Database × Answer Outcome
unfolding replayed_response close_session
replay_or_close lib c env key_hash t s none db = close_session env s db
replay_or_close lib c env key_hash t s (some r) db =
    if text_eq r.idempotency_key_hash key_hash && ltb (env.clock replay_reading) r.expires_at
    then (db, replayed_response lib c t s r)
    else close_session env s db

unfoldable pub is_replayable : Environment → RefreshToken → Session → Bool
is_replayable env t s = elim t.consumed_at [
  | none ↦ false
  | some _ ↦ elim s.revoked_at [
    | some _ ↦ false
    | none ↦
        ltb (env.clock idle_reading) s.idle_expires_at
        && ltb (env.clock absolute_reading) (s.created_at + session_absolute_lifetime)
  ]
]

unfoldable pub handle_used :
    Library
    → ResponseCipher
    → Environment
    → Text
    → RefreshToken
    → Option Session
    → Database
    → Database × Answer Outcome
unfolding is_replayable replay_or_close
handle_used lib c env key_hash t none db = (db, ok unauthorized)
handle_used lib c env key_hash t (some s) db =
    if is_replayable env t s
    then (if env.fails select_refresh_result
        then (db, err failure)
        else replay_or_close lib c env key_hash t s (find (is_result_of t.id) db.refresh_results)
            db)
    else (db, ok unauthorized)

unfoldable pub handle_used_or_invalid :
    Library
    → ResponseCipher
    → Environment
    → Text
    → Option RefreshToken
    → Database
    → Database × Answer Outcome
unfolding handle_used
handle_used_or_invalid lib c env key_hash none db =
    if env.fails select_refresh_token then (db, err failure) else (db, ok unauthorized)
handle_used_or_invalid lib c env key_hash (some t) db =
    if env.fails select_refresh_token
    then (db, err failure)
    else handle_used lib c env key_hash t (find_session t.session_id db) db
