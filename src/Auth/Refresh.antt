-- ===== src/Auth/Refresh.antt =====
-- auth.go: rotateRefreshToken and minTime.
pub mod Rotation
pub mod Rotated
pub mod Replay
pub mod Retry
use im_backend.Prelude.{
  ok, err, refuse_if, ◌>>=◌, ◌>>◌, ℕ, ◌+◌, Bool, true, false, ◌&&◌, not, List, [], ◌∷◌, Option,
  none, some, ltb, leb, ◌==◌, if◌then◌else◌, any, find, map, min, codes,
}
use im_backend.Message.{Text}
use im_backend.Outbox.Types.{Reply, served, refused, lost}
use im_backend.Messages.Store.{text_eq}
use im_backend.Auth.Answer.{Answer, failure, required}
use im_backend.Auth.Types.{
  User, Account, Session, RefreshToken, RefreshResult, Database, AuthResponse, GeneratedToken,
  Environment, consume_refresh_token, select_user, extend_session, insert_refresh_result,
  select_refresh_token, select_refresh_result, revoke_session, nonce_draw, access_draw,
  refresh_draw, session_reading, idle_reading, absolute_reading, replay_reading,
  access_token_lifetime, session_idle_lifetime, session_absolute_lifetime, idempotency_lifetime,
}
use im_backend.Auth.Cipher.{Library, ResponseCipher, encrypt, decrypt}
use im_backend.Auth.Sessions.{
  committed, transaction, new_token, has_hash, add_access_token, add_refresh_token,
}
use im_backend.Auth.Access.{is_live, find_session, revoke_where}
use im_backend.Auth.Login.{with_session_expiry}
use im_backend.Auth.Reuse.{
  refresh_purpose, Outcome, rotated, unauthorized, is_result_of, replayed_response, close_session,
  replay_or_close, is_replayable, handle_used, handle_used_or_invalid,
}

-- The token and its session, where the token may be consumed: token_hash is unique.
unfoldable pub consumable : Environment → RefreshToken → Option Session → Bool
unfolding is_live
consumable env t none = false
consumable env t (some s) = elim t.consumed_at [
  | some _ ↦ false
  | none ↦ ltb env.started t.expires_at && is_live env s
]

-- SET consumed_at = CURRENT_TIMESTAMP
unfoldable pub consume : Text → ℕ → RefreshToken → RefreshToken
consume hash now t = if has_hash hash t then record t { consumed_at = some now } else t

unfoldable pub consume_in : Text → ℕ → Database → Database
unfolding consume
consume_in hash now db = record db { refresh_tokens = map (consume hash now) db.refresh_tokens }

abbrev pub find_user : ℕ → Database → Option Account
find_user user db = find (λ (a : Account). a.user.id == user) db.users

unfoldable pub extend : ℕ → ℕ → Session → Session
extend session idle s = if s.id == session then record s { idle_expires_at = idle } else s

-- The constraint sessions_expiry_valid holds of the new time as it does of the refresh token's.
unfoldable pub set_idle_expiry : Environment → ℕ → ℕ → ℕ → Database → Answer Database
unfolding extend
set_idle_expiry env session created idle db =
    refuse_if (env.fails extend_session) failure
    >> refuse_if (leb idle created) failure
    >> ok (record db { sessions = map (extend session idle) db.sessions })

unfoldable pub refresh_result : ResponseCipher → ℕ → Text → Text × Text → ℕ → RefreshResult
refresh_result c token key_hash (encrypted, nonce) expires = record {
  refresh_token_id = token;
  idempotency_key_hash = key_hash;
  encrypted_response = encrypted;
  nonce = nonce;
  key_version = c.key_version;
  expires_at = expires;
}

-- refresh_token_id is the primary key.
unfoldable pub add_refresh_result : Environment → RefreshResult → Database → Answer Database
add_refresh_result env result db =
    refuse_if (env.fails insert_refresh_result) failure
    >> refuse_if (any (is_result_of result.refresh_token_id) db.refresh_results) failure
    >> refuse_if (leb result.expires_at env.started) failure
    >> ok (record db { refresh_results = result ∷ db.refresh_results })

unfoldable pub rotated_response :
    User → Session → GeneratedToken → GeneratedToken → ℕ → ℕ → ℕ → AuthResponse
rotated_response account s access refresh access_expires refresh_expires absolute = record {
  user = account;
  session_id = s.id;
  device_id = s.device_id;
  session_expires_at = some absolute;
  access_token = access.raw;
  access_token_expires_at = access_expires;
  refresh_token = refresh.raw;
  refresh_token_expires_at = refresh_expires;
}

-- The transaction of a token that is consumed, from the statement after the UPDATE on.
unfoldable pub rotation :
    Library
    → ResponseCipher
    → Environment
    → Text
    → Text
    → RefreshToken
    → Session
    → Database
    → Answer (Outcome × Database)
unfolding consume_in new_token add_access_token add_refresh_token set_idle_expiry rotated_response
    encrypt refresh_result add_refresh_result
rotation lib c env hash key_hash t s db =
    let now = env.clock session_reading in
    let absolute = s.created_at + session_absolute_lifetime in
    let access_expires = min (now + access_token_lifetime) absolute in
    let refresh_expires = min (now + session_idle_lifetime) absolute in
    do
      refuse_if (env.fails select_user) failure
      account ← required (find_user s.user_id db)
      access ← new_token lib (env.random access_draw)
      refresh ← new_token lib (env.random refresh_draw)
      with_access ←
          add_access_token env s.id access.hash access_expires (consume_in hash env.started db)
      with_refresh ← add_refresh_token env s.id (some t.id) refresh.hash refresh_expires with_access
      extended ← set_idle_expiry env s.id s.created_at refresh_expires with_refresh
      let response =
          rotated_response account.user s access refresh access_expires refresh_expires absolute
      stored ← encrypt lib c (env.random nonce_draw) refresh_purpose (lib.format_int t.id) response
      after ←
          add_refresh_result env
            (refresh_result c t.id key_hash stored (now + idempotency_lifetime)) extended
      ok (rotated response, after)

-- The row with the hash, and the session of it, decide between the two ways.
unfoldable pub rotate_token :
    Library
    → ResponseCipher
    → Environment
    → Text
    → Text
    → Option RefreshToken
    → Database
    → Database × Answer Outcome
unfolding consumable rotation transaction handle_used_or_invalid find_session
rotate_token lib c env hash key_hash none db = handle_used_or_invalid lib c env key_hash none db
rotate_token lib c env hash key_hash (some t) db = elim (find_session t.session_id db) [
  | none ↦ handle_used_or_invalid lib c env key_hash (some t) db
  | some s ↦
      if consumable env t (some s)
      then transaction env.reply db (rotation lib c env hash key_hash t s db)
      else handle_used_or_invalid lib c env key_hash (some t) db
]

unfoldable pub rotate_refresh_token :
    Library → ResponseCipher → Environment → Text → Text → Database → Database × Answer Outcome
unfolding rotate_token
rotate_refresh_token lib c env hash key_hash db =
    if env.fails consume_refresh_token
    then (db, err failure)
    else rotate_token lib c env hash key_hash (find (has_hash hash) db.refresh_tokens) db
