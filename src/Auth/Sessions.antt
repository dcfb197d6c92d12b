-- ===== src/Auth/Sessions.antt =====
-- auth.go: newToken, decodeAndHashToken, createSessionResponse and the statements that insert a
-- session and its tokens.
use im_backend.Prelude.{
  ok, err, refuse_if, ◌>>=◌, ◌>>◌, ℕ, suc, ◌+◌, Bool, ◌||◌, not, [], ◌∷◌, Option, none, some, ltb,
  leb, ◌==◌, if◌then◌else◌, any, length,
}
use im_backend.Message.{Text}
use im_backend.Outbox.Types.{Reply, served, refused, lost}
use im_backend.Messages.Store.{text_eq}
use im_backend.Messages.Command.{byte_length}
use im_backend.Auth.Answer.{Answer, failure, required}
use im_backend.Auth.Types.{
  User, Session, RefreshToken, Database, AuthResponse, GeneratedToken, Environment, insert_session,
  insert_access_token, insert_refresh_token, device_draw, access_draw, refresh_draw,
  session_reading, token_length, access_token_lifetime, session_idle_lifetime,
  session_absolute_lifetime,
}
use im_backend.Auth.Cipher.{Library}

-- A commit ends a transaction: refused, it is rolled back; lost, it is done and the caller sees an
-- error.
unfoldable pub committed {ℓ} : {A : Type ℓ} → Reply → Database → A × Database → Database × Answer A
committed served before (a, after) = (after, ok a)
committed refused before (a, after) = (before, err failure)
committed lost before (a, after) = (after, err failure)

-- A transaction that fails is rolled back.
unfoldable pub transaction {ℓ} :
    {A : Type ℓ} → Reply → Database → Answer (A × Database) → Database × Answer A
unfolding committed
transaction reply before (err e) = (before, err e)
transaction reply before (ok result) = committed reply before result

unfoldable pub new_token : Library → Option Text → Answer GeneratedToken
new_token lib drawn = do
  bytes ← required drawn
  ok (record { raw = lib.url_encode bytes; hash = lib.sha256 bytes })

unfoldable pub hash_of : Library → Option Text → Option Text
hash_of lib none = none
hash_of lib (some bytes) = if length bytes == token_length then some (lib.sha256 bytes) else none

unfoldable pub decode_and_hash_token : Library → Text → Option Text
unfolding hash_of
decode_and_hash_token lib encoded = hash_of lib (lib.url_decode encoded)

unfoldable pub new_session : Environment → User → Text → ℕ → Database → Session
new_session env account device idle db = record {
  id = db.next_session_id;
  user_id = account.id;
  device_id = device;
  idle_expires_at = idle;
  revoked_at = none;
  created_at = env.started;
}

-- The constraints sessions_device_id_valid and sessions_expiry_valid.
abbrev pub is_valid_session : Session → Bool
is_valid_session s = not (
    (length s.device_id == 0) || ltb 128 (length s.device_id) || leb s.idle_expires_at s.created_at)

unfoldable pub add_session : Environment → User → Text → ℕ → Database → Answer (ℕ × Database)
unfolding new_session
add_session env account device idle db =
    refuse_if (env.fails insert_session) failure
    >> refuse_if (not (is_valid_session (new_session env account device idle db))) failure
    >> ok (
      db.next_session_id,
      record db {
        sessions = new_session env account device idle db ∷ db.sessions;
        next_session_id = suc db.next_session_id;
      },
    )

-- token_hash is unique, and a token expires after it is created.
unfoldable pub add_access_token : Environment → ℕ → Text → ℕ → Database → Answer Database
add_access_token env session hash expires db =
    refuse_if (env.fails insert_access_token) failure
    >> refuse_if (any (λ a. text_eq a.token_hash hash) db.access_tokens) failure
    >> refuse_if (leb expires env.started) failure
    >> ok (record db {
      access_tokens =
          record { session_id = session; token_hash = hash; expires_at = expires }
          ∷ db.access_tokens;
    })

abbrev pub has_hash : Text → RefreshToken → Bool
has_hash hash t = text_eq t.token_hash hash

unfoldable pub new_refresh_token : ℕ → Option ℕ → Text → ℕ → Database → RefreshToken
new_refresh_token session parent hash expires db = record {
  id = db.next_token_id;
  session_id = session;
  parent_token_id = parent;
  token_hash = hash;
  expires_at = expires;
  consumed_at = none;
}

unfoldable pub add_refresh_token :
    Environment → ℕ → Option ℕ → Text → ℕ → Database → Answer Database
unfolding new_refresh_token
add_refresh_token env session parent hash expires db =
    refuse_if (env.fails insert_refresh_token) failure
    >> refuse_if (any (has_hash hash) db.refresh_tokens) failure
    >> refuse_if (leb expires env.started) failure
    >> ok (record db {
      refresh_tokens = new_refresh_token session parent hash expires db ∷ db.refresh_tokens;
      next_token_id = suc db.next_token_id;
    })

-- A request without a device id gets a random one.
unfoldable pub device_for : Library → Environment → Text → Answer Text
unfolding new_token
device_for lib env [] = do generated ← new_token lib (env.random device_draw); ok generated.raw
device_for lib env (c ∷ device) = ok (c ∷ device)

unfoldable pub session_response :
    User → ℕ → Text → ℕ → GeneratedToken → GeneratedToken → AuthResponse
session_response account session device now access refresh = record {
  user = account;
  session_id = session;
  device_id = device;
  session_expires_at = some (now + session_absolute_lifetime);
  access_token = access.raw;
  access_token_expires_at = now + access_token_lifetime;
  refresh_token = refresh.raw;
  refresh_token_expires_at = now + session_idle_lifetime;
}

unfoldable pub create_session_response :
    Library → Environment → User → Text → Database → Answer (AuthResponse × Database)
unfolding device_for new_token add_session add_access_token add_refresh_token session_response
create_session_response lib env account requested db =
    let now = env.clock session_reading in
    do
      device ← device_for lib env requested
      access ← new_token lib (env.random access_draw)
      refresh ← new_token lib (env.random refresh_draw)
      (session, opened) ← add_session env account device (now + session_idle_lifetime) db
      with_access ← add_access_token env session access.hash (now + access_token_lifetime) opened
      with_refresh ←
          add_refresh_token env session none refresh.hash (now + session_idle_lifetime) with_access
      ok (session_response account session device now access refresh, with_refresh)

abbrev pub valid_optional_device_id : Text → Bool
valid_optional_device_id value = leb (byte_length value) 128
