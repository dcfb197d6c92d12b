-- ===== src/Auth/Access.antt =====
-- auth.go: the query of requireAuthentication, and logout, logoutAll, revokeSession and listSessions.
use im_backend.Prelude.{
  ℕ, ◌+◌, Bool, true, false, ◌&&◌, ◌||◌, List, Option, none, some, ltb, ◌==◌, if◌then◌else◌, map,
  any, find, keep, sort_by,
}
use im_backend.Message.{Text}
use im_backend.Outbox.Types.{Reply, served, refused, lost}
use im_backend.Messages.Store.{text_eq}
use im_backend.Auth.Types.{
  Session, AccessToken, Database, Environment, cutoff_reading, select_session,
  session_absolute_lifetime,
}
use im_backend.Auth.Cipher.{Library}
use im_backend.Auth.Sessions.{decode_and_hash_token}

-- s.revoked_at IS NULL AND s.idle_expires_at > CURRENT_TIMESTAMP AND s.created_at > $2, where $2 is the
-- clock less the absolute lifetime.
unfoldable pub is_live : Environment → Session → Bool
is_live env s = elim s.revoked_at [
  | some _ ↦ false
  | none ↦
      ltb env.started s.idle_expires_at
      && ltb (env.clock cutoff_reading) (s.created_at + session_absolute_lifetime)
]

-- JOIN sessions AS s ON s.id = …
unfoldable pub find_session : ℕ → Database → Option Session
find_session id db = find (λ s. s.id == id) db.sessions

pub record Identity : Type 0 where
  pub user_id : ℕ
  pub session_id : ℕ
  pub device_id : Text
  pub token_expires_at : ℕ

-- The handler goes on with the identity, or answers AUTHENTICATION_REQUIRED or
-- AUTHENTICATION_UNAVAILABLE.
pub data Access : Type 0 where
  allowed : Identity → Access
  required unavailable : Access

unfoldable pub identity : AccessToken → Session → Identity
identity a s = record {
  user_id = s.user_id;
  session_id = s.id;
  device_id = s.device_id;
  token_expires_at = a.expires_at;
}

unfoldable pub of_session : Environment → AccessToken → Option Session → Access
unfolding is_live identity
of_session env a none = required
of_session env a (some s) =
    if ltb env.started a.expires_at && is_live env s then allowed (identity a s) else required

unfoldable pub of_token : Environment → Database → Option AccessToken → Access
unfolding of_session find_session
of_token env db none = required
of_token env db (some a) = of_session env a (find_session a.session_id db)

-- token_hash is unique, so the row with it is the only one.
unfoldable pub of_hash : Environment → Database → Option Text → Access
unfolding of_token
of_hash env db none = required
of_hash env db (some hash) =
    if env.fails select_session
    then unavailable
    else of_token env db (find (λ a. text_eq a.token_hash hash) db.access_tokens)

-- The bearer token of the header, where it has one.
unfoldable pub require_authentication : Library → Environment → Option Text → Database → Access
unfolding of_hash
require_authentication lib env none db = required
require_authentication lib env (some token) db = of_hash env db (decode_and_hash_token lib token)

-- SET revoked_at = CURRENT_TIMESTAMP WHERE … AND revoked_at IS NULL
unfoldable pub revoke : ℕ → Session → Session
revoke now s = elim s.revoked_at [ some _ ↦ s | none ↦ record s { revoked_at = some now } ]

unfoldable pub revoke_where : (Session → Bool) → ℕ → Database → Database
unfolding revoke
revoke_where p now db = record db {
  sessions = map (λ s. if p s then revoke now s else s) db.sessions;
}

unfoldable pub is_open : Session → Bool
is_open s = elim s.revoked_at [ some _ ↦ false | none ↦ true ]

pub data Status : Type 0 where
  no_content internal_error session_not_found invalid_session_id : Status

-- One statement is a transaction of its own: it runs, is refused, or runs and its answer is lost.
unfoldable pub executed : Reply → Database → Database → Status → Database × Status
executed served before after s = (after, s)
executed refused before after s = (before, internal_error)
executed lost before after s = (after, internal_error)

unfoldable pub logout : Environment → Identity → Database → Database × Status
unfolding executed revoke_where
logout env who db =
    executed env.reply db (revoke_where (λ s. s.id == who.session_id) env.started db) no_content

unfoldable pub logout_all : Environment → Identity → Database → Database × Status
unfolding executed revoke_where
logout_all env who db =
    executed env.reply db (revoke_where (λ s. s.user_id == who.user_id) env.started db) no_content

unfoldable pub is_owned : ℕ → ℕ → Session → Bool
is_owned session user s = (s.id == session) && (s.user_id == user)

-- RowsAffected() tells whether there was an open session to revoke.
unfoldable pub revocation_status : ℕ → ℕ → Database → Status
unfolding is_owned is_open
revocation_status session user db =
    if any (λ s. is_owned session user s && is_open s) db.sessions
    then no_content
    else session_not_found

-- The session of the path, none where it is not a positive integer.
unfoldable pub revoke_session_of : Environment → Identity → Option ℕ → Database → Database × Status
unfolding executed revoke_where is_owned revocation_status
revoke_session_of env who none db = (db, invalid_session_id)
revoke_session_of env who (some session) db =
    executed env.reply db (revoke_where (is_owned session who.user_id) env.started db)
      (revocation_status session who.user_id db)

pub record SessionResponse : Type 0 where
  pub id : ℕ
  pub device_id : Text
  pub created_at : ℕ
  pub idle_expires_at : ℕ
  pub absolute_expires_at : ℕ
  pub revoked_at : Option ℕ
  pub current : Bool

unfoldable pub session_row : ℕ → Session → SessionResponse
session_row current s = record {
  id = s.id;
  device_id = s.device_id;
  created_at = s.created_at;
  idle_expires_at = s.idle_expires_at;
  absolute_expires_at = s.created_at + session_absolute_lifetime;
  revoked_at = s.revoked_at;
  current = s.id == current;
}

-- ORDER BY created_at DESC, id DESC
unfoldable pub newest_first : Session → Session → Bool
newest_first s t =
    ltb t.created_at s.created_at || ((s.created_at == t.created_at) && ltb t.id s.id)

-- The sessions of the user, none where the database fails.
unfoldable pub list_sessions : Environment → Identity → Database → Option (List SessionResponse)
unfolding newest_first session_row
list_sessions env who db =
    if env.fails select_session
    then none
    else some (
        map (session_row who.session_id)
          (sort_by newest_first (keep (λ s. s.user_id == who.user_id) db.sessions)))
