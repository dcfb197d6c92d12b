-- ===== src/Auth/Login/Replay.antt =====
-- A login of auth.go may be repeated when its answer is lost.
use im_backend.Prelude.{ok, ℕ, ◌≡◌, ◌≢◌, some, find}
use im_backend.Message.{Text}
use im_backend.Outbox.Types.{refused}
use im_backend.Auth.Types.{User, LoginResult, Database, AuthResponse, Environment, nonce_draw}
use im_backend.Auth.Cipher.{Library, ResponseCipher, encrypt}
use im_backend.Auth.Sessions.{new_session}
use im_backend.Auth.Access.{find_session}
use im_backend.Auth.Login.{is_request, login_result, login_purpose, login_transaction}
use im_backend.Auth.Login.Issued.{idle_end}

-- What a login that commits leaves: the session, and the response under the id of the request.
pub record IsLoggedIn (lib : Library) (c : ResponseCipher) (env : Environment) (account : User)
    (hash : Text) (db : Database) (result : AuthResponse × Database) : Type 0 where
  pub sealed_response : Text × Text
  pub is_sealed :
      encrypt lib c (env.random nonce_draw) login_purpose hash result.0 ≡ ok sealed_response
  pub stored :
      find (is_request hash) result.1.login_results
      ≡ some (login_result c env hash account.id result.0.session_id sealed_response)
  pub session :
      find_session result.0.session_id result.1
      ≡ some (new_session env account result.0.device_id (idle_end env) db)
  pub session_dated : (end : ℕ) × (result.0.session_expires_at ≡ some end)

module _ (lib : Library) (c : ResponseCipher) (env : Environment) (account : User) (hash : Text)
    (db : Database) where
  abbrev LoggedIn : AuthResponse × Database → Type 0
  LoggedIn = IsLoggedIn lib c env account hash db

  abbrev Kept : LoginResult → Database → Database → Type 0
  Kept result before after =
      (find (is_request hash) after.login_results ≡ some result)
      × (after.sessions ≡ before.sessions)

-- The transaction of the login gives the response, and its commit takes place.
pub record LogsIn (lib : Library) (c : ResponseCipher) (env : Environment) (account : User)
    (verified device hash : Text) (db : Database) (r : AuthResponse) (after : Database)
    : Type 0 where
  pub done : login_transaction lib c env account verified device hash db ≡ ok (r, after)
  pub commits : env.reply ≢ refused
