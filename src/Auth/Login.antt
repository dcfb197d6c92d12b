-- ===== src/Auth/Login.antt =====
-- auth.go: login, loadUserCredentials, loadLoginResult and createIdempotentLogin.
pub mod Issued
pub mod Retry
pub mod Replay
use im_backend.Prelude.{
  ok, err, refuse_if, ◌>>=◌, ◌>>◌, ℕ, ◌+◌, Bool, true, false, ◌&&◌, ◌||◌, not, List, [], ◌∷◌,
  Option, none, some, ltb, leb, ◌==◌, if◌then◌else◌, any, find, length, codes,
}
use im_backend.Message.{Text}
use im_backend.Messages.Store.{text_eq}
use im_backend.Messages.Command.{valid_opaque_id}
use im_backend.Auth.Answer.{
  Answer, Fault, failure, credentials_changed, idempotency_conflict, username_conflict,
  password_conflict, required,
}
use im_backend.Auth.Types.{
  User, Account, Session, LoginResult, Database, AuthResponse, Environment, select_credentials,
  select_login_result, lock_user, insert_login_result, nonce_draw, result_reading,
  idempotency_lifetime, session_absolute_lifetime,
}
use im_backend.Auth.Cipher.{Library, ResponseCipher, encrypt, decrypt}
use im_backend.Auth.Sessions.{transaction, create_session_response, valid_optional_device_id}
use im_backend.Auth.Access.{is_live, find_session}

abbrev pub login_purpose : Text
login_purpose = codes "login"

-- A response of before sessionExpiresAt was stored gets it from the session.
unfoldable pub with_session_expiry : ℕ → AuthResponse → AuthResponse
with_session_expiry created r = elim r.session_expires_at [
  | some _ ↦ r
  | none ↦ record r { session_expires_at = some (created + session_absolute_lifetime) }
]

unfoldable pub opened_login :
    Library → ResponseCipher → LoginResult → ℕ → Answer (Option AuthResponse)
unfolding decrypt with_session_expiry
opened_login lib c result created = do
  response ←
      decrypt lib c result.key_version login_purpose result.request_id_hash result.nonce
        result.encrypted_response
  ok (some (with_session_expiry created response))

unfoldable pub usable_login :
    Library
    → ResponseCipher
    → Environment
    → ℕ
    → LoginResult
    → Option Session
    → Answer (Option AuthResponse)
unfolding is_live opened_login
usable_login lib c env user result none = ok none
usable_login lib c env user result (some s) =
    if (result.user_id == user) && ltb env.started result.expires_at && is_live env s
    then opened_login lib c result s.created_at
    else ok none

unfoldable pub found_login :
    Library
    → ResponseCipher
    → Environment
    → ℕ
    → Database
    → Option LoginResult
    → Answer (Option AuthResponse)
unfolding usable_login find_session
found_login lib c env user db none = ok none
found_login lib c env user db (some result) =
    usable_login lib c env user result (find_session result.session_id db)

abbrev pub is_request : Text → LoginResult → Bool
is_request hash r = text_eq r.request_id_hash hash

-- request_id_hash is the primary key.
unfoldable pub load_login_result :
    Library → ResponseCipher → Environment → Text → ℕ → Database → Answer (Option AuthResponse)
unfolding found_login
load_login_result lib c env hash user db =
    refuse_if (env.fails select_login_result) failure
    >> found_login lib c env user db (find (is_request hash) db.login_results)

unfoldable pub login_result :
    ResponseCipher → Environment → Text → ℕ → ℕ → Text × Text → LoginResult
login_result c env hash user session (encrypted, nonce) = record {
  request_id_hash = hash;
  user_id = user;
  session_id = session;
  encrypted_response = encrypted;
  nonce = nonce;
  key_version = c.key_version;
  expires_at = env.clock result_reading + idempotency_lifetime;
}

-- The primary key is checked where the statement runs; a conflict is 23505.
unfoldable pub add_login_result : Environment → LoginResult → Database → Answer Database
add_login_result env result db =
    refuse_if (env.fails insert_login_result) failure
    >> refuse_if (leb result.expires_at env.started) failure
    >> refuse_if (any (is_request result.request_id_hash) db.login_results) idempotency_conflict
    >> ok (record db { login_results = result ∷ db.login_results })

-- SELECT password_hash FROM users WHERE id = $1 FOR SHARE
unfoldable pub password_hash_of : ℕ → Database → Option Text
password_hash_of user db = elim (find (λ (a : Account). a.user.id == user) db.users) [
  | none ↦ none
  | some a ↦ some a.password_hash
]

unfoldable pub login_transaction :
    Library
    → ResponseCipher
    → Environment
    → User
    → Text
    → Text
    → Text
    → Database
    → Answer (AuthResponse × Database)
unfolding password_hash_of create_session_response login_result add_login_result
login_transaction lib c env account verified device hash db = do
  refuse_if (env.fails lock_user) failure
  current ← required (password_hash_of account.id db)
  refuse_if (not (text_eq current verified)) credentials_changed
  (response, opened) ← create_session_response lib env account device db
  stored ← encrypt lib c (env.random nonce_draw) login_purpose hash response
  after ←
      add_login_result env (login_result c env hash account.id response.session_id stored) opened
  ok (response, after)

unfoldable pub found_or_conflict : Answer (Option AuthResponse) → Answer AuthResponse
found_or_conflict (err e) = err e
found_or_conflict (ok none) = err idempotency_conflict
found_or_conflict (ok (some r)) = ok r

-- After a conflict the result of the other login is read back.
unfoldable pub after_login :
    Library
    → ResponseCipher
    → Environment
    → ℕ
    → Text
    → Database × Answer AuthResponse
    → Database × Answer AuthResponse
unfolding found_or_conflict load_login_result
after_login lib c env user hash (db, err idempotency_conflict) =
    (db, found_or_conflict (load_login_result lib c env hash user db))
after_login lib c env user hash (db, answer) = (db, answer)

unfoldable pub create_idempotent_login :
    Library
    → ResponseCipher
    → Environment
    → User
    → Text
    → Text
    → Text
    → Database
    → Database × Answer AuthResponse
unfolding after_login transaction login_transaction
create_idempotent_login lib c env account verified device hash db =
    after_login lib c env account.id hash
      (transaction env.reply db (login_transaction lib c env account verified device hash db))
