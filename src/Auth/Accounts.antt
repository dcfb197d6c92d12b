-- ===== src/Auth/Accounts.antt =====
-- auth.go: the handlers login and refresh, after decodeSingleJSON.
use im_backend.Prelude.{
  ok, err, ℕ, Bool, true, false, ◌&&◌, ◌||◌, not, Option, none, some, leb, ◌==◌, if◌then◌else◌, any,
  find, length, trim_space,
}
use im_backend.Message.{Text}
use im_backend.Messages.Store.{text_eq}
use im_backend.Messages.Command.{valid_opaque_id}
use im_backend.Auth.Answer.{Answer, credentials_changed, idempotency_conflict}
use im_backend.Auth.Types.{User, Account, Database, AuthResponse, Environment, select_credentials}
use im_backend.Auth.Cipher.{Library, ResponseCipher}
use im_backend.Auth.PasswordHash.{verify_password}
use im_backend.Auth.Sessions.{decode_and_hash_token, valid_optional_device_id}
use im_backend.Auth.Login.{load_login_result, create_idempotent_login}
use im_backend.Auth.Refresh.{rotate_refresh_token}
use im_backend.Auth.Reuse.{Outcome, rotated, unauthorized}

pub data ApiError : Type 0 where
  invalid_username invalid_display_name invalid_password invalid_device_id rate_limited
        username_conflicts internal_error invalid_login_request_id invalid_credentials
        login_recovery_unavailable login_request_id_conflict invalid_idempotency_key
        refresh_token_invalid refresh_recovery_unavailable invalid_new_password password_unchanged
        current_password_invalid password_change_conflict :
      ApiError

pub data Response {ℓ} (A : Type ℓ) : Type ℓ where
  success : A → Response A
  error : ApiError → Response A

abbrev pub max_display_name_runes : ℕ
max_display_name_runes = 100

-- The length of a text is its number of runes.
abbrev pub valid_password : Text → Bool
valid_password password = leb 8 (length password) && leb (length password) 128

abbrev pub is_username_rune : ℕ → Bool
is_username_rune c = (leb 97 c && leb c 122) || (leb 48 c && leb c 57) || (c == 95)

-- ^[a-z0-9_]{3,32}$
abbrev pub matches_username_pattern : Text → Bool
matches_username_pattern name =
    leb 3 (length name) && leb (length name) 32 && not (any (λ c. not (is_username_rune c)) name)

unfoldable pub login_answer : Database × Answer AuthResponse → Database × Response AuthResponse
login_answer (db, ok r) = (db, success r)
login_answer (db, err credentials_changed) = (db, error invalid_credentials)
login_answer (db, err idempotency_conflict) = (db, error login_request_id_conflict)
login_answer (db, err e) = (db, error internal_error)

-- The login is created on the database as other requests have left it by then.
unfoldable pub login_or_replay :
    Library
    → ResponseCipher
    → Environment
    → User
    → Text
    → Text
    → Text
    → Database
    → Database
    → Answer (Option AuthResponse)
    → Database × Response AuthResponse
unfolding login_answer create_idempotent_login
login_or_replay lib c env account hash device request db later (err e) =
    (later, error login_recovery_unavailable)
login_or_replay lib c env account hash device request db later (ok (some r)) = (later, success r)
login_or_replay lib c env account hash device request db later (ok none) =
    login_answer (create_idempotent_login lib c env account hash device request later)

-- What verifyPassword has answered, none where the stored hash cannot be read.
unfoldable pub login_verified :
    Library
    → Option ResponseCipher
    → Environment
    → Account
    → Text
    → Text
    → Text
    → Database
    → Database
    → Option Bool
    → Database × Response AuthResponse
unfolding login_or_replay load_login_result
login_verified lib c env a password device request db later none =
    (later, error invalid_credentials)
login_verified lib c env a password device request db later (some false) =
    (later, error invalid_credentials)
login_verified lib none env a password device request db later (some true) =
    (later, error login_recovery_unavailable)
login_verified lib (some c) env a password device request db later (some true) =
    login_or_replay lib c env a.user a.password_hash device (lib.sha256 request) db later
      (load_login_result lib c env (lib.sha256 request) a.user.id db)

unfoldable pub login_account :
    Library
    → Option ResponseCipher
    → Environment
    → Text
    → Text
    → Text
    → Database
    → Database
    → Option Account
    → Database × Response AuthResponse
unfolding login_verified
login_account lib c env password device request db later none = (later, error invalid_credentials)
login_account lib c env password device request db later (some a) =
    login_verified lib c env a password device request db later
      (verify_password lib password a.password_hash)

unfoldable pub login_checks : Environment → Text → Text → Text → Text → Option ApiError
login_checks env username password request device =
    if not (valid_opaque_id request)
    then some invalid_login_request_id
    else if not (valid_optional_device_id device)
    then some invalid_device_id
    else if not env.admitted
    then some rate_limited
    else if not (matches_username_pattern username) || not (valid_password password)
    then some invalid_credentials
    else if env.fails select_credentials
    then some internal_error
    else none

-- `db` is read and `later` is what other requests have made of it when the login is written.
unfoldable pub login :
    Library
    → Option ResponseCipher
    → Environment
    → Text
    → Text
    → Text
    → Text
    → Database
    → Database
    → Database × Response AuthResponse
unfolding login_checks login_account
login lib c env username password request device db later =
    let name = lib.to_lower (trim_space username) in
    elim (login_checks env name password request device) [
      | some e ↦ (later, error e)
      | none ↦
          login_account lib c env password device request db later
            (find (λ (a : Account). text_eq a.user.username name) db.users)
    ]

unfoldable pub refresh_answer : Database × Answer Outcome → Database × Response AuthResponse
refresh_answer (db, err e) = (db, error refresh_recovery_unavailable)
refresh_answer (db, ok unauthorized) = (db, error refresh_token_invalid)
refresh_answer (db, ok (rotated r)) = (db, success r)

unfoldable pub refresh_hash :
    Library
    → Option ResponseCipher
    → Environment
    → Text
    → Option Text
    → Database
    → Database × Response AuthResponse
unfolding refresh_answer rotate_refresh_token
refresh_hash lib c env key none db = (db, error refresh_token_invalid)
refresh_hash lib none env key (some hash) db =
    (db, error (if env.admitted then refresh_recovery_unavailable else rate_limited))
refresh_hash lib (some c) env key (some hash) db =
    if env.admitted
    then refresh_answer (rotate_refresh_token lib c env hash (lib.sha256 key) db)
    else (db, error rate_limited)

unfoldable pub refresh :
    Library
    → Option ResponseCipher
    → Environment
    → Text
    → Text
    → Database
    → Database × Response AuthResponse
unfolding refresh_hash decode_and_hash_token
refresh lib c env token key db =
    if valid_opaque_id key
    then refresh_hash lib c env key (decode_and_hash_token lib token) db
    else (db, error invalid_idempotency_key)
