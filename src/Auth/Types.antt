-- ===== src/Auth/Types.antt =====
-- auth.go and schema.sql: the accounts, sessions, tokens and stored responses, and what a request
-- meets outside the program. Times are microseconds since the epoch, the resolution of the tables.
use im_backend.Prelude.{ℕ, ◌*◌, Bool, List, Option}
use im_backend.Message.{Text}
use im_backend.Outbox.Types.{Reply}

abbrev pub minute : ℕ
minute = 60 * 1000000

abbrev pub day : ℕ
day = 24 * 60 * minute

abbrev pub access_token_lifetime : ℕ
access_token_lifetime = 15 * minute

abbrev pub session_idle_lifetime : ℕ
session_idle_lifetime = 90 * day

abbrev pub session_absolute_lifetime : ℕ
session_absolute_lifetime = 365 * day

abbrev pub idempotency_lifetime : ℕ
idempotency_lifetime = 10 * minute

abbrev pub token_length : ℕ
token_length = 32

pub record User : Type 0 where
  pub id : ℕ
  pub username : Text
  pub display_name : Text

-- A row of users.
pub record Account : Type 0 where
  pub user : User
  pub password_hash : Text

pub record Session : Type 0 where
  pub id : ℕ
  pub user_id : ℕ
  pub device_id : Text
  pub idle_expires_at : ℕ
  pub revoked_at : Option ℕ
  pub created_at : ℕ

pub record AccessToken : Type 0 where
  pub session_id : ℕ
  pub token_hash : Text
  pub expires_at : ℕ

pub record RefreshToken : Type 0 where
  pub id : ℕ
  pub session_id : ℕ
  pub parent_token_id : Option ℕ
  pub token_hash : Text
  pub expires_at : ℕ
  pub consumed_at : Option ℕ

pub record LoginResult : Type 0 where
  pub request_id_hash : Text
  pub user_id : ℕ
  pub session_id : ℕ
  pub encrypted_response : Text
  pub nonce : Text
  pub key_version : ℕ
  pub expires_at : ℕ

pub record RefreshResult : Type 0 where
  pub refresh_token_id : ℕ
  pub idempotency_key_hash : Text
  pub encrypted_response : Text
  pub nonce : Text
  pub key_version : ℕ
  pub expires_at : ℕ

-- A generated key is the next number of its table.
pub record Database : Type 0 where
  pub users : List Account
  pub sessions : List Session
  pub access_tokens : List AccessToken
  pub refresh_tokens : List RefreshToken
  pub login_results : List LoginResult
  pub refresh_results : List RefreshResult
  pub next_user_id : ℕ
  pub next_session_id : ℕ
  pub next_token_id : ℕ

-- sessionExpiresAt is none where it is the zero time, as in responses stored before it was added.
pub record AuthResponse : Type 0 where
  pub user : User
  pub session_id : ℕ
  pub device_id : Text
  pub session_expires_at : Option ℕ
  pub access_token : Text
  pub access_token_expires_at : ℕ
  pub refresh_token : Text
  pub refresh_token_expires_at : ℕ

pub record GeneratedToken : Type 0 where
  pub raw : Text
  pub hash : Text

-- The statements that may fail, the calls of rand.Read, and the calls of currentTime.
pub data Statement : Type 0 where
  select_credentials select_login_result lock_user insert_user insert_session insert_access_token
        insert_refresh_token insert_login_result consume_refresh_token select_user extend_session
        insert_refresh_result select_refresh_token select_refresh_result revoke_session
        select_session update_password :
      Statement

pub data Draw : Type 0 where
  device_draw access_draw refresh_draw nonce_draw salt_draw : Draw

pub data Reading : Type 0 where
  cutoff_reading session_reading result_reading idle_reading absolute_reading replay_reading :
      Reading

-- What a request meets: CURRENT_TIMESTAMP of its transaction, the clock of the process at each of its
-- calls, which statements fail, the random bytes it draws (none where rand.Read fails), the fate of its
-- commit and whether the rate limiter admits it.
pub record Environment : Type 0 where
  pub started : ℕ
  pub clock : Reading → ℕ
  pub fails : Statement → Bool
  pub random : Draw → Option Text
  pub reply : Reply
  pub admitted : Bool
