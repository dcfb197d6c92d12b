-- ===== src/Auth/Tests.antt =====
-- The theorems of auth.go at concrete requests.
use im_backend.Prelude.{refuse_if, ◌>>=◌, ◌>>◌, ◌+◌, refl, [], ◌∷◌, none, some, arith, codes, parts}
use im_backend.Messages.Store.{text_eq}
use im_backend.Auth.Answer.{required}
use im_backend.Auth.Types.{
  Database, AuthResponse, session_absolute_lifetime, session_idle_lifetime, access_token_lifetime,
  idempotency_lifetime,
}
use im_backend.Auth.Samples.{
  losing, lost_not_refused, sample_library, at_time, alice, old_session, old_token, sample_database,
  owner, written, repeated,
}
use im_backend.Auth.Sessions.{transaction, committed}
use im_backend.Auth.Access.{find_session, logout}
use im_backend.Auth.Login.{password_hash_of}
use im_backend.Auth.Register.{new_password_hash}
use im_backend.Auth.PasswordHash.{verify_password, verify_parts, verify_key, hash_password}
use im_backend.Auth.Password.{
  change_password, change_from, change_verified, password_transaction, password_answer,
  has_password, set_password,
}
use im_backend.Auth.Closed.Final.{StaysOut}
use im_backend.Auth.Closed.Logout.{logout_is_final, changed_password_closes_sessions}

logout_is_final_example : StaysOut sample_library 5 (logout (losing 2000) owner sample_database).0
unfolding find_session
logout_is_final_example =
    logout_is_final sample_library (losing 2000) owner sample_database old_session refl
      (omega arith) lost_not_refused

changed_password_closes_sessions_example :
    StaysOut sample_library 5
      (change_password sample_library
        (at_time 2000)
        owner
        (codes "old password")
        (codes "new password")
        sample_database
        sample_database).0
unfolding find_session change_password change_from change_verified password_transaction
    password_answer has_password set_password new_password_hash password_hash_of verify_password
    verify_parts verify_key hash_password parts transaction committed text_eq refuse_if required
    ◌>>=◌ ◌>>◌
changed_password_closes_sessions_example =
    changed_password_closes_sessions sample_library (at_time 2000) owner (codes "old password")
      (codes "new password") sample_database sample_database old_session 5 refl refl (omega arith)
      refl

abbrev refreshed : AuthResponse
refreshed = record {
  user = alice;
  session_id = 5;
  device_id = codes "phone";
  session_expires_at = some (1000 + session_absolute_lifetime);
  access_token = repeated 32 1;
  access_token_expires_at = 2000 + access_token_lifetime;
  refresh_token = repeated 32 2;
  refresh_token_expires_at = 2000 + session_idle_lifetime;
}

abbrev after_refresh : Database
after_refresh = record sample_database {
  sessions = record old_session { idle_expires_at = 2000 + session_idle_lifetime } ∷ [];
  access_tokens =
      record {
        session_id = 5;
        token_hash = repeated 32 1;
        expires_at = 2000 + access_token_lifetime;
      }
      ∷ [];
  refresh_tokens =
      record {
        id = 4;
        session_id = 5;
        parent_token_id = some 3;
        token_hash = repeated 32 2;
        expires_at = 2000 + session_idle_lifetime;
        consumed_at = none;
      }
      ∷ record old_token { consumed_at = some 2000 }
      ∷ [];
  refresh_results =
      record {
        refresh_token_id = 3;
        idempotency_key_hash = codes "key";
        encrypted_response = written refreshed;
        nonce = repeated 32 3;
        key_version = 1;
        expires_at = 2000 + idempotency_lifetime;
      }
      ∷ [];
  next_token_id = 5;
}
