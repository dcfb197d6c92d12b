-- ===== src/Auth/Password.antt =====
-- auth.go: changePassword.
pub mod Changed
pub mod Stored
use im_backend.Prelude.{
  ok, err, refuse_if, ◌>>◌, ℕ, Bool, true, false, ◌&&◌, not, Option, none, some, ◌==◌,
  if◌then◌else◌, any, map,
}
use im_backend.Message.{Text}
use im_backend.Messages.Store.{text_eq}
use im_backend.Auth.Answer.{Answer, failure, password_conflict}
use im_backend.Auth.Types.{
  Account, Database, Environment, select_credentials, update_password, revoke_session,
}
use im_backend.Auth.Cipher.{Library}
use im_backend.Auth.Sessions.{transaction}
use im_backend.Auth.Access.{Identity, revoke_where}
use im_backend.Auth.Login.{password_hash_of}
use im_backend.Auth.PasswordHash.{verify_password}
use im_backend.Auth.Register.{new_password_hash}
use im_backend.Auth.Accounts.{
  Response, success, error, internal_error, invalid_new_password, password_unchanged,
  current_password_invalid, password_change_conflict, valid_password,
}

-- WHERE id = $2 AND password_hash = $3
unfoldable pub has_password : ℕ → Text → Account → Bool
has_password user hash a = (a.user.id == user) && text_eq a.password_hash hash

unfoldable pub set_password : ℕ → Text → Text → Account → Account
unfolding has_password
set_password user old new a =
    if has_password user old a then record a { password_hash = new } else a

-- Every session of the user is closed with the password.
unfoldable pub password_transaction :
    Environment → ℕ → Text → Text → Database → Answer (Unit {0} × Database)
unfolding has_password set_password revoke_where
password_transaction env user old new db =
    refuse_if (env.fails update_password) failure
    >> refuse_if (not (any (has_password user old) db.users)) password_conflict
    >> refuse_if (env.fails revoke_session) failure
    >> ok (
      tt,
      revoke_where (λ s. s.user_id == user) env.started
          (record db { users = map (set_password user old new) db.users }),
    )

unfoldable pub password_answer : Database × Answer (Unit {0}) → Database × Response (Unit {0})
password_answer (db, ok tt) = (db, success tt)
password_answer (db, err password_conflict) = (db, error password_change_conflict)
password_answer (db, err e) = (db, error internal_error)

unfoldable pub change_verified :
    Library
    → Environment
    → ℕ
    → Text
    → Text
    → Database
    → Option Bool
    → Answer Text
    → Database × Response (Unit {0})
unfolding password_answer transaction password_transaction
change_verified lib env user old new later none hashed = (later, error current_password_invalid)
change_verified lib env user old new later (some false) hashed =
    (later, error current_password_invalid)
change_verified lib env user old new later (some true) (err e) = (later, error internal_error)
change_verified lib env user old new later (some true) (ok hash) =
    password_answer (transaction env.reply later (password_transaction env user old hash later))

unfoldable pub change_from :
    Library
    → Environment
    → ℕ
    → Text
    → Text
    → Database
    → Option Text
    → Database × Response (Unit {0})
unfolding change_verified new_password_hash
change_from lib env user current new later none = (later, error internal_error)
change_from lib env user current new later (some hash) =
    change_verified lib env user hash new later (verify_password lib current hash)
      (new_password_hash lib env new)

-- `db` is read and `later` is what other requests have made of it when the password is written.
unfoldable pub change_password :
    Library
    → Environment
    → Identity
    → Text
    → Text
    → Database
    → Database
    → Database × Response (Unit {0})
unfolding change_from password_hash_of
change_password lib env who current new db later =
    if not (valid_password new)
    then (later, error invalid_new_password)
    else if text_eq current new
    then (later, error password_unchanged)
    else if env.fails select_credentials
    then (later, error internal_error)
    else change_from lib env who.user_id current new later (password_hash_of who.user_id db)
