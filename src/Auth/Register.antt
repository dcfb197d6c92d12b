-- ===== src/Auth/Register.antt =====
-- auth.go: the handler register, after decodeSingleJSON.
use im_backend.Prelude.{
  ok, err, refuse_if, ◌>>=◌, ◌>>◌, suc, ◌||◌, not, ◌∷◌, Option, none, some, ltb, ◌==◌,
  if◌then◌else◌, any, length, trim_space,
}
use im_backend.Message.{Text}
use im_backend.Messages.Store.{text_eq}
use im_backend.Auth.Answer.{Answer, failure, username_conflict, required}
use im_backend.Auth.Types.{
  User, Account, Database, AuthResponse, Environment, insert_user, salt_draw,
}
use im_backend.Auth.Cipher.{Library}
use im_backend.Auth.PasswordHash.{hash_password}
use im_backend.Auth.Sessions.{transaction, create_session_response, valid_optional_device_id}
use im_backend.Auth.Accounts.{
  ApiError, Response, success, error, invalid_username, invalid_display_name, invalid_password,
  invalid_device_id, rate_limited, username_conflicts, internal_error, max_display_name_runes,
  valid_password, matches_username_pattern,
}

unfoldable pub new_password_hash : Library → Environment → Text → Answer Text
new_password_hash lib env password = do
  salt ← required (env.random salt_draw)
  ok (hash_password lib salt password)

abbrev pub new_user : Text → Text → Database → User
new_user username display db = record {
  id = db.next_user_id;
  username = username;
  display_name = display;
}

-- users.username is unique; a conflict is 23505. The other constraints of users are those the handler
-- has checked.
unfoldable pub add_user : Environment → Text → Text → Text → Database → Answer (User × Database)
add_user env username display hash db =
    let user = new_user username display db in
    refuse_if (env.fails insert_user) failure
    >> refuse_if (any (λ (a : Account). text_eq a.user.username username) db.users)
        username_conflict
    >> ok (
      user,
      record db {
        users = record { user = user; password_hash = hash } ∷ db.users;
        next_user_id = suc db.next_user_id;
      },
    )

unfoldable pub register_transaction :
    Library → Environment → Text → Text → Text → Text → Database → Answer (AuthResponse × Database)
unfolding new_password_hash add_user create_session_response
register_transaction lib env username display password device db = do
  hash ← new_password_hash lib env password
  (created, with_user) ← add_user env username display hash db
  create_session_response lib env created device with_user

unfoldable pub register_answer : Database × Answer AuthResponse → Database × Response AuthResponse
register_answer (db, ok r) = (db, success r)
register_answer (db, err username_conflict) = (db, error username_conflicts)
register_answer (db, err e) = (db, error internal_error)

-- The checks of register, in their order, on the trimmed names. The rate limiter admits the request or
-- has answered it.
unfoldable pub register_checks : Environment → Text → Text → Text → Text → Option ApiError
register_checks env username display password device =
    if not (matches_username_pattern username)
    then some invalid_username
    else if (length display == 0) || ltb max_display_name_runes (length display)
    then some invalid_display_name
    else if not (valid_password password)
    then some invalid_password
    else if not (valid_optional_device_id device)
    then some invalid_device_id
    else if not env.admitted
    then some rate_limited
    else none

unfoldable pub register :
    Library → Environment → Text → Text → Text → Text → Database → Database × Response AuthResponse
unfolding register_checks register_answer transaction register_transaction
register lib env username display password device db =
    let name = lib.to_lower (trim_space username) in
    let shown = trim_space display in
    elim (register_checks env name shown password device) [
      | some e ↦ (db, error e)
      | none ↦
          register_answer
            (transaction env.reply db (register_transaction lib env name shown password device db))
    ]
