-- ===== src/Auth/Closed/Handlers.antt =====
-- register, login, refresh and changePassword of auth.go keep a closed session closed.
use im_backend.Prelude.{
  ok, err, ℕ, ◌≡◌, refl, sym, subst, ◌∙◌, arith, inl, inr, Bool, true, false, Option, none, some,
  Bool-cases, either_way, Option-cases, not, trim_space,
}
use im_backend.Message.{Text}
use im_backend.Messages.Store.{text_eq}
use im_backend.Messages.Command.{valid_opaque_id}
use im_backend.Auth.Answer.{Answer, Ensures, Ensures-checked}
use im_backend.Auth.Types.{Database, Environment, AuthResponse, User, Account, select_credentials}
use im_backend.Auth.Cipher.{Library, ResponseCipher}
use im_backend.Auth.Sessions.{transaction}
use im_backend.Auth.Access.{Identity}
use im_backend.Auth.Login.{after_login, create_idempotent_login, login_transaction}
use im_backend.Auth.Refresh.{rotate_refresh_token}
use im_backend.Auth.Reuse.{Outcome, rotated, unauthorized}
use im_backend.Auth.Register.{register, register_checks, register_answer, register_transaction}
use im_backend.Auth.Accounts.{
  Response, login, login_checks, login_answer, login_or_replay, login_verified, login_account,
  refresh, refresh_hash, refresh_answer, valid_password,
}
use im_backend.Auth.Password.{
  password_transaction, password_answer, change_verified, change_from, change_password,
}
use im_backend.Auth.Closed.{IsClosed, revoke_where-IsClosed, same_sessions-IsClosed}
use im_backend.Auth.Closed.Steps.{
  KeepsClosed, transaction-IsClosed, login_transaction-IsClosed, register_transaction-IsClosed,
}
use im_backend.Auth.Closed.Calls.{rotate_refresh_token-IsClosed}

module _ (id : ℕ) (db : Database) (c : IsClosed id db) where
  refresh_answer-db : (r : Database × Answer Outcome) → (refresh_answer r).0 ≡ r.0
  unfolding refresh_answer
  refresh_answer-db (after, err e) = refl
  refresh_answer-db (after, ok unauthorized) = refl
  refresh_answer-db (after, ok (rotated r)) = refl

  module _ (lib : Library) (env : Environment) where
    refresh_hash-IsClosed :
        (cipher : Option ResponseCipher) (key : Text) (hash : Option Text)
        → IsClosed id (refresh_hash lib cipher env key hash db).0
    unfolding refresh_hash
    refresh_hash-IsClosed cipher key none = c
    refresh_hash-IsClosed none key (some hash) = c
    refresh_hash-IsClosed (some cipher) key (some hash) =
        either_way (λ (r : Database × Response AuthResponse). IsClosed id r.0) env.admitted _ _
          (subst (IsClosed id)
            (sym (refresh_answer-db (rotate_refresh_token lib cipher env hash (lib.sha256 key) db)))
            (rotate_refresh_token-IsClosed id db c lib cipher env hash (lib.sha256 key)))
          c

    pub refresh-IsClosed :
        (cipher : Option ResponseCipher) (token key : Text)
        → IsClosed id (refresh lib cipher env token key db).0
    unfolding refresh
    refresh-IsClosed cipher token key = elim (Bool-cases (valid_opaque_id key)) [
      | inr e ↦ rw e c
      | inl e ↦ rw e (refresh_hash-IsClosed cipher key _)
    ]

    register_answer-db : (r : Database × Answer AuthResponse) → (register_answer r).0 ≡ r.0
    unfolding register_answer
    register_answer-db (after, ok r) = refl
    register_answer-db (after, err e) = ground arith

    pub register-IsClosed :
        (username display password device : Text)
        → IsClosed id (register lib env username display password device db).0
    unfolding register
    register-IsClosed username display password device =
        let name = lib.to_lower (trim_space username) in
        let shown = trim_space display in
        elim (Option-cases (register_checks env name shown password device)) [
          | inr (e, f) ↦ rw (f, register) c
          | inl f ↦
              rw (f, register)
                (subst (IsClosed id)
                  (sym (
                    register_answer-db (
                      transaction env.reply db
                        (register_transaction lib env name shown password device db))))
                  (transaction-IsClosed id env.reply db _ c
                    (register_transaction-IsClosed id lib env name shown password device db c)))
        ]

    after_login-db :
        (cipher : ResponseCipher) (user : ℕ) (hash : Text) (r : Database × Answer AuthResponse)
        → (after_login lib cipher env user hash r).0 ≡ r.0
    unfolding after_login
    after_login-db cipher user hash (after, ok r) = refl
    after_login-db cipher user hash (after, err e) = ground arith

    login_answer-db : (r : Database × Answer AuthResponse) → (login_answer r).0 ≡ r.0
    unfolding login_answer
    login_answer-db (after, ok r) = refl
    login_answer-db (after, err e) = ground arith

    login_or_replay-IsClosed :
        (cipher : ResponseCipher) (account : User) (verified device request : Text)
        (read : Database) (found : Answer (Option AuthResponse))
        → IsClosed id
            (login_or_replay lib cipher env account verified device request read db found).0
    unfolding login_or_replay create_idempotent_login
    login_or_replay-IsClosed cipher account verified device request read (err e) = c
    login_or_replay-IsClosed cipher account verified device request read (ok (some r)) = c
    login_or_replay-IsClosed cipher account verified device request read (ok none) =
        subst (IsClosed id)
          (sym (
            login_answer-db
              (create_idempotent_login lib cipher env account verified device request db)
            ∙ after_login-db cipher account.id request (
                transaction env.reply db
                  (login_transaction lib cipher env account verified device request db))))
          (transaction-IsClosed id env.reply db _ c
            (login_transaction-IsClosed id lib cipher env account verified device request db c))

    login_verified-IsClosed :
        (cipher : Option ResponseCipher) (a : Account) (password device request : Text)
        (read : Database) (matches : Option Bool)
        → IsClosed id (login_verified lib cipher env a password device request read db matches).0
    unfolding login_verified
    login_verified-IsClosed cipher a password device request read none = c
    login_verified-IsClosed cipher a password device request read (some false) = c
    login_verified-IsClosed none a password device request read (some true) = c
    login_verified-IsClosed (some cipher) a password device request read (some true) =
        login_or_replay-IsClosed cipher a.user a.password_hash device (lib.sha256 request) read _

    login_account-IsClosed :
        (cipher : Option ResponseCipher) (password device request : Text) (read : Database)
        (a : Option Account)
        → IsClosed id (login_account lib cipher env password device request read db a).0
    unfolding login_account
    login_account-IsClosed cipher password device request read none = c
    login_account-IsClosed cipher password device request read (some a) =
        login_verified-IsClosed cipher a password device request read _

    pub login-IsClosed :
        (cipher : Option ResponseCipher) (username password request device : Text) (read : Database)
        → IsClosed id (login lib cipher env username password request device read db).0
    unfolding login
    login-IsClosed cipher username password request device read =
        elim (Option-cases
          (login_checks env (lib.to_lower (trim_space username)) password request device)) [
            | inr (e, f) ↦ rw (f, login) c
            | inl f ↦ rw (f, login) (login_account-IsClosed cipher password device request read _)
          ]

    password_transaction-IsClosed :
        (user : ℕ) (old new : Text)
        → Ensures (KeepsClosed id) (password_transaction env user old new db)
    unfolding password_transaction
    password_transaction-IsClosed user old new = Ensures-checked (KeepsClosed id) _ _ _ (
        Ensures-checked (KeepsClosed id) _ _ _ (
          Ensures-checked (KeepsClosed id) _ _ _
            (revoke_where-IsClosed id _ _ _ (same_sessions-IsClosed id db _ refl refl c))))

    password_answer-db : (r : Database × Answer (Unit {0})) → (password_answer r).0 ≡ r.0
    unfolding password_answer
    password_answer-db (after, ok tt) = refl
    password_answer-db (after, err e) = ground arith

    change_verified-IsClosed :
        (user : ℕ) (old new : Text) (matches : Option Bool) (hashed : Answer Text)
        → IsClosed id (change_verified lib env user old new db matches hashed).0
    unfolding change_verified
    change_verified-IsClosed user old new none hashed = c
    change_verified-IsClosed user old new (some false) hashed = c
    change_verified-IsClosed user old new (some true) (err e) = c
    change_verified-IsClosed user old new (some true) (ok hash) =
        subst (IsClosed id)
          (sym (
            password_answer-db
              (transaction env.reply db (password_transaction env user old hash db))))
          (transaction-IsClosed id env.reply db _ c (password_transaction-IsClosed user old hash))

    change_from-IsClosed :
        (user : ℕ) (current new : Text) (stored : Option Text)
        → IsClosed id (change_from lib env user current new db stored).0
    unfolding change_from
    change_from-IsClosed user current new none = c
    change_from-IsClosed user current new (some hash) = change_verified-IsClosed user hash new _ _

    pub change_password-IsClosed :
        (who : Identity) (current new : Text) (read : Database)
        → IsClosed id (change_password lib env who current new read db).0
    unfolding change_password
    change_password-IsClosed who current new read = elim (Bool-cases (not (valid_password new))) [
      | inl e ↦ rw e c
      | inr e ↦ elim (Bool-cases (text_eq current new)) [
        | inl f ↦ rw (e, f) c
        | inr f ↦ elim (Bool-cases (env.fails select_credentials)) [
          | inl g ↦ rw (e, f, g) c
          | inr g ↦ rw (e, f, g) (change_from-IsClosed who.user_id current new _)
        ]
      ]
    ]
