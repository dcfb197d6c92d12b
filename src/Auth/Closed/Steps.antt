-- ===== src/Auth/Closed/Steps.antt =====
-- Each transaction of auth.go keeps a closed session closed.
use im_backend.Prelude.{
  ok, err, ℕ, ◌<◌, ◌≡◌, refl, inl, inr, true, false, List, ◌∷◌, Option, none, some, arith, ◌==◌,
  Bool-cases, find,
}
use im_backend.Message.{Text}
use im_backend.Outbox.Types.{Reply, served, refused, lost}
use im_backend.Auth.Answer.{Answer, Ensures, Ensures-bind, Ensures-then, Ensures-checked}
use im_backend.Auth.Types.{
  User, Session, RefreshToken, RefreshResult, LoginResult, Database, Environment,
}
use im_backend.Auth.Cipher.{Library, ResponseCipher}
use im_backend.Auth.Sessions.{
  new_session, committed, transaction, add_session, add_access_token, add_refresh_token,
  create_session_response,
}
use im_backend.Auth.Access.{find_session}
use im_backend.Auth.Login.{login_transaction, add_login_result}
use im_backend.Auth.Refresh.{rotation, consume_in, extend, set_idle_expiry, add_refresh_result}
use im_backend.Auth.Register.{add_user, register_transaction}
use im_backend.Auth.Closed.{IsClosed, is_shut, same_sessions-IsClosed, mapped-IsClosed}

fresh-shut :
    (id : ℕ) (s : Session) (ss : List Session)
    → id < s.id
    → is_shut (find (λ o. o.id == id) ss) ≡ true
    → is_shut (find (λ o. o.id == id) (s ∷ ss)) ≡ true
fresh-shut id s ss l h = rw (other) h
  where
    other : (s.id == id) ≡ false
    other = ground arith

module _ (id : ℕ) where
  -- The second of a pair.
  abbrev pub KeepsClosed {ℓ} : {A : Type ℓ} → A × Database → Type 0
  KeepsClosed result = IsClosed id result.1

  add_session-IsClosed :
      (env : Environment) (account : User) (device : Text) (idle : ℕ) (db : Database)
      → IsClosed id db
      → Ensures KeepsClosed (add_session env account device idle db)
  unfolding add_session new_session find_session
  add_session-IsClosed env account device idle db c = Ensures-checked KeepsClosed _ _ _ (
      Ensures-checked KeepsClosed _ _ _ (record {
        issued = omega (arith, c.issued);
        shut = fresh-shut id (new_session env account device idle db) db.sessions c.issued c.shut;
      }))

  add_access_token-IsClosed :
      (env : Environment) (session : ℕ) (hash : Text) (expires : ℕ) (db : Database)
      → IsClosed id db
      → Ensures (IsClosed id) (add_access_token env session hash expires db)
  unfolding add_access_token
  add_access_token-IsClosed env session hash expires db c = Ensures-checked (IsClosed id) _ _ _ (
      Ensures-checked (IsClosed id) _ _ _
        (Ensures-checked (IsClosed id) _ _ _ (same_sessions-IsClosed id db _ refl refl c)))

  add_refresh_token-IsClosed :
      (env : Environment) (session : ℕ) (parent : Option ℕ) (hash : Text) (expires : ℕ)
      (db : Database)
      → IsClosed id db
      → Ensures (IsClosed id) (add_refresh_token env session parent hash expires db)
  unfolding add_refresh_token
  add_refresh_token-IsClosed env session parent hash expires db c =
      Ensures-checked (IsClosed id) _ _ _ (
        Ensures-checked (IsClosed id) _ _ _
          (Ensures-checked (IsClosed id) _ _ _ (same_sessions-IsClosed id db _ refl refl c)))

  pub create_session_response-IsClosed :
      (lib : Library) (env : Environment) (account : User) (requested : Text) (db : Database)
      → IsClosed id db
      → Ensures KeepsClosed (create_session_response lib env account requested db)
  unfolding create_session_response
  create_session_response-IsClosed lib env account requested db c =
      Ensures-then KeepsClosed _ _ (λ device. Ensures-then KeepsClosed _ _ (λ access.
        Ensures-then KeepsClosed _ _ (λ refresh.
          Ensures-bind KeepsClosed KeepsClosed _ _ (add_session-IsClosed env account device _ db c)
            (λ opened o.
              Ensures-bind (IsClosed id) KeepsClosed _ _
                (add_access_token-IsClosed env opened.0 access.hash _ opened.1 o)
                (λ with_access a.
                  Ensures-bind (IsClosed id) KeepsClosed _ _
                    (add_refresh_token-IsClosed env opened.0 none refresh.hash _ with_access a)
                    (λ with_refresh r. r))))))

  add_login_result-IsClosed :
      (env : Environment) (result : LoginResult) (db : Database)
      → IsClosed id db
      → Ensures (IsClosed id) (add_login_result env result db)
  unfolding add_login_result
  add_login_result-IsClosed env result db c = Ensures-checked (IsClosed id) _ _ _ (
      Ensures-checked (IsClosed id) _ _ _
        (Ensures-checked (IsClosed id) _ _ _ (same_sessions-IsClosed id db _ refl refl c)))

  pub login_transaction-IsClosed :
      (lib : Library) (c : ResponseCipher) (env : Environment) (account : User)
      (verified device hash : Text) (db : Database)
      → IsClosed id db
      → Ensures KeepsClosed (login_transaction lib c env account verified device hash db)
  unfolding login_transaction
  login_transaction-IsClosed lib c env account verified device hash db h =
      Ensures-checked KeepsClosed _ _ _ (
        Ensures-then KeepsClosed _ _ (λ current. Ensures-checked KeepsClosed _ _ _ (
          Ensures-bind KeepsClosed KeepsClosed _ _
            (create_session_response-IsClosed lib env account device db h)
            (λ opened o. Ensures-then KeepsClosed _ _ (λ stored.
              Ensures-bind (IsClosed id) KeepsClosed _ _
                (add_login_result-IsClosed env _ opened.1 o) (λ after a. a))))))

  add_user-IsClosed :
      (env : Environment) (username display hash : Text) (db : Database)
      → IsClosed id db
      → Ensures KeepsClosed (add_user env username display hash db)
  unfolding add_user
  add_user-IsClosed env username display hash db c =
      Ensures-checked KeepsClosed _ _ _
        (Ensures-checked KeepsClosed _ _ _ (same_sessions-IsClosed id db _ refl refl c))

  pub register_transaction-IsClosed :
      (lib : Library) (env : Environment) (username display password device : Text) (db : Database)
      → IsClosed id db
      → Ensures KeepsClosed (register_transaction lib env username display password device db)
  unfolding register_transaction
  register_transaction-IsClosed lib env username display password device db c =
      Ensures-then KeepsClosed _ _ (λ hash.
        Ensures-bind KeepsClosed KeepsClosed _ _ (add_user-IsClosed env username display hash db c)
          (λ with_user u.
            create_session_response-IsClosed lib env with_user.0 device with_user.1 u))

  extend-keeps :
      (session idle : ℕ) (s : Session)
      → ((extend session idle s).id ≡ s.id)
        × (is_shut (some s) ≡ true → is_shut (some (extend session idle s)) ≡ true)
  unfolding extend
  extend-keeps session idle s = elim (Bool-cases (s.id == session)) [
    | inl e ↦ rw e (refl, λ h. h)
    | inr e ↦ rw e (refl, λ h. h)
  ]

  set_idle_expiry-IsClosed :
      (env : Environment) (session created idle : ℕ) (db : Database)
      → IsClosed id db
      → Ensures (IsClosed id) (set_idle_expiry env session created idle db)
  unfolding set_idle_expiry
  set_idle_expiry-IsClosed env session created idle db c = Ensures-checked (IsClosed id) _ _ _ (
      Ensures-checked (IsClosed id) _ _ _ (
        mapped-IsClosed id (extend session idle) db _ refl refl
          (λ s. (extend-keeps session idle s).0) (λ s. (extend-keeps session idle s).1) c))

  add_refresh_result-IsClosed :
      (env : Environment) (result : RefreshResult) (db : Database)
      → IsClosed id db
      → Ensures (IsClosed id) (add_refresh_result env result db)
  unfolding add_refresh_result
  add_refresh_result-IsClosed env result db c = Ensures-checked (IsClosed id) _ _ _ (
      Ensures-checked (IsClosed id) _ _ _
        (Ensures-checked (IsClosed id) _ _ _ (same_sessions-IsClosed id db _ refl refl c)))

  pub rotation-IsClosed :
      (lib : Library) (c : ResponseCipher) (env : Environment) (hash key_hash : Text)
      (t : RefreshToken) (s : Session) (db : Database)
      → IsClosed id db
      → Ensures KeepsClosed (rotation lib c env hash key_hash t s db)
  unfolding rotation consume_in
  rotation-IsClosed lib c env hash key_hash t s db h = Ensures-checked KeepsClosed _ _ _ (
      Ensures-then KeepsClosed _ _ (λ account. Ensures-then KeepsClosed _ _ (λ access.
        Ensures-then KeepsClosed _ _ (λ refresh.
          Ensures-bind (IsClosed id) KeepsClosed _ _
            (add_access_token-IsClosed env s.id access.hash _ (consume_in hash env.started db)
              (same_sessions-IsClosed id db _ refl refl h))
            (λ with_access a.
              Ensures-bind (IsClosed id) KeepsClosed _ _
                (add_refresh_token-IsClosed env s.id (some t.id) refresh.hash _ with_access a)
                (λ with_refresh r.
                  Ensures-bind (IsClosed id) KeepsClosed _ _
                    (set_idle_expiry-IsClosed env s.id s.created_at _ with_refresh r)
                    (λ extended e. Ensures-then KeepsClosed _ _ (λ stored.
                      Ensures-bind (IsClosed id) KeepsClosed _ _
                        (add_refresh_result-IsClosed env _ extended e) (λ after d. d)))))))))

  pub transaction-IsClosed {ℓ} :
      {A : Type ℓ} (reply : Reply) (db : Database) (result : Answer (A × Database))
      → IsClosed id db
      → Ensures KeepsClosed result
      → IsClosed id (transaction reply db result).0
  unfolding transaction committed
  transaction-IsClosed reply db (err e) c h = c
  transaction-IsClosed served db (ok result) c h = h
  transaction-IsClosed refused db (ok result) c h = c
  transaction-IsClosed lost db (ok result) c h = h
