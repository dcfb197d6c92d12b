-- ===== src/Auth/Login/Issued.antt =====
-- What createSessionResponse of auth.go leaves in the tables, and that the token it issues is let in.
use im_backend.Prelude.{
  ok, ok-injective, bound, ℕ, ◌+◌, ◌≡◌, refl, sym, ap, subst, List, ◌∷◌, Option, none, some, ◌==◌,
  ==_refl, find,
}
use im_backend.Message.{Text}
use im_backend.Messages.Store.{text_eq}
use im_backend.Messages.Consistency.{text_eq_refl}
use im_backend.Auth.Answer.{
  required, required-some, Ensures, Ensures-bind, Ensures-then, Ensures-checked, Ensures-with,
}
use im_backend.Auth.Types.{
  User, Session, AccessToken, Database, AuthResponse, GeneratedToken, Environment, access_draw,
  session_reading, access_token_lifetime, session_idle_lifetime, session_absolute_lifetime,
}
use im_backend.Auth.Cipher.{Library}
use im_backend.Auth.Sessions.{
  new_token, new_session, add_session, add_access_token, add_refresh_token, session_response,
  create_session_response,
}
use im_backend.Auth.Access.{find_session}

abbrev pub idle_end : Environment → ℕ
idle_end env = env.clock session_reading + session_idle_lifetime

abbrev pub access_end : Environment → ℕ
access_end env = env.clock session_reading + access_token_lifetime

abbrev pub issued_token : Environment → ℕ → Text → AccessToken
issued_token env session hash = record {
  session_id = session;
  token_hash = hash;
  expires_at = access_end env;
}

pub record IsIssued (lib : Library) (env : Environment) (account : User) (db : Database)
    (result : AuthResponse × Database) : Type 0 where
  pub bytes : Text
  pub drawn : env.random access_draw ≡ some bytes
  pub raw : result.0.access_token ≡ lib.url_encode bytes
  pub of_session : result.0.session_id ≡ db.next_session_id
  pub session :
      find_session db.next_session_id result.1
      ≡ some (new_session env account result.0.device_id (idle_end env) db)
  pub token :
      find (λ a. text_eq a.token_hash (lib.sha256 bytes)) result.1.access_tokens
      ≡ some (issued_token env db.next_session_id (lib.sha256 bytes))
  pub same_results : result.1.login_results ≡ db.login_results
  pub access_dated : result.0.access_token_expires_at ≡ access_end env
  pub dated :
      result.0.session_expires_at ≡ some (env.clock session_reading + session_absolute_lifetime)

new_token-drawn :
    (lib : Library) (drawn : Option Text) (g : GeneratedToken)
    → new_token lib drawn ≡ ok g
    → (bytes : Text) × (drawn ≡ some bytes)
      × (g.raw ≡ lib.url_encode bytes)
      × (g.hash ≡ lib.sha256 bytes)
unfolding new_token
new_token-drawn lib drawn g h =
    let (bytes, e, k) = bound (required drawn) _ g h in
    let same = ok-injective _ g k in
    (
      bytes,
      required-some drawn bytes e,
      sym (ap GeneratedToken.raw same),
      sym (ap GeneratedToken.hash same),
    )

module _ (lib : Library) (env : Environment) (account : User) (db : Database) where
  abbrev Opened : Text → ℕ × Database → Type 0
  Opened device (session, after) =
      (session ≡ db.next_session_id)
      × (find_session db.next_session_id after
          ≡ some (new_session env account device (idle_end env) db))
      × (after.login_results ≡ db.login_results)

  newest_session : (s : Session) (ss : List Session) → find (λ o. o.id == s.id) (s ∷ ss) ≡ some s
  newest_session s ss = rw (==_refl s.id) refl

  add_session-Opened :
      (device : Text) → Ensures (Opened device) (add_session env account device (idle_end env) db)
  unfolding add_session find_session new_session
  add_session-Opened device = Ensures-checked (Opened device) _ _ _ (
      Ensures-checked (Opened device) _ _ _
        (refl, newest_session (new_session env account device (idle_end env) db) db.sessions, refl))

  -- The rest of the tables, once the session and its access token are in.
  abbrev With : Text → ℕ → Text → Database → Type 0
  With device session hash after =
      (find_session db.next_session_id after
        ≡ some (new_session env account device (idle_end env) db))
      × (find (λ a. text_eq a.token_hash hash) after.access_tokens
          ≡ some (issued_token env session hash))
      × (after.login_results ≡ db.login_results)

  newest_token :
      (a : AccessToken) (rest : List AccessToken)
      → find (λ o. text_eq o.token_hash a.token_hash) (a ∷ rest) ≡ some a
  newest_token a rest = rw (text_eq_refl a.token_hash) refl

  add_access_token-With :
      (device : Text) (session : ℕ) (hash : Text) (before : Database)
      → Opened device (session, before)
      → Ensures
          (With device session hash)
          (add_access_token env session hash (access_end env) before)
  unfolding add_access_token find_session
  add_access_token-With device session hash before h =
      Ensures-checked (With device session hash) _ _ _ (
        Ensures-checked (With device session hash) _ _ _ (
          Ensures-checked (With device session hash) _ _ _
            (h.1, newest_token (issued_token env session hash) before.access_tokens, h.2)))

  add_refresh_token-With :
      (device : Text) (session : ℕ) (hash new : Text) (expires : ℕ) (before : Database)
      → With device session hash before
      → Ensures (With device session hash) (add_refresh_token env session none new expires before)
  unfolding add_refresh_token find_session
  add_refresh_token-With device session hash new expires before h =
      Ensures-checked (With device session hash) _ _ _ (
        Ensures-checked (With device session hash) _ _ _
          (Ensures-checked (With device session hash) _ _ _ h))

  pub create_session_response-IsIssued :
      (requested : Text)
      → Ensures (IsIssued lib env account db) (create_session_response lib env account requested db)
  unfolding create_session_response session_response
  create_session_response-IsIssued requested =
      Ensures-then (IsIssued lib env account db) _ _ (λ device.
        Ensures-with (IsIssued lib env account db) _ _ (λ access drawn.
          Ensures-then (IsIssued lib env account db) _ _ (λ refresh.
            let (bytes, e, raw, hash) = new_token-drawn lib (env.random access_draw) access drawn in
            Ensures-bind (Opened device) (IsIssued lib env account db) _ _
              (add_session-Opened device)
              (λ opened o.
                Ensures-bind (With device opened.0 access.hash) (IsIssued lib env account db) _ _
                  (add_access_token-With device opened.0 access.hash opened.1 o)
                  (λ with_access a.
                    Ensures-bind (With device opened.0 access.hash) (IsIssued lib env account db) _
                      _
                      (add_refresh_token-With device opened.0 access.hash refresh.hash _ with_access
                        a)
                      (λ with_refresh r. record {
                        bytes = bytes;
                        drawn = e;
                        raw = raw;
                        of_session = o.0;
                        session = r.0;
                        token =
                            subst
                              (λ h.
                                find (λ a. text_eq a.token_hash h) with_refresh.access_tokens
                                ≡ some (issued_token env db.next_session_id h))
                              hash
                              (subst
                                (λ i.
                                  find (λ a. text_eq a.token_hash access.hash)
                                    with_refresh.access_tokens
                                  ≡ some (issued_token env i access.hash))
                                o.0 r.1);
                        same_results = r.2;
                        access_dated = refl;
                        dated = refl;
                      }))))))
