-- ===== src/Auth/Refresh/Rotated.antt =====
-- A rotation of auth.go that returns has done all of its work.
use im_backend.Prelude.{ok, ℕ, ◌+◌, ◌≡◌, refl, true, List, ◌∷◌, some, ==_iff, find, min}
use im_backend.Message.{Text}
use im_backend.Auth.Answer.{Ensures, Ensures-bind, Ensures-then, Ensures-checked, Ensures-with}
use im_backend.Auth.Types.{
  Session, RefreshToken, RefreshResult, Database, Environment, AuthResponse, session_reading,
  nonce_draw, idempotency_lifetime, access_token_lifetime,
}
use im_backend.Auth.Cipher.{Library, ResponseCipher, encrypt}
use im_backend.Auth.Sessions.{has_hash}
use im_backend.Auth.Access.{find_session}
use im_backend.Auth.Refresh.{
  consume_in, set_idle_expiry, refresh_result, add_refresh_result, rotated_response, rotation,
}
use im_backend.Auth.Reuse.{Outcome, rotated, unauthorized, is_result_of, refresh_purpose}
use im_backend.Auth.Refresh.Rotation.{
  absolute_expiry, idle_expiry, consumed_token, extended_session, Tables, consume_in-token,
  add_access_token-Tables, add_refresh_token-Tables, extended-session,
}

-- What a rotation that commits leaves: the token is consumed, its session lives until the new token
-- expires, and the response is stored under the key for ten minutes.
pub record IsRotated (lib : Library) (c : ResponseCipher) (env : Environment) (hash key_hash : Text)
    (t : RefreshToken) (s : Session) (next : ℕ) (r : AuthResponse) (after : Database) : Type 0 where
  pub consumed : find (has_hash hash) after.refresh_tokens ≡ some (consumed_token env t)
  pub extended : find_session s.id after ≡ some (extended_session env s)
  pub same_next : after.next_session_id ≡ next
  pub sealed_response : Text × Text
  pub is_sealed :
      encrypt lib c (env.random nonce_draw) refresh_purpose (lib.format_int t.id) r
      ≡ ok sealed_response
  pub stored :
      find (is_result_of t.id) after.refresh_results
      ≡ some (
          refresh_result c t.id key_hash sealed_response
            (env.clock session_reading + idempotency_lifetime))
  pub of_session : r.session_id ≡ s.id
  pub session_end : r.session_expires_at ≡ some (absolute_expiry s)
  pub refresh_end : r.refresh_token_expires_at ≡ idle_expiry env s
  pub access_end :
      r.access_token_expires_at
      ≡ min (env.clock session_reading + access_token_lifetime) (absolute_expiry s)

abbrev pub RotatedTo :
    Library
    → ResponseCipher
    → Environment
    → Text
    → Text
    → RefreshToken
    → Session
    → ℕ
    → Outcome × Database
    → Type 0
RotatedTo lib c env hash key_hash t s next (rotated r, after) =
    IsRotated lib c env hash key_hash t s next r after
RotatedTo lib c env hash key_hash t s next (unauthorized, after) = ⊥

module _ (lib : Library) (c : ResponseCipher) (env : Environment) (hash key_hash : Text)
    (t : RefreshToken) (s : Session) (db : Database)
    (found : find (has_hash hash) db.refresh_tokens ≡ some t)
    (own : find_session s.id db ≡ some s) where
  abbrev After : Outcome × Database → Type 0
  After = RotatedTo lib c env hash key_hash t s db.next_session_id

  abbrev Consumed : Database → Type 0
  Consumed = Tables hash (consumed_token env t) s.id (some s) db.next_session_id

  abbrev Extended : Database → Type 0
  Extended =
      Tables hash (consumed_token env t) s.id (some (extended_session env s)) db.next_session_id

  set_idle_expiry-Extended :
      (before : Database)
      → Consumed before
      → Ensures Extended (set_idle_expiry env s.id s.created_at (idle_expiry env s) before)
  unfolding set_idle_expiry find_session
  set_idle_expiry-Extended before h = Ensures-checked Extended _ _ _ (
      Ensures-checked Extended _ _ _
        (h.0, extended-session s.id (idle_expiry env s) s before h.1, h.2))

  abbrev Stored : RefreshResult → Database → Type 0
  Stored result after =
      Extended after × (find (is_result_of t.id) after.refresh_results ≡ some result)

  add_refresh_result-Stored :
      (result : RefreshResult) (before : Database)
      → result.refresh_token_id ≡ t.id
      → Extended before
      → Ensures (Stored result) (add_refresh_result env result before)
  unfolding add_refresh_result find_session
  add_refresh_result-Stored result before e h = Ensures-checked (Stored result) _ _ _ (
      Ensures-checked (Stored result) _ _ _ (
        Ensures-checked (Stored result) _ _ _
          (h, newest result before.refresh_results ((==_iff result.refresh_token_id t.id).1 e))))
    where
      newest :
          (result : RefreshResult) (rs : List RefreshResult)
          → is_result_of t.id result ≡ true
          → find (is_result_of t.id) (result ∷ rs) ≡ some result
      newest result rs e = rw e refl

  -- A rotation that returns has done all of its work.
  pub rotation-IsRotated : Ensures After (rotation lib c env hash key_hash t s db)
  unfolding rotation consume_in find_session refresh_result rotated_response
  rotation-IsRotated = Ensures-checked After _ _ _ (
      Ensures-then After _ _ (λ account. Ensures-then After _ _ (λ access.
        Ensures-then After _ _ (λ refresh.
          Ensures-bind Consumed After _ _
            (add_access_token-Tables hash (consumed_token env t) s.id (some s) db.next_session_id
              env s.id access.hash _ (consume_in hash env.started db) (consume_in-Tables))
            (λ with_access a.
              Ensures-bind Consumed After _ _
                (add_refresh_token-Tables hash (consumed_token env t) s.id (some s)
                  db.next_session_id env s.id (some t.id) refresh.hash _ with_access a)
                (λ with_refresh b.
                  Ensures-bind Extended After _ _ (set_idle_expiry-Extended with_refresh b)
                    (λ extended e. Ensures-with After _ _ (λ stored q.
                      Ensures-bind (Stored _) After _ _
                        (add_refresh_result-Stored _ extended (result_id stored) e)
                        (λ after d. record {
                          consumed = d.0.0;
                          extended = d.0.1;
                          same_next = d.0.2;
                          sealed_response = stored;
                          is_sealed = q;
                          stored = d.1;
                          of_session = refl;
                          session_end = refl;
                          refresh_end = refl;
                          access_end = refl;
                        })))))))))
    where
      consume_in-Tables : Consumed (consume_in hash env.started db)
      consume_in-Tables = (consume_in-token env hash t db found, own, refl)

      result_id :
          (stored : Text × Text)
          → (refresh_result c t.id key_hash stored
              (env.clock session_reading + idempotency_lifetime)).refresh_token_id
            ≡ t.id
      result_id stored = refl
