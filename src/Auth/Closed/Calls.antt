-- ===== src/Auth/Closed/Calls.antt =====
-- Every handler of auth.go keeps a closed session closed, whatever it meets.
use im_backend.Prelude.{ℕ, inl, inr, Option, none, some, Bool-cases, ltb, ◌&&◌, Option-cases, ◌==◌}
use im_backend.Message.{Text}
use im_backend.Messages.Store.{text_eq}
use im_backend.Outbox.Types.{Reply, served, refused, lost}
use im_backend.Auth.Types.{
  Session, RefreshToken, RefreshResult, Database, Environment, consume_refresh_token,
  select_refresh_token, select_refresh_result, revoke_session, replay_reading,
}
use im_backend.Auth.Cipher.{Library, ResponseCipher}
use im_backend.Auth.Sessions.{committed}
use im_backend.Auth.Access.{
  Identity, Status, find_session, revoke_where, executed, logout, logout_all, revoke_session_of,
}
use im_backend.Auth.Refresh.{consumable, rotate_token, rotate_refresh_token}
use im_backend.Auth.Reuse.{
  unauthorized, is_replayable, close_session, replay_or_close, handle_used, handle_used_or_invalid,
}
use im_backend.Auth.Closed.{IsClosed, revoke_where-IsClosed}
use im_backend.Auth.Closed.Steps.{transaction-IsClosed, rotation-IsClosed}

module _ (id : ℕ) (db : Database) (c : IsClosed id db) where
  executed-IsClosed :
      (reply : Reply) (after : Database) (s : Status)
      → IsClosed id after
      → IsClosed id (executed reply db after s).0
  unfolding executed
  executed-IsClosed served after s h = h
  executed-IsClosed refused after s h = c
  executed-IsClosed lost after s h = h

  pub logout-IsClosed : (env : Environment) (who : Identity) → IsClosed id (logout env who db).0
  unfolding logout
  logout-IsClosed env who = executed-IsClosed env.reply _ _ (revoke_where-IsClosed id _ _ db c)

  pub logout_all-IsClosed :
      (env : Environment) (who : Identity) → IsClosed id (logout_all env who db).0
  unfolding logout_all
  logout_all-IsClosed env who = executed-IsClosed env.reply _ _ (revoke_where-IsClosed id _ _ db c)

  pub revoke_session_of-IsClosed :
      (env : Environment) (who : Identity) (session : Option ℕ)
      → IsClosed id (revoke_session_of env who session db).0
  unfolding revoke_session_of
  revoke_session_of-IsClosed env who none = c
  revoke_session_of-IsClosed env who (some session) =
      executed-IsClosed env.reply _ _ (revoke_where-IsClosed id _ _ db c)

  close_session-IsClosed :
      (env : Environment) (s : Session) → IsClosed id (close_session env s db).0
  unfolding close_session
  close_session-IsClosed env s = elim (Bool-cases (env.fails revoke_session)) [
    | inl e ↦ rw e c
    | inr e ↦ rw e (committed-IsClosed env.reply)
  ]
    where
      committed-IsClosed :
          (reply : Reply)
          → IsClosed id
              (committed reply db (unauthorized, revoke_where (λ o. o.id == s.id) env.started db)).0
      committed-IsClosed served = revoke_where-IsClosed id _ _ db c
      committed-IsClosed refused = c
      committed-IsClosed lost = revoke_where-IsClosed id _ _ db c

  module _ (lib : Library) (cipher : ResponseCipher) (env : Environment) where
    replay_or_close-IsClosed :
        (key_hash : Text) (t : RefreshToken) (s : Session) (r : Option RefreshResult)
        → IsClosed id (replay_or_close lib cipher env key_hash t s r db).0
    unfolding replay_or_close
    replay_or_close-IsClosed key_hash t s none = close_session-IsClosed env s
    replay_or_close-IsClosed key_hash t s (some r) =
        elim (Bool-cases (
          text_eq r.idempotency_key_hash key_hash && ltb (env.clock replay_reading) r.expires_at)) [
            | inl e ↦ rw e c
            | inr e ↦ rw e (close_session-IsClosed env s)
          ]

    handle_used-IsClosed :
        (key_hash : Text) (t : RefreshToken) (s : Option Session)
        → IsClosed id (handle_used lib cipher env key_hash t s db).0
    unfolding handle_used
    handle_used-IsClosed key_hash t none = c
    handle_used-IsClosed key_hash t (some s) = elim (Bool-cases (is_replayable env t s)) [
      | inr e ↦ rw e c
      | inl e ↦ elim (Bool-cases (env.fails select_refresh_result)) [
        | inl f ↦ rw (e, f) c
        | inr f ↦ rw (e, f) (replay_or_close-IsClosed key_hash t s _)
      ]
    ]

    handle_used_or_invalid-IsClosed :
        (key_hash : Text) (t : Option RefreshToken)
        → IsClosed id (handle_used_or_invalid lib cipher env key_hash t db).0
    unfolding handle_used_or_invalid
    handle_used_or_invalid-IsClosed key_hash none =
        elim (Bool-cases (env.fails select_refresh_token)) [ inl e ↦ rw e c | inr e ↦ rw e c ]
    handle_used_or_invalid-IsClosed key_hash (some t) =
        elim (Bool-cases (env.fails select_refresh_token)) [
          | inl e ↦ rw e c
          | inr e ↦ rw e (handle_used-IsClosed key_hash t _)
        ]

    rotate_token-IsClosed :
        (hash key_hash : Text) (t : Option RefreshToken)
        → IsClosed id (rotate_token lib cipher env hash key_hash t db).0
    unfolding rotate_token
    rotate_token-IsClosed hash key_hash none = handle_used_or_invalid-IsClosed key_hash none
    rotate_token-IsClosed hash key_hash (some t) =
        elim (Option-cases (find_session t.session_id db)) [
          | inl e ↦ rw (e, rotate_token) (handle_used_or_invalid-IsClosed key_hash (some t))
          | inr (s, e) ↦ elim (Bool-cases (consumable env t (some s))) [
            | inl f ↦
                rw (e, f, rotate_token)
                  (transaction-IsClosed id env.reply db _ c
                    (rotation-IsClosed id lib cipher env hash key_hash t s db c))
            | inr f ↦ rw (e, f, rotate_token) (handle_used_or_invalid-IsClosed key_hash (some t))
          ]
        ]

    pub rotate_refresh_token-IsClosed :
        (hash key_hash : Text)
        → IsClosed id (rotate_refresh_token lib cipher env hash key_hash db).0
    unfolding rotate_refresh_token
    rotate_refresh_token-IsClosed hash key_hash =
        elim (Bool-cases (env.fails consume_refresh_token)) [
          | inl e ↦ rw e c
          | inr e ↦ rw e (rotate_token-IsClosed hash key_hash _)
        ]
