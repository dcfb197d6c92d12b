-- ===== src/Auth/Refresh/Replay.antt =====
-- A refresh token of auth.go that comes back: with the key of its rotation it is answered again, with
-- another key its session is closed.
use im_backend.Prelude.{
  ok, ℕ, ◌+◌, ◌<◌, ◌≡◌, ◌≢◌, refl, sym, subst, Bool, true, false, ◌&&◌, Option, none, some, arith,
  lt→ltb, ◌==◌, ==_iff, find, find-In,
}
use im_backend.Message.{Text}
use im_backend.Outbox.Types.{Reply, served, refused, lost}
use im_backend.Auth.Answer.{ensured}
use im_backend.Auth.Types.{
  Session, RefreshToken, RefreshResult, Database, Environment, AuthResponse, consume_refresh_token,
  select_refresh_token, select_refresh_result, revoke_session, idle_reading, absolute_reading,
  session_reading, idempotency_lifetime,
}
use im_backend.Auth.Cipher.{Library, ResponseCipher}
use im_backend.Auth.Sessions.{has_hash, transaction, committed}
use im_backend.Auth.Access.{find_session, is_live}
use im_backend.Auth.Refresh.{
  consumable, refresh_result, rotation, rotate_token, rotate_refresh_token,
}
use im_backend.Auth.Reuse.{
  Outcome, rotated, replay_or_close, is_replayable, handle_used, handle_used_or_invalid,
}
use im_backend.Auth.Refresh.Rotated.{IsRotated, RotatedTo, rotation-IsRotated}
use im_backend.Auth.Refresh.Rotation.{
  consumed_token, extended_session, idle_expiry, absolute_expiry,
}

-- The statements of a refresh that is not a rotation run.
pub record Runs (env : Environment) : Type 0 where
  pub consume_runs : env.fails consume_refresh_token ≡ false
  pub token_runs : env.fails select_refresh_token ≡ false
  pub result_runs : env.fails select_refresh_result ≡ false
  pub revoke_runs : env.fails revoke_session ≡ false

-- What the token, its session and the database are where the token is rotated.
pub record Rotates (lib : Library) (c : ResponseCipher) (env : Environment) (hash key_hash : Text)
    (t : RefreshToken) (s : Session) (db : Database) (r : AuthResponse) (after : Database)
    : Type 0 where
  pub runs : env.fails consume_refresh_token ≡ false
  pub token : find (has_hash hash) db.refresh_tokens ≡ some t
  pub session : find_session t.session_id db ≡ some s
  pub usable : consumable env t (some s) ≡ true
  pub done : rotation lib c env hash key_hash t s db ≡ ok (rotated r, after)
  pub commits : env.reply ≢ refused

committed-after :
    (reply : Reply) (before after : Database) (o : Outcome)
    → reply ≢ refused
    → (committed reply before (o, after)).0 ≡ after
unfolding committed
committed-after served before after o h = refl
committed-after lost before after o h = refl
committed-after refused before after o h = absurd (h refl)

own_id :
    (t : RefreshToken) (s : Session) (db : Database)
    → find_session t.session_id db ≡ some s
    → t.session_id ≡ s.id
unfolding find_session
own_id t s db e = sym (
    (==_iff s.id t.session_id).0
      (find-In (λ (o : Session). o.id == t.session_id) db.sessions s e).1)

module _ (lib : Library) (c : ResponseCipher) (env : Environment) (hash key_hash : Text)
    (t : RefreshToken) (s : Session) (db : Database) (r : AuthResponse) (after : Database)
    (rotates : Rotates lib c env hash key_hash t s db r after) where
  -- The database after the rotation, with its answer lost or not.
  pub Rotates-database : (rotate_refresh_token lib c env hash key_hash db).0 ≡ after
  unfolding rotate_refresh_token rotate_token transaction
  Rotates-database =
      rw (rotates.runs, rotates.token, rotate_token, rotates.session, rotates.usable, rotates.done)
        (committed-after env.reply db after (rotated r) rotates.commits)

  pub Rotates-IsRotated : IsRotated lib c env hash key_hash t s db.next_session_id r after
  Rotates-IsRotated =
      ensured (RotatedTo lib c env hash key_hash t s db.next_session_id)
        (rotation lib c env hash key_hash t s db) (rotated r, after)
        (rotation-IsRotated lib c env hash key_hash t s db rotates.token
          (subst (λ i. find_session i db ≡ some s) (own_id t s db rotates.session) rotates.session))
        rotates.done

open_session :
    (env : Environment) (t : RefreshToken) (s : Session)
    → consumable env t (some s) ≡ true
    → s.revoked_at ≡ none
unfolding consumable is_live
open_session env t s h = ground arith

-- A consumed token is replayable while its session lives.
replayable :
    (env again : Environment) (t : RefreshToken) (s : Session)
    → s.revoked_at ≡ none
    → again.clock idle_reading < idle_expiry env s
    → again.clock absolute_reading < absolute_expiry s
    → is_replayable again (consumed_token env t) (extended_session env s) ≡ true
unfolding is_replayable
replayable env again t s o i a =
    open_replayable s.revoked_at o _ _ (lt→ltb (again.clock idle_reading) (idle_expiry env s) i)
      (lt→ltb (again.clock absolute_reading) (absolute_expiry s) a)
  where
    open_replayable :
        (revoked : Option ℕ)
        → revoked ≡ none
        → (x y : Bool) → x ≡ true
        → y ≡ true
        → (elim revoked [ some _ ↦ false | none ↦ x && y ]) ≡ true
    open_replayable revoked o x y p q = rw (o, p, q) refl

-- What comes of the token when it is presented again.
pub record Returns (env again : Environment) (s : Session) : Type 0 where
  pub runs : Runs again
  pub before_idle_end : again.clock idle_reading < idle_expiry env s
  pub before_absolute_end : again.clock absolute_reading < absolute_expiry s

module _ (lib : Library) (c later : ResponseCipher) (env again : Environment)
    (hash key_hash other_key : Text) (t : RefreshToken) (s : Session) (db : Database)
    (r : AuthResponse) (after : Database) (rotates : Rotates lib c env hash key_hash t s db r after)
    (returns : Returns env again s) where
  abbrev Done : Type 0
  Done = IsRotated lib c env hash key_hash t s db.next_session_id r after

  abbrev result_of : Done → RefreshResult
  result_of post =
      refresh_result c t.id key_hash post.sealed_response
        (env.clock session_reading + idempotency_lifetime)

  pub presented_again :
      (post : Done)
      → rotate_refresh_token lib later again hash other_key after
        ≡ replay_or_close lib later again other_key
            (consumed_token env t)
            (extended_session env s)
            (some (result_of post))
            after
  unfolding rotate_refresh_token rotate_token consumable handle_used_or_invalid handle_used
  presented_again post =
      let found =
        subst (λ i. find_session i after ≡ some (extended_session env s))
          (sym (own_id t s db rotates.session)) post.extended in
      rw
        (
          returns.runs.consume_runs,
          post.consumed,
          rotate_token,
          found,
          handle_used_or_invalid,
          returns.runs.token_runs,
          found,
          handle_used,
          replayable env again t s (open_session env t s rotates.usable) returns.before_idle_end
              returns.before_absolute_end,
          returns.runs.result_runs,
          post.stored,
        )
        refl
