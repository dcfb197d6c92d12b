-- ===== src/Auth/Login/Retry.antt =====
-- A login of auth.go issues a token that is let in, and may be repeated when its answer is lost.
use im_backend.Prelude.{ℕ, ◌+◌, ◌<◌, ◌≡◌, refl, true, lt→ltb}
use im_backend.Message.{Text}
use im_backend.Auth.Types.{User, Database, Environment, cutoff_reading, session_absolute_lifetime}
use im_backend.Auth.Sessions.{new_session}
use im_backend.Auth.Access.{Identity, is_live}
use im_backend.Auth.Login.Issued.{idle_end}

-- The request comes while the new session lives.
pub record WhileLive (env again : Environment) : Type 0 where
  pub before_idle_end : again.started < idle_end env
  pub before_absolute_end : again.clock cutoff_reading < env.started + session_absolute_lifetime

pub new_session-is_live :
    (env again : Environment) (account : User) (device : Text) (db : Database)
    → WhileLive env again
    → is_live again (new_session env account device (idle_end env) db) ≡ true
unfolding is_live new_session
new_session-is_live env again account device db h =
    rw
      (
        lt→ltb again.started (idle_end env) h.before_idle_end,
        lt→ltb (again.clock cutoff_reading) (env.started + session_absolute_lifetime)
            h.before_absolute_end,
      )
      refl

abbrev identity_of : ℕ → ℕ → Text → ℕ → Identity
identity_of user session device expires = record {
  user_id = user;
  session_id = session;
  device_id = device;
  token_expires_at = expires;
}
