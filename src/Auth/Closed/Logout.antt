-- ===== src/Auth/Closed/Logout.antt =====
-- logout and changePassword of auth.go close sessions for good.
use im_backend.Prelude.{ℕ, ◌<◌, ◌≡◌, ◌≢◌, refl, some, ==_iff, ◌==◌, find-In}
use im_backend.Message.{Text}
use im_backend.Outbox.Types.{Reply, served, refused, lost}
use im_backend.Auth.Answer.{Ensures, Ensures-checked}
use im_backend.Auth.Types.{Session, Database, Environment}
use im_backend.Auth.Cipher.{Library}
use im_backend.Auth.Access.{Identity, find_session, executed, Status, no_content, logout}
use im_backend.Auth.Accounts.{success}
use im_backend.Auth.Password.{password_transaction, change_password}
use im_backend.Auth.Password.Changed.{successful_change_leaves}
use im_backend.Auth.Closed.{IsClosed, revoke_where-closes}
use im_backend.Auth.Closed.Steps.{KeepsClosed}
use im_backend.Auth.Closed.Final.{StaysOut, IsClosed-StaysOut}

executed-closes :
    (session : ℕ) (reply : Reply) (before after : Database) (s : Status)
    → IsClosed session after
    → reply ≢ refused
    → IsClosed session (executed reply before after s).0
unfolding executed
executed-closes session served before after s c h = c
executed-closes session lost before after s c h = c
executed-closes session refused before after s c h = absurd (h refl)

-- After a logout that the database has run, with its answer lost or not, no token of the session is let
-- in again, whatever requests come in between and whatever they meet.
pub logout_is_final :
    (lib : Library) (env : Environment) (who : Identity) (db : Database) (s : Session)
    → find_session who.session_id db ≡ some s
    → who.session_id < db.next_session_id
    → env.reply ≢ refused
    → StaysOut lib who.session_id (logout env who db).0
unfolding logout find_session
logout_is_final lib env who db s e n h = IsClosed-StaysOut lib who.session_id _ (
    executed-closes who.session_id env.reply db _ no_content
      (revoke_where-closes who.session_id (λ o. o.id == who.session_id) env.started db s e
        (find-In (λ (o : Session). o.id == who.session_id) db.sessions s e).1 n)
      h)

module _ (session user : ℕ) (later : Database) (s : Session)
    (e : find_session session later ≡ some s) (own : s.user_id ≡ user)
    (n : session < later.next_session_id) where
  password_transaction-closes :
      (env : Environment) (old new : Text)
      → Ensures (KeepsClosed session) (password_transaction env user old new later)
  unfolding password_transaction find_session
  password_transaction-closes env old new = Ensures-checked (KeepsClosed session) _ _ _ (
      Ensures-checked (KeepsClosed session) _ _ _ (
        Ensures-checked (KeepsClosed session) _ _ _ (
          revoke_where-closes session (λ o. o.user_id == user) env.started _ s e
            ((==_iff s.user_id user).1 own) n)))

-- After a change of password that succeeds, no token of any session that the user had open or closed by
-- then is let in again, whatever requests come in between and whatever they meet.
pub changed_password_closes_sessions :
    (lib : Library) (env : Environment) (who : Identity) (current new : Text) (db later : Database)
    (s : Session) (session : ℕ)
    → find_session session later ≡ some s
    → s.user_id ≡ who.user_id
    → session < later.next_session_id
    → (change_password lib env who current new db later).1 ≡ success tt
    → StaysOut lib session (change_password lib env who current new db later).0
changed_password_closes_sessions lib env who current new db later s session e own n h =
    IsClosed-StaysOut lib session _ (
      successful_change_leaves (IsClosed session) lib env who new later
        (λ old hash q. password_transaction-closes session who.user_id later s e own n env old hash)
        current db h)
