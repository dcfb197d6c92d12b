-- ===== src/Auth/Refresh/Retry.antt =====
-- A refresh of auth.go whose answer was lost is answered again.
use im_backend.Prelude.{ℕ, ◌≡◌, refl, Option, none, some}
use im_backend.Message.{Text}
use im_backend.Auth.Answer.{Answer}
use im_backend.Auth.Types.{Session, RefreshToken, Database, Environment, AuthResponse}
use im_backend.Auth.Cipher.{Library, HasLaws, ResponseCipher}
use im_backend.Auth.Login.{with_session_expiry}
use im_backend.Auth.Refresh.Rotated.{IsRotated}
use im_backend.Auth.Refresh.Replay.{Rotates, Returns}

pub dated :
    (r : AuthResponse) (created end : ℕ)
    → r.session_expires_at ≡ some end
    → with_session_expiry created r ≡ r
unfolding with_session_expiry
dated r created end e = kept r.session_expires_at _ e
  where
    kept :
        (o : Option ℕ) (other : AuthResponse)
        → o ≡ some end
        → (elim o [ some _ ↦ r | none ↦ other ]) ≡ r
    kept o other q = rw q refl

module _ (lib : Library) (laws : HasLaws lib) (c later : ResponseCipher) (env again : Environment)
    (hash key_hash : Text) (t : RefreshToken) (s : Session) (db : Database) (r : AuthResponse)
    (after : Database) (rotates : Rotates lib c env hash key_hash t s db r after)
    (returns : Returns env again s) where
  abbrev Rotated : Type 0
  Rotated = IsRotated lib c env hash key_hash t s db.next_session_id r after
