-- ===== src/Auth/Password/Changed.antt =====
-- What a change of password that succeeds leaves in the tables.
use im_backend.Prelude.{
  ok, err, ◌≡◌, refl, inl, inr, Bool, true, false, not, Option, none, some, Bool-cases,
}
use im_backend.Message.{Text}
use im_backend.Messages.Store.{text_eq}
use im_backend.Outbox.Types.{Reply, served, refused, lost}
use im_backend.Auth.Answer.{Answer, password_conflict, Ensures}
use im_backend.Auth.Types.{Database, Environment, select_credentials}
use im_backend.Auth.Cipher.{Library}
use im_backend.Auth.Sessions.{transaction, committed}
use im_backend.Auth.Access.{Identity}
use im_backend.Auth.Accounts.{Response, ApiError, success, error, valid_password}
use im_backend.Auth.Register.{new_password_hash}
use im_backend.Auth.Password.{
  password_transaction, password_answer, change_verified, change_from, change_password,
}

error-success : (e : ApiError) → ◌≡◌ {A = Response (Unit {0})} (error e) (success tt) → ⊥
error-success e h = cc

-- What holds of the tables that the transaction leaves, for a hash of the new password.
module _ (P : Database → Type 0) (lib : Library) (env : Environment) (who : Identity) (new : Text)
    (later : Database)
    (writes : (old hash : Text)
      → new_password_hash lib env new ≡ ok hash
      → Ensures
          (λ (r : Unit {0} × Database). P r.1)
          (password_transaction env who.user_id old hash later)) where
  answer_leaves :
      (reply : Reply) (result : Answer (Unit {0} × Database))
      → Ensures (λ (r : Unit {0} × Database). P r.1) result
      → (password_answer (transaction reply later result)).1 ≡ success tt
      → P (password_answer (transaction reply later result)).0
  unfolding password_answer transaction committed
  answer_leaves served (ok (tt, after)) c h = c
  answer_leaves refused (ok (tt, after)) c h = absurd (error-success _ h)
  answer_leaves lost (ok (tt, after)) c h = absurd (error-success _ h)
  answer_leaves reply (err password_conflict) c h = absurd (error-success _ h)
  answer_leaves reply (err _) c h = absurd (error-success _ h)

  verified_leaves :
      (old : Text) (matches : Option Bool) (hashed : Answer Text)
      → new_password_hash lib env new ≡ hashed
      → (change_verified lib env who.user_id old new later matches hashed).1 ≡ success tt
      → P (change_verified lib env who.user_id old new later matches hashed).0
  unfolding change_verified
  verified_leaves old none hashed e h = absurd (error-success _ h)
  verified_leaves old (some false) hashed e h = absurd (error-success _ h)
  verified_leaves old (some true) (err f) e h = absurd (error-success _ h)
  verified_leaves old (some true) (ok hash) e h = answer_leaves env.reply _ (writes old hash e) h

  from_leaves :
      (current : Text) (stored : Option Text)
      → (change_from lib env who.user_id current new later stored).1 ≡ success tt
      → P (change_from lib env who.user_id current new later stored).0
  unfolding change_from
  from_leaves current none h = absurd (error-success _ h)
  from_leaves current (some hash) h = verified_leaves hash _ _ refl h

  pub successful_change_leaves :
      (current : Text) (db : Database)
      → (change_password lib env who current new db later).1 ≡ success tt
      → P (change_password lib env who current new db later).0
  unfolding change_password
  successful_change_leaves current db h = elim (Bool-cases (not (valid_password new))) [
    | inl f ↦ absurd (error-success _ (rw f at h))
    | inr f ↦ elim (Bool-cases (text_eq current new)) [
      | inl g ↦ absurd (error-success _ (rw (f, g) at h))
      | inr g ↦ elim (Bool-cases (env.fails select_credentials)) [
        | inl k ↦ absurd (error-success _ (rw (f, g, k) at h))
        | inr k ↦ rw (f, g, k) (from_leaves current _ (rw (f, g, k) at h))
      ]
    ]
  ]
