-- ===== src/Auth/Refresh/Rotation.antt =====
-- What a rotation of auth.go leaves in the tables.
use im_backend.Prelude.{
  false≢true, ℕ, ◌+◌, ◌≡◌, refl, sym, ap, subst, ◌∙◌, inl, inr, true, false, List, ◌∷◌, Option,
  some, arith, ◌==◌, Bool-cases, any, any-false, find, find-In, map, min,
}
use im_backend.Message.{Text}
use im_backend.Messages.Store.{text_eq}
use im_backend.Messages.Consistency.{text_eq_sound}
use im_backend.Auth.Answer.{Ensures, Ensures-checked, Ensures-known}
use im_backend.Auth.Types.{
  Session, RefreshToken, Database, Environment, session_reading, session_idle_lifetime,
  session_absolute_lifetime,
}
use im_backend.Auth.Sessions.{has_hash, add_access_token, add_refresh_token, new_refresh_token}
use im_backend.Auth.Access.{find_session}
use im_backend.Auth.Refresh.{consume, consume_in, extend}
use im_backend.Auth.Closed.{find-map}

abbrev pub absolute_expiry : Session → ℕ
absolute_expiry s = s.created_at + session_absolute_lifetime

abbrev pub idle_expiry : Environment → Session → ℕ
idle_expiry env s = min (env.clock session_reading + session_idle_lifetime) (absolute_expiry s)

abbrev pub consumed_token : Environment → RefreshToken → RefreshToken
consumed_token env t = record t { consumed_at = some env.started }

abbrev pub extended_session : Environment → Session → Session
extended_session env s = record s { idle_expires_at = idle_expiry env s }

-- The tables with the token consumed and the session of it as given.
abbrev pub Tables : Text → RefreshToken → ℕ → Option Session → ℕ → Database → Type 0
Tables hash t id s next db =
    (find (has_hash hash) db.refresh_tokens ≡ some t)
    × (find_session id db ≡ s)
    × (db.next_session_id ≡ next)

has_hash-consume :
    (hash : Text) (now : ℕ) (t : RefreshToken)
    → has_hash hash (consume hash now t) ≡ has_hash hash t
unfolding consume
has_hash-consume hash now t = elim (Bool-cases (has_hash hash t)) [
  | inl e ↦ rw e e
  | inr e ↦ rw e e
]

pub consume_in-token :
    (env : Environment) (hash : Text) (t : RefreshToken) (db : Database)
    → find (has_hash hash) db.refresh_tokens ≡ some t
    → find (has_hash hash) (consume_in hash env.started db).refresh_tokens
      ≡ some (consumed_token env t)
unfolding consume_in
consume_in-token env hash t db e =
    find-map (has_hash hash) (consume hash env.started) db.refresh_tokens
      (has_hash-consume hash env.started)
    ∙ rw e (ap some (own (find-In (has_hash hash) db.refresh_tokens t e).1))
  where
    own : has_hash hash t ≡ true → consume hash env.started t ≡ consumed_token env t
    own h = rw (consume, h) refl

-- A hash that no token has is not the hash of a token that is there.
fresh_hash :
    (hash new : Text) (t : RefreshToken) (ts : List RefreshToken)
    → find (has_hash hash) ts ≡ some t
    → any (has_hash new) ts ≡ false
    → text_eq new hash ≡ false
fresh_hash hash new t ts e n = elim (Bool-cases (text_eq new hash)) [
  | inr f ↦ f
  | inl f ↦
      let (here, own) = find-In (has_hash hash) ts t e in
      absurd (
        false≢true (
          sym (any-false (has_hash new) ts n t here)
          ∙ subst (λ h. has_hash h t ≡ true) (sym (text_eq_sound new hash f)) own))
]

module _ (hash : Text) (t : RefreshToken) (id : ℕ) (s : Option Session) (next : ℕ) where
  pub add_access_token-Tables :
      (env : Environment) (session : ℕ) (new : Text) (expires : ℕ) (db : Database)
      → Tables hash t id s next db
      → Ensures (Tables hash t id s next) (add_access_token env session new expires db)
  unfolding add_access_token find_session
  add_access_token-Tables env session new expires db h =
      Ensures-checked (Tables hash t id s next) _ _ _ (
        Ensures-checked (Tables hash t id s next) _ _ _
          (Ensures-checked (Tables hash t id s next) _ _ _ h))

  later_token :
      (fresh : RefreshToken) (ts : List RefreshToken)
      → find (has_hash hash) ts ≡ some t
      → has_hash hash fresh ≡ false
      → find (has_hash hash) (fresh ∷ ts) ≡ some t
  later_token fresh ts e f = rw f e

  pub add_refresh_token-Tables :
      (env : Environment) (session : ℕ) (parent : Option ℕ) (new : Text) (expires : ℕ)
      (db : Database)
      → Tables hash t id s next db
      → Ensures (Tables hash t id s next) (add_refresh_token env session parent new expires db)
  unfolding add_refresh_token find_session new_refresh_token
  add_refresh_token-Tables env session parent new expires db h =
      Ensures-checked (Tables hash t id s next) _ _ _ (
        Ensures-known (Tables hash t id s next) _ _ _ (λ unique.
          Ensures-checked (Tables hash t id s next) _ _ _ (
            later_token (new_refresh_token session parent new expires db) db.refresh_tokens h.0
                (fresh_hash hash new t db.refresh_tokens h.0 unique),
            h.1,
            h.2,
          )))

extend-id : (id idle : ℕ) (s : Session) → (extend id idle s).id ≡ s.id
unfolding extend
extend-id id idle s = ground arith

pub extended-session :
    (id idle : ℕ) (s : Session) (db : Database)
    → find_session id db ≡ some s
    → find (λ o. o.id == id) (map (extend id idle) db.sessions)
      ≡ some (record s { idle_expires_at = idle })
unfolding find_session extend
extended-session id idle s db e =
    find-map (λ o. o.id == id) (extend id idle) db.sessions same
    ∙ rw e (ap some (own (find-In (λ (o : Session). o.id == id) db.sessions s e).1))
  where
    same : (o : Session) → ((extend id idle o).id == id) ≡ (o.id == id)
    same o = ap (λ i. i == id) (extend-id id idle o)

    own : (s.id == id) ≡ true → extend id idle s ≡ record s { idle_expires_at = idle }
    own h = rw (extend, h) refl
