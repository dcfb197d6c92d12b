-- ===== src/Auth/Closed.antt =====
-- The handlers of auth.go keep a session closed that is closed: its revocation is not undone and its id
-- is not given again.
pub mod Steps
pub mod Calls
pub mod Handlers
pub mod Final
pub mod Logout
use im_backend.Prelude.{
  ok, err, ◌>>=◌, ℕ, suc, ◌≤◌, ◌<◌, ◌≡◌, refl, sym, ap, subst, ◌∙◌, ◌⊎◌, inl, inr, Bool, true,
  false, List, [], ◌∷◌, Option, none, some, arith, ◌==◌, if◌then◌else◌, Bool-cases, Option-cases,
  map, find,
}
use im_backend.Message.{Text}
use im_backend.Outbox.Types.{Reply, served, refused, lost}
use im_backend.Auth.Answer.{Answer, Ensures, Ensures-bind, Ensures-then, Ensures-checked}
use im_backend.Auth.Types.{Session, Database, Environment, User, AuthResponse}
use im_backend.Auth.Cipher.{Library, ResponseCipher, encrypt}
use im_backend.Auth.Sessions.{
  new_session, committed, transaction, add_session, add_access_token, add_refresh_token, device_for,
  new_token, create_session_response, session_response,
}
use im_backend.Auth.Access.{find_session, is_open, revoke, revoke_where, executed, Status}

abbrev pub is_shut : Option Session → Bool
is_shut none = true
is_shut (some s) = elim s.revoked_at [ some _ ↦ true | none ↦ false ]

pub record IsClosed (session : ℕ) (db : Database) : Type 0 where
  pub issued : session < db.next_session_id
  pub shut : is_shut (find_session session db) ≡ true

module _ {ℓ} {A : Type ℓ} where
  pub find-map :
      (p : A → Bool) (f : A → A) (xs : List A)
      → ((x : A) → p (f x) ≡ p x)
      → find p (map f xs) ≡ (elim (find p xs) [ none ↦ none | some x ↦ some (f x) ])
  find-map p f [] h = refl
  find-map p f (x ∷ xs) h = elim (Bool-cases (p x)) [
    | inl e ↦ rw (h x, e) refl
    | inr e ↦ rw (h x, e) (find-map p f xs h)
  ]

same_sessions-IsClosed :
    (id : ℕ) (before after : Database)
    → after.sessions ≡ before.sessions
    → after.next_session_id ≡ before.next_session_id
    → IsClosed id before
    → IsClosed id after
unfolding find_session
same_sessions-IsClosed id before after e n c = record {
  issued = subst (λ k. id < k) (sym n) c.issued;
  shut = subst (λ ss. is_shut (find (λ s. s.id == id) ss) ≡ true) (sym e) c.shut;
}

is_shut-map :
    (f : Session → Session) (o : Option Session)
    → ((s : Session) → is_shut (some s) ≡ true → is_shut (some (f s)) ≡ true)
    → is_shut o ≡ true
    → is_shut (elim o [ none ↦ none | some s ↦ some (f s) ]) ≡ true
is_shut-map f none k h = refl
is_shut-map f (some s) k h = k s h

-- A statement that maps the sessions, neither their ids nor a revocation undone.
pub mapped-IsClosed :
    (id : ℕ) (f : Session → Session) (before after : Database)
    → after.sessions ≡ map f before.sessions
    → after.next_session_id ≡ before.next_session_id
    → ((s : Session) → (f s).id ≡ s.id)
    → ((s : Session) → is_shut (some s) ≡ true → is_shut (some (f s)) ≡ true)
    → IsClosed id before
    → IsClosed id after
unfolding find_session
mapped-IsClosed id f before after e n same k c = record {
  issued = subst (λ m. id < m) (sym n) c.issued;
  shut =
      subst (λ ss. is_shut (find (λ s. s.id == id) ss) ≡ true) (sym e)
        (subst (λ o. is_shut o ≡ true)
          (sym (find-map (λ s. s.id == id) f before.sessions (λ s. ap (λ i. i == id) (same s))))
          (is_shut-map f (find (λ s. s.id == id) before.sessions) k c.shut));
}

revoke_if : (Session → Bool) → ℕ → Session → Session
revoke_if p now s = if p s then revoke now s else s

pub revoke-id : (now : ℕ) (s : Session) → (revoke now s).id ≡ s.id
unfolding revoke
revoke-id now s = ground arith

revoke_if-id : (p : Session → Bool) (now : ℕ) (s : Session) → (revoke_if p now s).id ≡ s.id
unfolding revoke_if
revoke_if-id p now s = elim (Bool-cases (p s)) [
  | inl e ↦ rw e (revoke-id now s)
  | inr e ↦ rw e refl
]

revoke-shut : (now : ℕ) (s : Session) → is_shut (some (revoke now s)) ≡ true
unfolding revoke
revoke-shut now s = ground arith

revoke_if-shut :
    (p : Session → Bool) (now : ℕ) (s : Session)
    → is_shut (some s) ≡ true
    → is_shut (some (revoke_if p now s)) ≡ true
unfolding revoke_if
revoke_if-shut p now s h = elim (Bool-cases (p s)) [
  | inl e ↦ rw e (revoke-shut now s)
  | inr e ↦ rw e h
]

pub revoke_where-IsClosed :
    (id : ℕ) (p : Session → Bool) (now : ℕ) (db : Database)
    → IsClosed id db
    → IsClosed id (revoke_where p now db)
unfolding revoke_where revoke_if
revoke_where-IsClosed id p now db c =
    mapped-IsClosed id (revoke_if p now) db (revoke_where p now db) refl refl (revoke_if-id p now)
      (revoke_if-shut p now) c

-- The sessions that the statement names are closed by it.
pub revoke_where-closes :
    (id : ℕ) (p : Session → Bool) (now : ℕ) (db : Database) (s : Session)
    → find_session id db ≡ some s
    → p s ≡ true
    → id < db.next_session_id
    → IsClosed id (revoke_where p now db)
unfolding revoke_where revoke_if find_session
revoke_where-closes id p now db s e h n = record {
  issued = n;
  shut =
      subst (λ o. is_shut o ≡ true)
        (sym (
          find-map (λ s. s.id == id) (revoke_if p now) db.sessions
            (λ s. ap (λ i. i == id) (revoke_if-id p now s))))
        (rw (e, h) (revoke-shut now s));
}
