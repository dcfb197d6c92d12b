-- ===== src/Auth/Closed/Final.antt =====
-- A session of auth.go that is closed stays out, whatever requests come later.
use im_backend.Prelude.{
  false≢true, ℕ, ◌≡◌, ◌≢◌, refl, sym, ap, subst, inl, inr, Bool, true, false, ◌&&◌, List, [], ◌∷◌,
  Option, none, some, arith, ltb, ◌==◌, ==_iff, ◌∙◌, Bool-cases, find-In,
}
use im_backend.Message.{Text}
use im_backend.Auth.Types.{Session, AccessToken, Database, Environment, select_session}
use im_backend.Auth.Cipher.{Library, ResponseCipher}
use im_backend.Auth.Access.{
  Identity, Access, allowed, required, unavailable, is_live, find_session, of_session, of_token,
  of_hash, require_authentication, logout, logout_all, revoke_session_of, identity,
}
use im_backend.Auth.Register.{register}
use im_backend.Auth.Accounts.{login, refresh}
use im_backend.Auth.Password.{change_password}
use im_backend.Auth.Closed.{IsClosed, is_shut}
use im_backend.Auth.Closed.Calls.{logout-IsClosed, logout_all-IsClosed, revoke_session_of-IsClosed}
use im_backend.Auth.Closed.Handlers.{
  register-IsClosed, login-IsClosed, refresh-IsClosed, change_password-IsClosed,
}

-- The requests that change the tables, each with what it meets. A login and a change of password also
-- have the database that they read before.
pub data Call : Type 0 where
  call_register : Environment → Text → Text → Text → Text → Call
  call_login : Option ResponseCipher → Environment → Text → Text → Text → Text → Database → Call
  call_refresh : Option ResponseCipher → Environment → Text → Text → Call
  call_logout call_logout_all : Environment → Identity → Call
  call_revoke : Environment → Identity → Option ℕ → Call
  call_change_password : Environment → Identity → Text → Text → Database → Call

abbrev pub call : Library → Call → Database → Database
call lib (call_register env username display password device) db =
    (register lib env username display password device db).0
call lib (call_login cipher env username password request device read) db =
    (login lib cipher env username password request device read db).0
call lib (call_refresh cipher env token key) db = (refresh lib cipher env token key db).0
call lib (call_logout env who) db = (logout env who db).0
call lib (call_logout_all env who) db = (logout_all env who db).0
call lib (call_revoke env who session) db = (revoke_session_of env who session db).0
call lib (call_change_password env who current new read) db =
    (change_password lib env who current new read db).0

abbrev pub calls : Library → List Call → Database → Database
calls lib [] db = db
calls lib (c ∷ rest) db = calls lib rest (call lib c db)

call-IsClosed :
    (id : ℕ) (lib : Library) (c : Call) (db : Database)
    → IsClosed id db
    → IsClosed id (call lib c db)
call-IsClosed id lib (call_register env username display password device) db h =
    register-IsClosed id db h lib env username display password device
call-IsClosed id lib (call_login cipher env username password request device read) db h =
    login-IsClosed id db h lib env cipher username password request device read
call-IsClosed id lib (call_refresh cipher env token key) db h =
    refresh-IsClosed id db h lib env cipher token key
call-IsClosed id lib (call_logout env who) db h = logout-IsClosed id db h env who
call-IsClosed id lib (call_logout_all env who) db h = logout_all-IsClosed id db h env who
call-IsClosed id lib (call_revoke env who session) db h =
    revoke_session_of-IsClosed id db h env who session
call-IsClosed id lib (call_change_password env who current new read) db h =
    change_password-IsClosed id db h lib env who current new read

pub calls-IsClosed :
    (id : ℕ) (lib : Library) (cs : List Call) (db : Database)
    → IsClosed id db
    → IsClosed id (calls lib cs db)
calls-IsClosed id lib [] db h = h
calls-IsClosed id lib (c ∷ cs) db h =
    calls-IsClosed id lib cs (call lib c db) (call-IsClosed id lib c db h)

required-allowed : (who : Identity) → ◌≡◌ {A = Access} required (allowed who) → ⊥
required-allowed who e = cc

unavailable-allowed : (who : Identity) → ◌≡◌ {A = Access} unavailable (allowed who) → ⊥
unavailable-allowed who e = cc

and_right : (a b : Bool) → (a && b) ≡ true → b ≡ true
and_right a b h = ground arith

allowed-injective : (a b : Identity) → allowed a ≡ allowed b → a ≡ b
allowed-injective a b e = cc

is_live-shut : (env : Environment) (s : Session) → is_live env s ≡ true → is_shut (some s) ≡ false
unfolding is_live
is_live-shut env s h = ground arith

-- A session that lets a token in is open, and is the one of its id.
of_session-open :
    (env : Environment) (db : Database) (a : AccessToken) (found : Option Session) (who : Identity)
    → find_session a.session_id db ≡ found
    → of_session env a found ≡ allowed who
    → is_shut (find_session who.session_id db) ≡ false
unfolding of_session identity find_session
of_session-open env db a none who e h = absurd (required-allowed who h)
of_session-open env db a (some s) who e h =
    elim (Bool-cases (ltb env.started a.expires_at && is_live env s)) [
      | inr f ↦ absurd (required-allowed who (rw f at h))
      | inl f ↦
          let same = ap Identity.session_id (allowed-injective (identity a s) who (rw f at h)) in
          let own =
            (==_iff s.id a.session_id).0 (find-In (λ o. o.id == a.session_id) db.sessions s e).1 in
          subst (λ i. is_shut (find_session i db) ≡ false) (sym own ∙ same)
            (rw e (is_live-shut env s (and_right _ _ f)))
    ]

of_token-open :
    (env : Environment) (db : Database) (a : Option AccessToken) (who : Identity)
    → of_token env db a ≡ allowed who
    → is_shut (find_session who.session_id db) ≡ false
unfolding of_token
of_token-open env db none who h = absurd (required-allowed who h)
of_token-open env db (some a) who h = of_session-open env db a _ who refl h

of_hash-open :
    (env : Environment) (db : Database) (hash : Option Text) (who : Identity)
    → of_hash env db hash ≡ allowed who
    → is_shut (find_session who.session_id db) ≡ false
unfolding of_hash
of_hash-open env db none who h = absurd (required-allowed who h)
of_hash-open env db (some hash) who h = elim (Bool-cases (env.fails select_session)) [
  | inl e ↦ absurd (unavailable-allowed who (rw e at h))
  | inr e ↦ of_token-open env db _ who (rw e at h)
]

allowed-open :
    (lib : Library) (env : Environment) (token : Option Text) (db : Database) (who : Identity)
    → require_authentication lib env token db ≡ allowed who
    → is_shut (find_session who.session_id db) ≡ false
unfolding require_authentication
allowed-open lib env none db who h = absurd (required-allowed who h)
allowed-open lib env (some token) db who h = of_hash-open env db _ who h

-- No token is let in for the session, at any time, after any requests.
abbrev pub StaysOut : Library → ℕ → Database → Type 0
StaysOut lib session db =
    (cs : List Call) (env : Environment) (token : Option Text) (who : Identity)
    → require_authentication lib env token (calls lib cs db) ≡ allowed who
    → who.session_id ≢ session

pub IsClosed-StaysOut :
    (lib : Library) (session : ℕ) (db : Database) → IsClosed session db → StaysOut lib session db
IsClosed-StaysOut lib session db c cs env token who h e =
    let shut = (calls-IsClosed session lib cs db c).shut in
    let unshut = allowed-open lib env token (calls lib cs db) who h in
    false≢true (sym unshut ∙ ap (λ i. is_shut (find_session i (calls lib cs db))) e ∙ shut)
