-- ===== src/Auth/Samples.antt =====
-- Concrete functions for the fields of Library, with their laws, and a database to run auth.go on.
use im_backend.Prelude.{
  some-injective, ℕ, zero, suc, ◌+◌, ◌-◌, ◌*◌, ◌≡◌, refl, ap, subst, true, false, [], ◌∷◌, ◌++◌,
  Option, none, some, length, take, codes,
}
use im_backend.Message.{Text}
use im_backend.Outbox.Types.{served}
use im_backend.Auth.Types.{
  User, Session, RefreshToken, Database, AuthResponse, Environment, Draw, access_draw, refresh_draw,
  day,
}
use im_backend.Auth.Cipher.{Aead, Library, HasLaws, ResponseCipher}
use im_backend.Auth.Access.{Identity}
use im_backend.Auth.Cipher.RoundTrip.{IsRing}
use im_backend.Auth.Cipher.{find_key}
use im_backend.Outbox.Types.{refused, lost}
use im_backend.Prelude.{◌≢◌, inl, inr, ◌==◌, Bool-cases}

abbrev drop : ℕ → Text → Text
drop zero t = t
drop (suc n) [] = []
drop (suc n) (c ∷ t) = drop n t

take-append : (t rest : Text) → take (length t) (t ++ rest) ≡ t
take-append [] rest = refl
take-append (c ∷ t) rest = ap (◌∷◌ c) (take-append t rest)

drop-append : (t rest : Text) → drop (length t) (t ++ rest) ≡ rest
drop-append [] rest = refl
drop-append (c ∷ t) rest = drop-append t rest

-- A text before others is written with its length.
abbrev put : Text → Text → Text
put t rest = length t ∷ (t ++ rest)

abbrev get {ℓ} : {A : Type ℓ} → (Text → Text → Option A) → Text → Option A
get k [] = none
get k (n ∷ rest) = k (take n rest) (drop n rest)

abbrev number {ℓ} : {A : Type ℓ} → (ℕ → Text → Option A) → Text → Option A
number k [] = none
number k (n ∷ rest) = k n rest

abbrev written_time : Option ℕ → ℕ
written_time none = 0
written_time (some n) = suc n

abbrev read_time : ℕ → Option ℕ
read_time zero = none
read_time (suc n) = some n

read_time-written_time : (o : Option ℕ) → read_time (written_time o) ≡ o
read_time-written_time none = refl
read_time-written_time (some n) = refl

abbrev pub written : AuthResponse → Text
written r =
    r.user.id
    ∷ r.session_id
    ∷ written_time r.session_expires_at
    ∷ r.access_token_expires_at
    ∷ r.refresh_token_expires_at
    ∷ put r.user.username
        (put r.user.display_name (put r.device_id (put r.access_token (put r.refresh_token []))))

abbrev response : ℕ → ℕ → ℕ → ℕ → ℕ → Text → Text → Text → Text → Text → AuthResponse
response user session end access_end refresh_end name display device access refresh = record {
  user = record { id = user; username = name; display_name = display };
  session_id = session;
  device_id = device;
  session_expires_at = read_time end;
  access_token = access;
  access_token_expires_at = access_end;
  refresh_token = refresh;
  refresh_token_expires_at = refresh_end;
}

abbrev read : Text → Option AuthResponse
read = number λ user. number λ session. number λ end. number λ access_end. number λ refresh_end.
    get λ name. get λ display. get λ device. get λ access. get λ refresh rest.
      some (response user session end access_end refresh_end name display device access refresh)

read-written : (r : AuthResponse) → read (written r) ≡ some r
read-written r = simp (take-append, drop-append, read_time-written_time)

abbrev pub repeated : ℕ → ℕ → Text
repeated zero c = []
repeated (suc n) c = c ∷ repeated n c

-- As many numbers as are asked for.
abbrev pub padded : ℕ → Text → Text
padded zero t = []
padded (suc n) [] = 0 ∷ padded n []
padded (suc n) (c ∷ t) = c ∷ padded n t

-- An encoding without the separator of a stored hash.
abbrev pub shifted : Text → Text
shifted [] = []
shifted (c ∷ t) = (c + 37) ∷ shifted t

abbrev pub unshifted : Text → Text
unshifted [] = []
unshifted (c ∷ t) = (c - 37) ∷ unshifted t

abbrev pub plain_aead : Aead
plain_aead = record { seal = λ nonce plain extra. plain; unseal = λ nonce text extra. some text }

abbrev pub sample_library : Library
sample_library = record {
  sha256 = λ bytes. bytes;
  url_encode = λ bytes. bytes;
  url_decode = λ text. some text;
  std_decode = λ text. some text;
  new_gcm = λ key. some plain_aead;
  marshal = λ r. some (written r);
  unmarshal = read;
  format_int = λ n. n ∷ [];
  to_lower = λ t. t;
  raw_encode = shifted;
  raw_decode = λ text. some (unshifted text);
  argon2_key = λ password salt iterations memory parallelism size. padded size password;
}

pub sample_library-HasLaws : HasLaws sample_library
sample_library-HasLaws = record {
  url_decode-url_encode = λ bytes. refl;
  unmarshal-marshal =
      λ r json e. subst (λ t. read t ≡ some r) (some-injective (written r) json e) (read-written r);
  unseal-seal = λ key a nonce plain extra e.
      subst (λ (b : Aead). b.unseal nonce (b.seal nonce plain extra) extra ≡ some plain)
        (some-injective plain_aead a e) refl;
}

abbrev pub sample_ring : ResponseCipher
sample_ring = record { keys = (1, plain_aead) ∷ []; key_version = 1 }

abbrev pub drawn_bytes : Draw → Option Text
drawn_bytes access_draw = some (repeated 32 1)
drawn_bytes refresh_draw = some (repeated 32 2)
drawn_bytes _ = some (repeated 32 3)

-- A request at a time, whose statements all run.
abbrev pub at_time : ℕ → Environment
at_time now = record {
  started = now;
  clock = λ reading. now;
  fails = λ statement. false;
  random = drawn_bytes;
  reply = served;
  admitted = true;
}

abbrev pub alice : User
alice = record { id = 7; username = codes "alice"; display_name = codes "Alice" }

abbrev pub old_session : Session
old_session = record {
  id = 5;
  user_id = 7;
  device_id = codes "phone";
  idle_expires_at = 50 * day;
  revoked_at = none;
  created_at = 1000;
}

abbrev pub old_token : RefreshToken
old_token = record {
  id = 3;
  session_id = 5;
  parent_token_id = none;
  token_hash = repeated 32 9;
  expires_at = 50 * day;
  consumed_at = none;
}

-- What hashPassword stores for "old password".
abbrev pub stored_hash : Text
stored_hash =
    codes "$argon2id$v=19$m=19456,t=2,p=1$"
    ++ (shifted (repeated 16 3) ++ (36 ∷ shifted (padded 32 (codes "old password"))))

abbrev pub sample_database : Database
sample_database = record {
  users = record { user = alice; password_hash = stored_hash } ∷ [];
  sessions = old_session ∷ [];
  access_tokens = [];
  refresh_tokens = old_token ∷ [];
  login_results = [];
  refresh_results = [];
  next_user_id = 8;
  next_session_id = 6;
  next_token_id = 4;
}

-- The answer of the commit is lost.
abbrev pub losing : ℕ → Environment
losing now = record (at_time now) { reply = lost }

pub lost_not_refused : lost ≢ refused
lost_not_refused e = cc

pub sample_ring-IsRing : IsRing sample_library sample_ring
unfolding find_key
sample_ring-IsRing version a e = elim (Bool-cases (1 == version)) [
  | inl f ↦ (codes "key", rw f at e)
  | inr f ↦ absurd (absent (rw f at e))
]
  where
    absent : ◌≡◌ {A = Option Aead} none (some a) → ⊥
    absent q = cc

abbrev pub owner : Identity
owner = record { user_id = 7; session_id = 5; device_id = codes "phone"; token_expires_at = 3000 }
