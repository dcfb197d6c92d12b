-- ===== src/Auth/Cipher/RoundTrip.antt =====
-- What auth_crypto.go encrypts it decrypts, with the same ring or a later one.
use im_backend.Prelude.{ok, ok-injective, bound, ◌>>=◌, ◌≡◌, refl, ap, ℕ, Option, some}
use im_backend.Message.{Text}
use im_backend.Auth.Types.{AuthResponse}
use im_backend.Auth.Answer.{required, required-some}
use im_backend.Auth.Cipher.{
  Aead, Library, HasLaws, ResponseCipher, find_key, associated_data, sealed, encrypt, decrypt,
}

-- The keys of a ring come from new_gcm.
abbrev pub IsRing : Library → ResponseCipher → Type 0
IsRing lib c =
    (version : ℕ) (a : Aead)
    → find_key version c.keys ≡ some a
    → (key : Text) × (lib.new_gcm key ≡ some a)

-- The later ring has every key of the earlier one under its version.
abbrev pub IsLater : ResponseCipher → ResponseCipher → Type 0
IsLater later earlier =
    (version : ℕ) (a : Aead)
    → find_key version earlier.keys ≡ some a
    → find_key version later.keys ≡ some a

pub decrypt-encrypt :
    (lib : Library) (laws : HasLaws lib) (c later : ResponseCipher) (drawn : Option Text)
    (purpose id : Text) (r : AuthResponse) (text nonce : Text)
    → IsRing lib c
    → IsLater later c
    → encrypt lib c drawn purpose id r ≡ ok (text, nonce)
    → decrypt lib later c.key_version purpose id nonce text ≡ ok r
unfolding encrypt decrypt sealed ◌>>=◌ required
decrypt-encrypt lib laws c later drawn purpose id r text nonce ring keeps h =
    let (a, key, h1) = bound (required (find_key c.key_version c.keys)) _ (text, nonce) h in
    let (plain, json, h2) = bound (required (lib.marshal r)) _ (text, nonce) h1 in
    let (fresh, draw, h3) = bound (required drawn) _ (text, nonce) h2 in
    let found = required-some (find_key c.key_version c.keys) a key in
    let (bytes, gcm) = ring c.key_version a found in
    let same = ok-injective _ (text, nonce) h3 in
    opened a plain fresh (keeps c.key_version a found) (required-some (lib.marshal r) plain json)
      (ap (λ p. p.0) same) (ap (λ p. p.1) same)
      (laws.unseal-seal bytes a fresh plain (associated_data purpose id) gcm)
  where
    opened :
        (a : Aead) (plain fresh : Text)
        → find_key c.key_version later.keys ≡ some a
        → lib.marshal r ≡ some plain
        → a.seal fresh plain (associated_data purpose id) ≡ text
        → fresh ≡ nonce
        → a.unseal fresh
            (a.seal fresh plain (associated_data purpose id))
            (associated_data purpose id)
          ≡ some plain
        → decrypt lib later c.key_version purpose id nonce text ≡ ok r
    opened a plain fresh found json t n u =
        rw (decrypt, found) (rw (← t, ← n, u) (rw (laws.unmarshal-marshal r plain json) refl))
