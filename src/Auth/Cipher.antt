-- ===== src/Auth/Cipher.antt =====
-- auth_crypto.go: the key ring that encrypts stored responses. AES-GCM, encoding/json and
-- encoding/base64 are fields of Library; HasLaws is what their documentation promises.
pub mod RoundTrip
pub mod Keyring
use im_backend.Prelude.{
  ok, err, ◌>>=◌, ℕ, ◌≡◌, Bool, List, [], ◌∷◌, ◌++◌, Option, none, some, ◌==◌, if◌then◌else◌, codes,
}
use im_backend.Message.{Text}
use im_backend.Auth.Types.{AuthResponse}
use im_backend.Auth.Answer.{Answer, failure, required}

pub record Aead : Type 0 where
  pub seal : Text → Text → Text → Text
  pub unseal : Text → Text → Text → Option Text

-- The functions of other packages that auth.go and auth_crypto.go call.
pub record Library : Type 0 where
  pub sha256 : Text → Text
  pub url_encode : Text → Text
  pub url_decode : Text → Option Text
  pub std_decode : Text → Option Text
  pub new_gcm : Text → Option Aead
  pub marshal : AuthResponse → Option Text
  pub unmarshal : Text → Option AuthResponse
  pub format_int : ℕ → Text
  pub to_lower : Text → Text
  pub raw_encode : Text → Text
  pub raw_decode : Text → Option Text
  pub argon2_key : Text → Text → ℕ → ℕ → ℕ → ℕ → Text

pub record HasLaws (lib : Library) : Type 0 where
  pub url_decode-url_encode : (bytes : Text) → lib.url_decode (lib.url_encode bytes) ≡ some bytes
  pub unmarshal-marshal :
      (r : AuthResponse) (json : Text) → lib.marshal r ≡ some json → lib.unmarshal json ≡ some r
  pub unseal-seal :
      (key : Text) (a : Aead) (nonce plain extra : Text)
      → lib.new_gcm key ≡ some a
      → a.unseal nonce (a.seal nonce plain extra) extra ≡ some plain

pub record ResponseCipher : Type 0 where
  pub keys : List (ℕ × Aead)
  pub key_version : ℕ

unfoldable pub find_key : ℕ → List (ℕ × Aead) → Option Aead
find_key version [] = none
find_key version ((v, a) ∷ rest) =
    let later = find_key version rest in if v == version then some a else later

unfoldable pub associated_data : Text → Text → Text
associated_data purpose record_id = purpose ++ (0 ∷ record_id)

unfoldable pub sealed : Aead → Text → Text → Text → Text × Text
unfolding associated_data
sealed a nonce extra plain = (a.seal nonce plain extra, nonce)

-- The nonce is the one rand.Read draws, none where it fails.
unfoldable pub encrypt :
    Library → ResponseCipher → Option Text → Text → Text → AuthResponse → Answer (Text × Text)
unfolding find_key sealed associated_data
encrypt lib c drawn purpose record_id value = do
  aead ← required (find_key c.key_version c.keys)
  plain ← required (lib.marshal value)
  nonce ← required drawn
  ok (sealed aead nonce (associated_data purpose record_id) plain)

unfoldable pub decrypt :
    Library → ResponseCipher → ℕ → Text → Text → Text → Text → Answer AuthResponse
unfolding find_key associated_data
decrypt lib c version purpose record_id nonce ciphertext = do
  aead ← required (find_key version c.keys)
  plain ← required (aead.unseal nonce ciphertext (associated_data purpose record_id))
  required (lib.unmarshal plain)
