-- ===== src/Auth/Cipher/Keyring.antt =====
-- auth_crypto.go: newResponseCipherKeyring and decodeResponseCipherKey.
use im_backend.Prelude.{
  some-injective, ok, refuse_if, bound, passed, ok-injective, ◌>>=◌, ◌>>◌, ℕ, ◌≡◌, refl, sym, ap,
  subst, inl, inr, Bool, true, false, List, [], ◌∷◌, Option, none, some, ◌==◌, ==_refl, ==_iff,
  if◌then◌else◌, Bool-cases, length, parts, trim_space,
}
use im_backend.Prelude.Int.{ℤ, positive}
use im_backend.Message.{Text}
use im_backend.Sync.Request.{parse_int}
use im_backend.Auth.Types.{AuthResponse}
use im_backend.Auth.Answer.{Answer, failure, required, required-some}
use im_backend.Auth.Cipher.{
  Aead, Library, HasLaws, ResponseCipher, find_key, associated_data, sealed, encrypt, decrypt,
}
use im_backend.Auth.Cipher.RoundTrip.{IsRing, IsLater, decrypt-encrypt}

-- strings.SplitN(…, 2), where there is a separator.
unfoldable pub cut : ℕ → Text → Option (Text × Text)
cut separator [] = none
cut separator (r ∷ rest) =
    let later = cut separator rest in
    if r == separator
    then some ([], rest)
    else (elim later [ none ↦ none | some (first, second) ↦ some (r ∷ first, second) ])

unfoldable pub decode_response_cipher_key : Library → Text → Answer Aead
decode_response_cipher_key lib encoded = do
  key ← required (lib.std_decode encoded)
  refuse_if (if length key == 32 then false else true) failure
  required (lib.new_gcm key)

abbrev pub is_some {ℓ} : {A : Type ℓ} → Option A → Bool
is_some none = false
is_some (some a) = true

abbrev pub version_of : Text → Option ℕ
version_of text = elim (parse_int text) [ none ↦ none | some n ↦ positive n ]

-- An entry is version:key, of a version that the ring does not have.
unfoldable pub add_entry : Library → ℕ → Text → List (ℕ × Aead) → Answer (List (ℕ × Aead))
unfolding cut decode_response_cipher_key find_key
add_entry lib active entry keys = do
  (text, encoded) ← required (cut 58 (trim_space entry))
  version ← required (version_of text)
  refuse_if (version == active) failure
  refuse_if (is_some (find_key version keys)) failure
  previous ← decode_response_cipher_key lib encoded
  ok ((version, previous) ∷ keys)

unfoldable pub add_entries : Library → ℕ → List Text → List (ℕ × Aead) → Answer (List (ℕ × Aead))
unfolding add_entry
add_entries lib active [] keys = ok keys
add_entries lib active (entry ∷ rest) keys = do
  added ← add_entry lib active entry keys
  add_entries lib active rest added

unfoldable pub previous_entries : Library → Text → List Text
unfolding parts trim_space
previous_entries lib encoded = elim (trim_space encoded) [ [] ↦ [] | _ ∷ _ ↦ parts 44 encoded ]

unfoldable pub new_response_cipher_keyring : Library → Text → ℤ → Text → Answer ResponseCipher
unfolding decode_response_cipher_key add_entries previous_entries
new_response_cipher_keyring lib encoded_key key_version encoded_previous = do
  version ← required (positive key_version)
  active ← decode_response_cipher_key lib encoded_key
  keys ← add_entries lib version (previous_entries lib encoded_previous) ((version, active) ∷ [])
  ok (record { keys = keys; key_version = version })

-- The keys come from new_gcm.
abbrev Sound : Library → List (ℕ × Aead) → Type 0
Sound lib keys =
    (version : ℕ) (a : Aead)
    → find_key version keys ≡ some a
    → (key : Text) × (lib.new_gcm key ≡ some a)

-- Each key of the first is that of its version in the second.
abbrev Keeps : List (ℕ × Aead) → List (ℕ × Aead) → Type 0
Keeps before after =
    (version : ℕ) (a : Aead) → find_key version before ≡ some a → find_key version after ≡ some a

decoded :
    (lib : Library) (encoded : Text) (a : Aead)
    → decode_response_cipher_key lib encoded ≡ ok a
    → (key : Text) × (lib.new_gcm key ≡ some a)
unfolding decode_response_cipher_key
decoded lib encoded a h =
    let (key, e, k) = bound (required (lib.std_decode encoded)) _ a h in
    let (_, q) = passed _ failure (required (lib.new_gcm key)) a k in
    (key, required-some (lib.new_gcm key) a q)

cons-Sound :
    (lib : Library) (version : ℕ) (a : Aead) (keys : List (ℕ × Aead))
    → (key : Text) × (lib.new_gcm key ≡ some a)
    → Sound lib keys
    → Sound lib ((version, a) ∷ keys)
unfolding find_key
cons-Sound lib version a keys k h other b e = elim (Bool-cases (version == other)) [
  | inl f ↦
      subst (λ x. (key : Text) × (lib.new_gcm key ≡ some x)) (some-injective _ _ (rw f at e)) k
  | inr f ↦ h other b (rw f at e)
]

cons-Keeps :
    (version : ℕ) (a : Aead) (keys : List (ℕ × Aead))
    → is_some (find_key version keys) ≡ false
    → Keeps keys ((version, a) ∷ keys)
unfolding find_key
cons-Keeps version a keys absent other b e = elim (Bool-cases (version == other)) [
  | inr f ↦ rw f e
  | inl f ↦
      absurd (taken (subst (λ v. find_key v keys ≡ some b) (sym ((==_iff version other).0 f)) e))
]
  where
    taken : find_key version keys ≡ some b → ⊥
    taken q = cc (ap is_some q, absent)

entry-Sound :
    (lib : Library) (active : ℕ) (entry : Text) (keys after : List (ℕ × Aead))
    → add_entry lib active entry keys ≡ ok after
    → Sound lib keys
    → Sound lib after × Keeps keys after
unfolding add_entry
entry-Sound lib active entry keys after h s =
    let (parts, _, h1) = bound (required (cut 58 (trim_space entry))) _ after h in
    let (version, _, h2) = bound (required (version_of parts.0)) _ after h1 in
    let (_, h3) = passed (version == active) failure _ after h2 in
    let (absent, h4) = passed (is_some (find_key version keys)) failure _ after h3 in
    let (previous, key, h5) = bound (decode_response_cipher_key lib parts.1) _ after h4 in
    let same = ok-injective ((version, previous) ∷ keys) after h5 in
    subst (λ ks. Sound lib ks × Keeps keys ks) same
      (
        cons-Sound lib version previous keys (decoded lib parts.1 previous key) s,
        cons-Keeps version previous keys absent,
      )

entries-Sound :
    (lib : Library) (active : ℕ) (entries : List Text) (keys after : List (ℕ × Aead))
    → add_entries lib active entries keys ≡ ok after
    → Sound lib keys
    → Sound lib after × Keeps keys after
unfolding add_entries
entries-Sound lib active [] keys after h s =
    subst (λ ks. Sound lib ks × Keeps keys ks) (ok-injective keys after h) (s, λ v a e. e)
entries-Sound lib active (entry ∷ rest) keys after h s =
    let (added, e, k) = bound (add_entry lib active entry keys) _ after h in
    let (first, kept) = entry-Sound lib active entry keys added e s in
    let (last, later) = entries-Sound lib active rest added after k first in
    (last, λ v a q. later v a (kept v a q))

-- A ring that is accepted has its active key, and only keys that were decoded.
pub keyring-IsRing :
    (lib : Library) (encoded_key : Text) (key_version : ℤ) (encoded_previous : Text)
    (c : ResponseCipher)
    → new_response_cipher_keyring lib encoded_key key_version encoded_previous ≡ ok c
    → IsRing lib c
      × ((a : Aead) × (decode_response_cipher_key lib encoded_key ≡ ok a)
          × (find_key c.key_version c.keys ≡ some a))
unfolding new_response_cipher_keyring
keyring-IsRing lib encoded_key key_version encoded_previous c h =
    let (version, _, h1) = bound (required (positive key_version)) _ c h in
    let (active, key, h2) = bound (decode_response_cipher_key lib encoded_key) _ c h1 in
    let entries = previous_entries lib encoded_previous in
    let (keys, e, h3) = bound (add_entries lib version entries ((version, active) ∷ [])) _ c h2 in
    let (sound, keeps) =
      entries-Sound lib version entries ((version, active) ∷ []) keys e
        (cons-Sound lib version active [] (decoded lib encoded_key active key) (no_key lib)) in
    subst
      (λ (r : ResponseCipher).
        IsRing lib r
        × ((a : Aead) × (decode_response_cipher_key lib encoded_key ≡ ok a)
            × (find_key r.key_version r.keys ≡ some a)))
      (ok-injective _ c h3) (sound, (active, key, keeps version active (own version active)))
  where
    no_key : (lib : Library) → Sound lib []
    no_key lib version a e = cc

    own : (version : ℕ) (a : Aead) → find_key version ((version, a) ∷ []) ≡ some a
    own version a = rw (find_key, ==_refl version) refl

encrypts :
    (lib : Library) (c : ResponseCipher) (a : Aead) (purpose id nonce json : Text)
    (r : AuthResponse)
    → find_key c.key_version c.keys ≡ some a
    → lib.marshal r ≡ some json
    → encrypt lib c (some nonce) purpose id r
      ≡ ok (a.seal nonce json (associated_data purpose id), nonce)
unfolding encrypt required ◌>>=◌ sealed
encrypts lib c a purpose id nonce json r found m = rw (found, m) refl

-- A ring that newResponseCipherKeyring accepts encrypts every response that json.Marshal takes, and what
-- it encrypts is decrypted for the same purpose and record by every ring that still has its keys.
pub accepted_ring_round_trip :
    (lib : Library) (laws : HasLaws lib) (encoded_key : Text) (key_version : ℤ) (previous : Text)
    (c : ResponseCipher) (purpose id nonce json : Text) (r : AuthResponse)
    → new_response_cipher_keyring lib encoded_key key_version previous ≡ ok c
    → lib.marshal r ≡ some json
    → (text : Text) × (encrypt lib c (some nonce) purpose id r ≡ ok (text, nonce))
      × ((later : ResponseCipher)
          → IsLater later c
          → decrypt lib later c.key_version purpose id nonce text ≡ ok r)
accepted_ring_round_trip lib laws encoded_key key_version previous c purpose id nonce json r h m =
    let (ring, (a, _, found)) = keyring-IsRing lib encoded_key key_version previous c h in
    let text = a.seal nonce json (associated_data purpose id) in
    let sealing = encrypts lib c a purpose id nonce json r found m in
    (
      text,
      sealing,
      λ later keeps.
          decrypt-encrypt lib laws c later (some nonce) purpose id r text nonce ring keeps sealing,
    )
