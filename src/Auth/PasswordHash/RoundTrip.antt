-- ===== src/Auth/PasswordHash/RoundTrip.antt =====
-- A stored hash and the passwords that it lets in.
use im_backend.Prelude.{
  ◌≡◌, ◌≢◌, ◌↔◌, refl, none, sym, ap, ◌∙◌, true, false, [], ◌∷◌, ◌++◌, some, ◌==◌, All, codes,
  parts, parts-append, parts_single, length, ℕ,
}
use im_backend.Message.{Text}
use im_backend.Messages.Store.{text_eq}
use im_backend.Messages.Consistency.{text_eq_refl, text_eq_sound}
use im_backend.Auth.Cipher.{Library}
use im_backend.Auth.PasswordHash.{
  hash_password, verify_key, verify_parts, verify_password, argon_memory, argon_iterations,
  argon_parallelism, argon_key_length,
}

-- What RawStdEncoding and Argon2 promise: decoding gives the bytes back, the letters of base64 have no
-- $, and a key is as long as is asked.
pub record HasPasswordLaws (lib : Library) : Type 0 where
  pub raw_decode-raw_encode : (bytes : Text) → lib.raw_decode (lib.raw_encode bytes) ≡ some bytes
  pub raw_encode_letters : (bytes : Text) → All (λ c. (c == 36) ≡ false) (lib.raw_encode bytes)
  pub length-argon2_key :
      (password salt : Text) (iterations memory parallelism size : ℕ)
      → length (lib.argon2_key password salt iterations memory parallelism size) ≡ size

-- The key that hashPassword derives.
abbrev pub key : Library → Text → Text → Text
key lib password salt =
    lib.argon2_key password salt argon_iterations argon_memory argon_parallelism argon_key_length

module _ (lib : Library) (laws : HasPasswordLaws lib) where
  -- Behind the text that the format begins with stand the salt and the key.
  parts-stored :
      (salt password : Text)
      → parts 36 (hash_password lib salt password)
        ≡ []
          ∷ codes "argon2id"
          ∷ codes "v=19"
          ∷ codes "m=19456,t=2,p=1"
          ∷ lib.raw_encode salt
          ∷ lib.raw_encode (key lib password salt)
          ∷ []
  unfolding hash_password
  parts-stored salt password =
      parts-append 36 (codes "$argon2id$v=19$m=19456,t=2,p=1") _
      ∙ ap (parts 36 (codes "$argon2id$v=19$m=19456,t=2,p=1") ++◌) (
          parts-append 36 (lib.raw_encode salt) (lib.raw_encode (key lib password salt))
          ∙ ap (parts 36 (lib.raw_encode salt) ++◌)
              (parts_single 36 _ (laws.raw_encode_letters (key lib password salt)))
          ∙ ap (λ l. l ++ (lib.raw_encode (key lib password salt) ∷ []))
              (parts_single 36 _ (laws.raw_encode_letters salt)))
      ∙ (unfold parts in refl)

  verify_parts-stored :
      (tried : Text) (salt hash : Text)
      → verify_parts lib tried
          ([] ∷ codes "argon2id" ∷ codes "v=19" ∷ codes "m=19456,t=2,p=1" ∷ salt ∷ hash ∷ [])
        ≡ verify_key lib tried (argon_memory, argon_iterations, argon_parallelism) salt hash
  unfolding verify_parts text_eq
  verify_parts-stored tried salt hash = refl

  verify_key-stored :
      (tried salt password : Text)
      → verify_key lib tried
          (argon_memory, argon_iterations, argon_parallelism)
          (lib.raw_encode salt)
          (lib.raw_encode (key lib password salt))
        ≡ some (text_eq (key lib tried salt) (key lib password salt))
  unfolding verify_key
  verify_key-stored tried salt password =
      rw (laws.raw_decode-raw_encode salt, verify_key)
        (rw (laws.raw_decode-raw_encode (key lib password salt)) (
          rw
            (laws.length-argon2_key password salt argon_iterations argon_memory argon_parallelism
              argon_key_length)
            refl))

  verify_password-stored :
      (salt password tried : Text)
      → verify_password lib tried (hash_password lib salt password)
        ≡ some (text_eq (key lib tried salt) (key lib password salt))
  unfolding verify_password
  verify_password-stored salt password tried =
      ap (verify_parts lib tried) (parts-stored salt password)
      ∙ verify_parts-stored tried _ _
      ∙ verify_key-stored tried salt password

  some-true : (s t : Text) → some (text_eq s t) ≡ some true → s ≡ t
  some-true s t e = text_eq_sound s t (cc)

  -- A hash that was stored is always read, it lets its own password in, and any other exactly if the
  -- key of that, under the salt of the hash, is the key of the password that was stored.
  pub stored_hash_verifies :
      (salt password tried : Text)
      → (verify_password lib password (hash_password lib salt password) ≡ some true)
        × ((verify_password lib tried (hash_password lib salt password) ≡ some true)
            ↔ (key lib tried salt ≡ key lib password salt))
        × (verify_password lib tried (hash_password lib salt password) ≢ none)
  stored_hash_verifies salt password tried = (
    own,
    (
      λ e. some-true _ _ (sym (verify_password-stored salt password tried) ∙ e),
      λ e.
          verify_password-stored salt password tried
          ∙ ap some (
              ap (λ k. text_eq k (key lib password salt)) e ∙ text_eq_refl (key lib password salt)),
    ),
    λ e. cc (verify_password-stored salt password tried, e),
  )
    where
      own : verify_password lib password (hash_password lib salt password) ≡ some true
      own =
          verify_password-stored salt password password
          ∙ ap some (text_eq_refl (key lib password salt))
