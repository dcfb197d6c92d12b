-- ===== src/Auth/LoginTests.antt =====
-- The theorems on logins and on the key ring of auth.go at concrete requests.
use im_backend.Prelude.{
  ok, refuse_if, ◌>>=◌, ◌>>◌, parts, trim_space, ◌+◌, ◌≡◌, refl, [], ◌∷◌, none, some, codes,
}
use im_backend.Prelude.Int.{pos}
use im_backend.Message.{Text}
use im_backend.Auth.Answer.{required}
use im_backend.Auth.Types.{
  Database, AuthResponse, session_absolute_lifetime, session_idle_lifetime, access_token_lifetime,
  idempotency_lifetime,
}
use im_backend.Auth.Cipher.{ResponseCipher, find_key, encrypt, decrypt}
use im_backend.Auth.Cipher.RoundTrip.{IsLater}
use im_backend.Auth.Cipher.Keyring.{
  cut, add_entry, decode_response_cipher_key, add_entries, previous_entries,
  new_response_cipher_keyring, accepted_ring_round_trip,
}
use im_backend.Auth.Samples.{
  plain_aead, sample_library, sample_library-HasLaws, alice, old_session, old_token,
  sample_database, written, repeated,
}

abbrev logged_in : AuthResponse
logged_in = record {
  user = alice;
  session_id = 6;
  device_id = codes "laptop";
  session_expires_at = some (2000 + session_absolute_lifetime);
  access_token = repeated 32 1;
  access_token_expires_at = 2000 + access_token_lifetime;
  refresh_token = repeated 32 2;
  refresh_token_expires_at = 2000 + session_idle_lifetime;
}

abbrev with_session : Database
with_session = record sample_database {
  sessions =
      record {
        id = 6;
        user_id = 7;
        device_id = codes "laptop";
        idle_expires_at = 2000 + session_idle_lifetime;
        revoked_at = none;
        created_at = 2000;
      }
      ∷ old_session
      ∷ [];
  access_tokens =
      record {
        session_id = 6;
        token_hash = repeated 32 1;
        expires_at = 2000 + access_token_lifetime;
      }
      ∷ [];
  refresh_tokens =
      record {
        id = 4;
        session_id = 6;
        parent_token_id = none;
        token_hash = repeated 32 2;
        expires_at = 2000 + session_idle_lifetime;
        consumed_at = none;
      }
      ∷ old_token
      ∷ [];
  next_session_id = 7;
  next_token_id = 5;
}

abbrev with_login : Database
with_login = record with_session {
  login_results =
      record {
        request_id_hash = codes "request";
        user_id = 7;
        session_id = 6;
        encrypted_response = written logged_in;
        nonce = repeated 32 3;
        key_version = 1;
        expires_at = 2000 + idempotency_lifetime;
      }
      ∷ [];
}

-- Two keys: the active one, of version 2, and the one before it.
abbrev two_keys : ResponseCipher
two_keys = record { keys = (1, plain_aead) ∷ (2, plain_aead) ∷ []; key_version = 2 }

abbrev old_key : Text
old_key = 49 ∷ 58 ∷ repeated 32 65

accepted_ring_round_trip_example :
    (text : Text) × (encrypt sample_library two_keys
        (some (codes "nonce"))
        (codes "login")
        (codes "id")
        logged_in
      ≡ ok (text, codes "nonce"))
    × ((later : ResponseCipher)
        → IsLater later two_keys
        → decrypt sample_library later 2 (codes "login") (codes "id") (codes "nonce") text
          ≡ ok logged_in)
unfolding new_response_cipher_keyring decode_response_cipher_key add_entries previous_entries parts
    trim_space cut add_entry find_key refuse_if required ◌>>=◌ ◌>>◌
accepted_ring_round_trip_example =
    accepted_ring_round_trip sample_library sample_library-HasLaws (repeated 32 66) (pos 2) old_key
      two_keys (codes "login") (codes "id") (codes "nonce") (written logged_in) logged_in refl refl
