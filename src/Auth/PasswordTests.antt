-- ===== src/Auth/PasswordTests.antt =====
-- Stored hashes and a change of password, at concrete texts.
use im_backend.Prelude.{
  refuse_if, ◌>>=◌, ◌>>◌, ℕ, zero, suc, ◌≡◌, ◌≢◌, refl, true, false, [], ◌∷◌, none, some, arith,
  codes, parts, All, length, map, ◌==◌, ap,
}
use im_backend.Message.{Text}
use im_backend.Messages.Store.{text_eq}
use im_backend.Auth.Answer.{required}
use im_backend.Auth.Sessions.{transaction, committed}
use im_backend.Auth.Login.{password_hash_of}
use im_backend.Auth.Register.{new_password_hash}
use im_backend.Auth.PasswordHash.{hash_password, verify_password, verify_parts, verify_key}
use im_backend.Auth.PasswordHash.RoundTrip.{HasPasswordLaws, key}
use im_backend.Auth.Password.{
  change_password, change_from, change_verified, password_transaction, password_answer,
  has_password, set_password,
}
use im_backend.Auth.Password.Stored.{changed_password_lets_in}
use im_backend.Auth.Samples.{
  sample_library, sample_database, stored_hash, at_time, owner, padded, shifted, unshifted,
  repeated,
}

unshifted-shifted : (t : Text) → unshifted (shifted t) ≡ t
unshifted-shifted [] = refl
unshifted-shifted (c ∷ t) = ground (arith, unshifted-shifted t)

shifted_letters : (t : Text) → All (λ c. (c == 36) ≡ false) (shifted t)
shifted_letters [] = tt
shifted_letters (c ∷ t) = (ground arith, shifted_letters t)

length-padded : (n : ℕ) (t : Text) → length (padded n t) ≡ n
length-padded zero t = refl
length-padded (suc n) [] = ap suc (length-padded n [])
length-padded (suc n) (c ∷ t) = ap suc (length-padded n t)

sample_library-HasPasswordLaws : HasPasswordLaws sample_library
sample_library-HasPasswordLaws = record {
  raw_decode-raw_encode = λ bytes. ap some (unshifted-shifted bytes);
  raw_encode_letters = shifted_letters;
  length-argon2_key =
      λ password salt iterations memory parallelism size. length-padded size password;
}

stored_hash_is_one :
    hash_password sample_library (repeated 16 3) (codes "old password") ≡ stored_hash
unfolding hash_password
stored_hash_is_one = refl

-- Other parameters are read too; a sign, a space, or text behind the last number does no harm.
read_with_spaces :
    verify_password sample_library (codes "pw") (codes "x$argon2id$v= +19$m=8,t= 1,p=4 lanes$B$9>")
    ≡ some false
unfolding verify_password verify_parts verify_key parts text_eq
read_with_spaces = refl

unread_versions :
    map (verify_password sample_library (codes "pw")) (
      codes "$argon2id$v=18$m=8,t=1,p=4$B$9>"
      ∷ codes "$argon2i$v=19$m=8,t=1,p=4$B$9>"
      ∷ codes "$argon2id$v=19$m=8,t=1,p=256$B$9>"
      ∷ codes "$argon2id$v=19$m=8,t=1$B$9>"
      ∷ codes "$argon2id$v=19$m=8,t=1,p=4$B"
      ∷ [])
    ≡ none ∷ none ∷ none ∷ none ∷ none ∷ []
unfolding verify_password verify_parts verify_key parts text_eq
unread_versions = refl

changed_password_lets_in_example :
    let after =
      (change_password sample_library
        (at_time 2000)
        owner
        (codes "old password")
        (codes "new password")
        sample_database
        sample_database).0 in
    (salt : Text) × (hash : Text) × (password_hash_of 7 after ≡ some hash)
    × (verify_password sample_library (codes "new password") hash ≡ some true)
    × ((tried : Text)
        → verify_password sample_library tried hash ≡ some true
        → key sample_library tried salt ≡ key sample_library (codes "new password") salt)
    × ((other : ℕ)
        → other ≢ 7
        → password_hash_of other after ≡ password_hash_of other sample_database)
unfolding change_password change_from change_verified password_transaction password_answer
    has_password set_password new_password_hash password_hash_of verify_password verify_parts
    verify_key hash_password parts transaction committed text_eq refuse_if required ◌>>=◌ ◌>>◌
changed_password_lets_in_example =
    changed_password_lets_in sample_library sample_library-HasPasswordLaws (at_time 2000) owner
      (codes "new password") sample_database (refl, tt) (codes "old password") sample_database refl
