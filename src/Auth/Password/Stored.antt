-- ===== src/Auth/Password/Stored.antt =====
-- The hash that a change of password stores.
use im_backend.Prelude.{
  ok, ◌>>=◌, ◌≡◌, ◌≢◌, refl, sym, ap, ◌∙◌, true, false, List, [], ◌∷◌, Option, none, some, ℕ, ◌==◌,
  DistinctBy, any, find, map, arith,
}
use im_backend.Message.{Text}
use im_backend.Auth.Answer.{Ensures, Ensures-known, Ensures-checked, required}
use im_backend.Auth.Types.{Account, Database, Environment, salt_draw}
use im_backend.Auth.Cipher.{Library}
use im_backend.Auth.Access.{Identity, revoke_where}
use im_backend.Auth.Accounts.{success}
use im_backend.Auth.Login.{password_hash_of}
use im_backend.Auth.PasswordHash.{hash_password, verify_password}
use im_backend.Auth.PasswordHash.RoundTrip.{HasPasswordLaws, key, stored_hash_verifies}
use im_backend.Auth.Register.{new_password_hash}
use im_backend.Auth.Password.{has_password, set_password, password_transaction, change_password}
use im_backend.Auth.Password.Changed.{successful_change_leaves}

abbrev pub UniqueUsers : List Account → Type 0
UniqueUsers = DistinctBy (λ a. a.user.id)

abbrev hash_in : ℕ → List Account → Option Text
hash_in user accounts = elim (find (λ (a : Account). a.user.id == user) accounts) [
  | none ↦ none
  | some a ↦ some a.password_hash
]

module _ (user : ℕ) (old hash : Text) where
  no_password :
      (id : ℕ) (accounts : List Account)
      → id ≡ user
      → any (λ (a : Account). a.user.id == id) accounts ≡ false
      → any (has_password user old) accounts ≡ false
  unfolding has_password
  no_password id [] e h = refl
  no_password id (a ∷ accounts) e h = ground (arith, no_password id accounts)

  -- The statement sets the hash of the user, where it finds the old one.
  hash_in-set_self :
      (accounts : List Account)
      → UniqueUsers accounts
      → any (has_password user old) accounts ≡ true
      → hash_in user (map (set_password user old hash) accounts) ≡ some hash
  unfolding has_password set_password
  hash_in-set_self [] u h = cc
  hash_in-set_self (a ∷ accounts) u h =
      ground (arith, hash_in-set_self accounts, no_password a.user.id accounts)

  hash_in-set_other :
      (other : ℕ) (accounts : List Account)
      → other ≢ user
      → hash_in other (map (set_password user old hash) accounts) ≡ hash_in other accounts
  unfolding has_password set_password
  hash_in-set_other other [] n = refl
  hash_in-set_other other (a ∷ accounts) n = ground (arith, hash_in-set_other other accounts n)

module _ (lib : Library) (laws : HasPasswordLaws lib) (env : Environment) (who : Identity)
    (new : Text) (later : Database) (unique : UniqueUsers later.users) where
  -- The user's hash is one of the new password, and the hashes of others are as they were.
  abbrev Stored : Database → Type 0
  Stored db =
      ((salt : Text) × (password_hash_of who.user_id db ≡ some (hash_password lib salt new)))
      × ((other : ℕ)
          → other ≢ who.user_id
          → password_hash_of other db ≡ password_hash_of other later)

  new_password_hash-some :
      (drawn : Option Text) (hash : Text)
      → (required drawn >>= λ salt. ok (hash_password lib salt new)) ≡ ok hash
      → (salt : Text) × (hash_password lib salt new ≡ hash)
  unfolding required ◌>>=◌
  new_password_hash-some none hash h = cc
  new_password_hash-some (some salt) hash h = (salt, cc)

  password_transaction-Stored :
      (old hash : Text)
      → new_password_hash lib env new ≡ ok hash
      → Ensures
          (λ (r : Unit {0} × Database). Stored r.1)
          (password_transaction env who.user_id old hash later)
  unfolding password_transaction new_password_hash password_hash_of revoke_where
  password_transaction-Stored old hash e =
      Ensures-checked (λ (r : Unit {0} × Database). Stored r.1) _ _ _
        (Ensures-known (λ (r : Unit {0} × Database). Stored r.1) _ _ _
          λ found.
            Ensures-checked (λ (r : Unit {0} × Database). Stored r.1) _ _ _
              ((
                let (salt, same) = new_password_hash-some (env.random salt_draw) hash e in
                    (
                      salt,
                      hash_in-set_self who.user_id old hash later.users unique
                            (ground (arith, found))
                          ∙ ap some (sym same),
                    ),
                λ other n. hash_in-set_other who.user_id old hash other later.users n,
              )))

  -- After a change of password that succeeds the stored hash of the user lets the new password in, and
  -- any other only if it has the same key under the salt of the hash; the hashes of the other users are
  -- as they were. No two accounts have the same id.
  pub changed_password_lets_in :
      (current : Text) (db : Database)
      → (change_password lib env who current new db later).1 ≡ success tt
      → let after = (change_password lib env who current new db later).0 in
        (salt : Text) × (hash : Text) × (password_hash_of who.user_id after ≡ some hash)
        × (verify_password lib new hash ≡ some true)
        × ((tried : Text)
            → verify_password lib tried hash ≡ some true
            → key lib tried salt ≡ key lib new salt)
        × ((other : ℕ)
            → other ≢ who.user_id
            → password_hash_of other after ≡ password_hash_of other later)
  changed_password_lets_in current db h =
      let ((salt, stored), others) =
        successful_change_leaves Stored lib env who new later password_transaction-Stored current db
          h in
      (
        salt,
        hash_password lib salt new,
        stored,
        (stored_hash_verifies lib laws salt new new).0,
        λ tried. (stored_hash_verifies lib laws salt new tried).1.0,
        others,
      )
