-- ===== src/Fence.antt =====
-- internal/reliabilitylab/fence.go: leases with fencing tokens, and writes that test them.
pub mod Superseded
mod Tests
use im_backend.Prelude.{
  Result, ok, err, ◌>>=◌, ◌>>◌, refuse_if, ℕ, ◌+◌, ◌/◌, Bool, true, false, ◌&&◌, not, List, [], ◌∷◌,
  Option, none, some, leb, ltb, ◌==◌, if◌then◌else◌, find, any, map,
}
use im_backend.Message.{Text}
use im_backend.Outbox.Types.{Reply, served, refused, lost}
use im_backend.Messages.Store.{text_eq}

pub record Lease : Type 0 where
  pub name : Text
  pub token : ℕ
  pub until : ℕ

pub record Resource : Type 0 where
  pub name : Text
  pub value : Text
  pub last_token : ℕ

pub record Tables : Type 0 where
  pub leases : List Lease
  pub resources : List Resource

pub data FenceError : Type 0 where
  invalid_lease held_by_another stale_owner failed : FenceError

abbrev pub Answer {ℓ} : Type ℓ → Type ℓ
Answer A = Result FenceError A

-- ON CONFLICT(name) DO UPDATE … WHERE until <= clock_timestamp(): the leases, and the token where a row
-- is returned.
unfoldable pub upsert_lease : Text → ℕ → ℕ → List Lease → List Lease × Option ℕ
upsert_lease name until now [] = (record { name = name; token = 1; until = until } ∷ [], some 1)
upsert_lease name until now (l ∷ rest) =
    let (later, token) = upsert_lease name until now rest in
    if text_eq l.name name
    then (if leb l.until now
        then (record l { token = l.token + 1; until = until } ∷ rest, some (l.token + 1))
        else (l ∷ rest, none))
    else (l ∷ later, token)

unfoldable pub acquired : Reply → Tables → List Lease × Option ℕ → Tables × Answer ℕ
acquired refused t result = (t, err failed)
acquired served t (leases, none) = (t, err held_by_another)
acquired served t (leases, some token) = (record t { leases = leases }, ok token)
acquired lost t (leases, none) = (t, err failed)
acquired lost t (leases, some token) = (record t { leases = leases }, err failed)

-- The lease is a time.Duration in nanoseconds, which the statement takes in milliseconds.
unfoldable pub acquire_fence : Reply → Text → ℕ → ℕ → Tables → Tables × Answer ℕ
unfolding upsert_lease acquired
acquire_fence reply name lease now t =
    if lease == 0
    then (t, err invalid_lease)
    else acquired reply t (upsert_lease name (now + lease / 1000000) now t.leases)

-- SELECT token FROM resource_leases WHERE name=$1
unfoldable pub current_token : Text → List Lease → Option ℕ
current_token name [] = none
current_token name (l ∷ rest) =
    let later = current_token name rest in if text_eq l.name name then some l.token else later

-- EXISTS(SELECT 1 FROM resource_leases WHERE name=$1 AND token=$2 AND until>clock_timestamp())
unfoldable pub holds_lease : Text → ℕ → ℕ → Tables → Bool
holds_lease name token now t =
    any (λ l. text_eq l.name name && (l.token == token) && ltb now l.until) t.leases

unfoldable pub is_writable : Text → ℕ → Resource → Bool
is_writable name token r = text_eq r.name name && leb r.last_token token

unfoldable pub write_resource : Text → ℕ → Text → Resource → Resource
unfolding is_writable
write_resource name token value r =
    if is_writable name token r then record r { value = value; last_token = token } else r

unfoldable pub written : Text → ℕ → Text → Tables → Tables
unfolding write_resource
written name token value t = record t {
  resources = map (write_resource name token value) t.resources;
}

unfoldable pub commit_write : Reply → Tables → Tables → Tables × Answer (Unit {0})
commit_write served before after = (after, ok tt)
commit_write refused before after = (before, err failed)
commit_write lost before after = (after, err failed)

unfoldable pub write_as :
    Reply → Text → ℕ → Text → ℕ → Option ℕ → Tables → Tables × Answer (Unit {0})
unfolding holds_lease written commit_write is_writable
write_as reply name token value now none t = (t, err stale_owner)
write_as reply name token value now (some current) t =
    if not (current == token)
    then (t, err stale_owner)
    else if not (holds_lease name token now t && any (is_writable name token) t.resources)
    then (t, err stale_owner)
    else commit_write reply t (written name token value t)

unfoldable pub write_fenced : Reply → Text → ℕ → Text → ℕ → Tables → Tables × Answer (Unit {0})
unfolding write_as current_token
write_fenced reply name token value now t =
    write_as reply name token value now (current_token name t.leases) t
