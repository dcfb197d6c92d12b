-- ===== src/Presence.antt =====
-- redis_presence.go: which connection of which instance serves a session, in Redis. A key of a session
-- holds the record, which json.Marshal writes there; a set for each user indexes the sessions.
pub mod Index
pub mod Live
pub mod Calls
pub mod Lookup
mod Tests
use im_backend.Prelude.{
  map, ℕ, ◌+◌, Bool, true, false, ◌&&◌, ◌||◌, not, List, [], ◌∷◌, Option, none, some, ltb, ◌==◌,
  if◌then◌else◌, sort_by, any, keep, length,
}
use im_backend.Message.{Text}
use im_backend.Messages.Store.{text_eq}

pub record PresenceRecord : Type 0 where
  pub user_id : ℕ
  pub session_id : ℕ
  pub connection_id : Text
  pub instance_id : Text

-- An id that is not positive is read as 0.
unfoldable pub is_valid : PresenceRecord → Bool
is_valid r = not (
    (r.user_id == 0)
    || (r.session_id == 0)
    || (length r.connection_id == 0)
    || (length r.instance_id == 0))

-- Keys and the milliseconds at which they expire.
pub record Stored : Type 0 where
  pub value : PresenceRecord
  pub expires : ℕ

pub record Members : Type 0 where
  pub sessions : List ℕ
  pub expires : ℕ

pub record Redis : Type 0 where
  pub session : ℕ → ℕ → Option Stored
  pub members : ℕ → Option Members

abbrev pub alive : ℕ → Option Stored → Option PresenceRecord
alive now none = none
alive now (some s) = if ltb now s.expires then some s.value else none

-- GET and SMEMBERS.
unfoldable pub get : ℕ → ℕ → ℕ → Redis → Option PresenceRecord
get now user session redis = alive now (redis.session user session)

abbrev pub alive_members : ℕ → Option Members → List ℕ
alive_members now none = []
alive_members now (some m) = if ltb now m.expires then m.sessions else []

unfoldable pub members_of : ℕ → ℕ → Redis → List ℕ
members_of now user redis = alive_members now (redis.members user)

abbrev pub set_add : ℕ → List ℕ → List ℕ
set_add s ss = if any (λ t. t == s) ss then ss else s ∷ ss

abbrev pub set_remove : ℕ → List ℕ → List ℕ
set_remove s = keep λ t. not (t == s)

-- SET … PX and PEXPIRE of a session's key; none deletes it.
unfoldable pub put : ℕ → ℕ → Option Stored → Redis → Redis
put user session value redis = record redis {
  session = λ u s. if (u == user) && (s == session) then value else redis.session u s;
}

unfoldable pub put_members : ℕ → Option Members → Redis → Redis
put_members user m redis = record redis { members = λ u. if u == user then m else redis.members u }

-- SADD and PEXPIRE of the index.
unfoldable pub index : ℕ → ℕ → PresenceRecord → Redis → Redis
unfolding put_members members_of
index now ttl r redis =
    put_members r.user_id
      (some (record {
        sessions = set_add r.session_id (members_of now r.user_id redis);
        expires = now + ttl;
      }))
      redis

-- The value is written, or its time renewed, and the session indexed.
unfoldable pub hold : ℕ → ℕ → PresenceRecord → Redis → Redis
unfolding put index
hold now ttl r redis =
    index now ttl r
      (put r.user_id r.session_id (some (record { value = r; expires = now + ttl })) redis)

-- registerWebSocketPresence: the record that was replaced, and the keys after it. An incomplete record is
-- not registered.
unfoldable pub register : ℕ → ℕ → PresenceRecord → Redis → Option PresenceRecord × Redis
unfolding get hold is_valid
register now ttl r redis =
    if is_valid r
    then (get now r.user_id r.session_id redis, hold now ttl r redis)
    else (none, redis)

pub data Refresh : Type 0 where
  lost renewed recovered : Refresh

unfoldable pub same_record : PresenceRecord → PresenceRecord → Bool
same_record a b =
    (a.user_id == b.user_id)
    && (a.session_id == b.session_id)
    && text_eq a.connection_id b.connection_id
    && text_eq a.instance_id b.instance_id

-- refreshWebSocketPresence, on what GET returns.
unfoldable pub refreshed : ℕ → ℕ → PresenceRecord → Option PresenceRecord → Redis → Refresh × Redis
unfolding hold same_record
refreshed now ttl r none redis = (recovered, hold now ttl r redis)
refreshed now ttl r (some current) redis =
    if same_record current r then (renewed, hold now ttl r redis) else (lost, redis)

unfoldable pub refresh : ℕ → ℕ → PresenceRecord → Redis → Refresh × Redis
unfolding refreshed get is_valid
refresh now ttl r redis =
    if is_valid r
    then refreshed now ttl r (get now r.user_id r.session_id redis) redis
    else (lost, redis)

-- SREM, and DEL of an index that is empty.
abbrev pub removed : ℕ → Option Members → Option Members
removed session none = none
removed session (some m) = elim (set_remove session m.sessions) [
  | [] ↦ none
  | s ∷ ss ↦ some (record m { sessions = s ∷ ss })
]

unfoldable pub drop : PresenceRecord → Redis → Redis
unfolding put put_members
drop r redis =
    put_members r.user_id (removed r.session_id (redis.members r.user_id))
      (put r.user_id r.session_id none redis)

-- unregisterWebSocketPresence: only the connection that holds the session.
unfoldable pub unregistered : PresenceRecord → Option PresenceRecord → Redis → Bool × Redis
unfolding drop same_record
unregistered r none redis = (false, redis)
unregistered r (some current) redis =
    if same_record current r then (true, drop r redis) else (false, redis)

unfoldable pub unregister : ℕ → PresenceRecord → Redis → Bool × Redis
unfolding unregistered get is_valid
unregister now r redis =
    if is_valid r
    then unregistered r (get now r.user_id r.session_id redis) redis
    else (false, redis)

-- What MGET returns for a session, where it is a record of it.
unfoldable pub usable : ℕ → ℕ → Option PresenceRecord → Option PresenceRecord
unfolding is_valid
usable user session none = none
usable user session (some r) =
    if is_valid r && (r.user_id == user) && (r.session_id == session) then some r else none

unfoldable pub lookup_sessions : ℕ → ℕ → Redis → List ℕ → List PresenceRecord
unfolding usable get
lookup_sessions now user redis [] = []
lookup_sessions now user redis (s ∷ ss) =
    let rest = lookup_sessions now user redis ss in
    elim (usable user s (get now user s redis)) [ none ↦ rest | some r ↦ r ∷ rest ]

abbrev pub is_stale : ℕ → ℕ → Redis → ℕ → Bool
is_stale now user redis s = elim (usable user s (get now user s redis)) [
  | none ↦ true
  | some _ ↦ false
]

-- What SREM of the sessions `stale` leaves of an index; one that is left empty is deleted.
unfoldable pub without : List ℕ → Option Members → Option Members
without stale none = none
without stale (some m) = elim (keep (λ s. not (any (λ t. t == s) stale)) m.sessions) [
  | [] ↦ none
  | s ∷ ss ↦ some (record m { sessions = s ∷ ss })
]

-- removeStaleMembersForUsers, for one user.
unfoldable pub remove_stale : ℕ → List ℕ → Redis → Redis
unfolding without put_members
remove_stale user stale redis = put_members user (without stale (redis.members user)) redis

-- The times and the keys at the two commands that a lookup reads a user with, SMEMBERS and MGET;
-- others may run scripts in between.
pub record Reads : Type 0 where
  pub members_time : ℕ
  pub members : Redis
  pub values_time : ℕ
  pub values : Redis

-- What LookupUsers finds for one of its users: the records, and the sessions it takes for stale.
unfoldable pub lookup : ℕ → Reads → List PresenceRecord × List ℕ
unfolding lookup_sessions members_of
lookup user reads =
    let sessions = members_of reads.members_time user reads.members in
    (
      lookup_sessions reads.values_time user reads.values sessions,
      keep (is_stale reads.values_time user reads.values) sessions,
    )

-- The users once each, in the order of their ids.
unfoldable pub unique : List ℕ → List ℕ
unique [] = []
unique (u ∷ us) = let rest = unique us in if any (λ v. v == u) us then rest else u ∷ rest

-- LookupUsers up to its SREM: none where an id is not positive.
unfoldable pub lookup_users :
    (ℕ → Reads) → List ℕ → Option (List (ℕ × (List PresenceRecord × List ℕ)))
unfolding unique lookup
lookup_users reads users =
    if any (λ u. u == 0) users
    then none
    else some (map (λ u. (u, lookup u (reads u))) (sort_by ltb (unique users)))
