-- ===== src/Presence/Calls.antt =====
-- The scripts and commands of redis_presence.go in the order in which Redis runs them.
use im_backend.Prelude.{
  any, ℕ, ◌≤◌, ◌≡◌, inl, inr, Bool, true, List, [], ◌∷◌, Option, none, some, ◌==◌, Bool-cases,
  either_way,
}
use im_backend.Presence.{
  PresenceRecord, is_valid, Redis, get, register, Refresh, refreshed, refresh, same_record,
  unregistered, unregister, remove_stale,
}
use im_backend.Presence.Index.{IsIndexed, later-IsIndexed, hold-IsIndexed, no_some}
use im_backend.Presence.Live.{drop-IsIndexed, remove_stale-IsIndexed}

pub data Call : Type 0 where
  call_register call_refresh call_unregister : PresenceRecord → Call
  call_remove : ℕ → List ℕ → Call

abbrev pub call : ℕ → ℕ → Call → Redis → Redis
call ttl now (call_register r) redis = (register now ttl r redis).1
call ttl now (call_refresh r) redis = (refresh now ttl r redis).1
call ttl now (call_unregister r) redis = (unregister now r redis).1
call ttl now (call_remove user stale) redis = remove_stale user stale redis

-- Each call has its time.
abbrev pub calls : ℕ → List (ℕ × Call) → Redis → Redis
calls ttl [] redis = redis
calls ttl ((now, c) ∷ rest) redis = calls ttl rest (call ttl now c redis)

-- The times do not go back, from the first to `end`.
abbrev pub Timely : ℕ → List (ℕ × Call) → ℕ → Type 0
Timely last [] end = last ≤ end
Timely last ((now, c) ∷ rest) end = (last ≤ now) × Timely now rest end

-- A removal removes no session that has a live key.
abbrev pub Spares : ℕ → Call → Redis → Type 0
Spares now (call_remove user stale) redis =
    (s : ℕ) → any (λ t. t == s) stale ≡ true → get now user s redis ≡ none
Spares now _ redis = Unit

abbrev pub AllSpare : ℕ → List (ℕ × Call) → Redis → Type 0
AllSpare ttl [] redis = Unit
AllSpare ttl ((now, c) ∷ cs) redis = Spares now c redis × AllSpare ttl cs (call ttl now c redis)

abbrev pub empty : Redis
empty = record { session = λ u s. none; members = λ u. none }

module _ (ttl now : ℕ) (redis : Redis) (h : IsIndexed ttl now redis) where
  register-IsIndexed : (r : PresenceRecord) → IsIndexed ttl now (register now ttl r redis).1
  unfolding register
  register-IsIndexed r = elim (Bool-cases (is_valid r)) [
    | inl e ↦ rw e (hold-IsIndexed ttl now r e redis h)
    | inr e ↦ rw e h
  ]

  refreshed-IsIndexed :
      (r : PresenceRecord) (current : Option PresenceRecord)
      → is_valid r ≡ true
      → IsIndexed ttl now (refreshed now ttl r current redis).1
  unfolding refreshed
  refreshed-IsIndexed r none e = hold-IsIndexed ttl now r e redis h
  refreshed-IsIndexed r (some c) e =
      either_way (λ (x : Refresh × Redis). IsIndexed ttl now x.1) (same_record c r) _ _
        (hold-IsIndexed ttl now r e redis h) h

  refresh-IsIndexed : (r : PresenceRecord) → IsIndexed ttl now (refresh now ttl r redis).1
  unfolding refresh
  refresh-IsIndexed r = elim (Bool-cases (is_valid r)) [
    | inl e ↦ rw e (refreshed-IsIndexed r _ e)
    | inr e ↦ rw e h
  ]

  unregistered-IsIndexed :
      (r : PresenceRecord) (current : Option PresenceRecord)
      → IsIndexed ttl now (unregistered r current redis).1
  unfolding unregistered
  unregistered-IsIndexed r none = h
  unregistered-IsIndexed r (some c) =
      either_way (λ (x : Bool × Redis). IsIndexed ttl now x.1) (same_record c r) _ _
        (drop-IsIndexed ttl now redis h r) h

  unregister-IsIndexed : (r : PresenceRecord) → IsIndexed ttl now (unregister now r redis).1
  unfolding unregister
  unregister-IsIndexed r = elim (Bool-cases (is_valid r)) [
    | inl e ↦ rw e (unregistered-IsIndexed r _)
    | inr e ↦ rw e h
  ]

  call-IsIndexed : (c : Call) → Spares now c redis → IsIndexed ttl now (call ttl now c redis)
  call-IsIndexed (call_register r) q = register-IsIndexed r
  call-IsIndexed (call_refresh r) q = refresh-IsIndexed r
  call-IsIndexed (call_unregister r) q = unregister-IsIndexed r
  call-IsIndexed (call_remove user stale) q = remove_stale-IsIndexed ttl now redis h user stale q

pub calls-IsIndexed :
    (ttl last end : ℕ) (cs : List (ℕ × Call)) (redis : Redis)
    → Timely last cs end
    → AllSpare ttl cs redis
    → IsIndexed ttl last redis
    → IsIndexed ttl end (calls ttl cs redis)
calls-IsIndexed ttl last end [] redis t q h = later-IsIndexed ttl last end redis t h
calls-IsIndexed ttl last end ((now, c) ∷ cs) redis t q h =
    calls-IsIndexed ttl now end cs (call ttl now c redis) t.1 q.1
      (call-IsIndexed ttl now redis (later-IsIndexed ttl last now redis t.0 h) c q.0)

pub empty-IsIndexed : (ttl : ℕ) → IsIndexed ttl 0 empty
empty-IsIndexed ttl = record {
  own = λ u s st e. absurd (no_some st e);
  bounded = λ u s st e. absurd (no_some st e);
  indexed = λ u s st e l. absurd (no_some st e);
}
