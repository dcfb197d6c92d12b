-- ===== src/Presence/Lookup.antt =====
-- What LookupUsers of redis_presence.go returns, with other scripts and commands before it and between
-- its commands.
use im_backend.Prelude.{
  In-keep, some-injective, ℕ, ◌<◌, ◌≡◌, refl, sym, ap, subst, ◌∙◌, inl, inr, ◌⊎◌, ◌&&◌, List, [],
  ◌∷◌, Option, none, some, arith, ltb, ltb→lt, ◌==◌, Bool-cases, In,
}
use im_backend.Presence.{
  PresenceRecord, is_valid, Stored, Members, Redis, alive, get, alive_members, members_of, usable,
  lookup, is_stale, lookup_sessions,
}
use im_backend.Presence.Index.{Holds, no_some, alive_members-live}
use im_backend.Presence.Live.{live-usable, stale-dead}
use im_backend.Presence.Calls.{
  Call, calls, Timely, AllSpare, empty, calls-IsIndexed, empty-IsIndexed,
}

usable-some :
    (u s : ℕ) (o : Option PresenceRecord) (r : PresenceRecord) → usable u s o ≡ some r → o ≡ some r
unfolding usable
usable-some u s none r e = absurd (no_some r e)
usable-some u s (some x) r e =
    elim (Bool-cases (is_valid x && (x.user_id == u) && (x.session_id == s))) [
      | inl f ↦ rw f at e
      | inr f ↦ absurd (no_some r (rw f at e))
    ]

module _ (now user : ℕ) (redis : Redis) (r : PresenceRecord) where
  abbrev front : Option PresenceRecord → List PresenceRecord → List PresenceRecord
  front o rest = elim o [ none ↦ rest | some x ↦ x ∷ rest ]

  In-front :
      (o : Option PresenceRecord) (rest : List PresenceRecord)
      → In r (front o rest)
      → (o ≡ some r) ⊎ In r rest
  In-front none rest i = inr i
  In-front (some x) rest (inl e) = inl (ap some e)
  In-front (some x) rest (inr i) = inr i

  front-In :
      (o : Option PresenceRecord) (rest : List PresenceRecord)
      → (o ≡ some r) ⊎ In r rest
      → In r (front o rest)
  front-In none rest (inl e) = absurd (no_some r e)
  front-In none rest (inr i) = i
  front-In (some x) rest (inl e) = inl (some-injective x r e)
  front-In (some x) rest (inr i) = inr i

  In-lookup :
      (ss : List ℕ)
      → In r (lookup_sessions now user redis ss)
      → (s : ℕ) × (get now user s redis ≡ some r)
  unfolding lookup_sessions
  In-lookup [] i = absurd i.1
  In-lookup (s ∷ ss) i =
      elim (In-front (usable user s (get now user s redis)) (lookup_sessions now user redis ss) i) [
        | inl e ↦ (s, usable-some user s (get now user s redis) r e)
        | inr k ↦ In-lookup ss k
      ]

  lookup-In :
      (ss : List ℕ) (s : ℕ)
      → In s ss
      → usable user s (get now user s redis) ≡ some r
      → In r (lookup_sessions now user redis ss)
  unfolding lookup_sessions
  lookup-In [] s i e = absurd i.1
  lookup-In (t ∷ ss) s (inl q) e =
      front-In (usable user t (get now user t redis)) (lookup_sessions now user redis ss)
        (inl (subst (λ x. usable user x (get now user x redis) ≡ some r) (sym q) e))
  lookup-In (t ∷ ss) s (inr i) e =
      front-In (usable user t (get now user t redis)) (lookup_sessions now user redis ss)
        (inr (lookup-In ss s i e))

alive_value :
    (now : ℕ) (o : Option Stored) (r : PresenceRecord)
    → alive now o ≡ some r
    → (st : Stored) × (o ≡ some st) × (now < st.expires) × (st.value ≡ r)
alive_value now none r e = absurd (no_some r e)
alive_value now (some st) r e = elim (Bool-cases (ltb now st.expires)) [
  | inl f ↦ (st, refl, ltb→lt now st.expires f, some-injective st.value r (rw f at e))
  | inr f ↦ absurd (no_some r (rw f at e))
]

alive-Holds :
    (now s expires : ℕ) (o : Option Members)
    → now < expires
    → Holds s expires o
    → In s (alive_members now o)
alive-Holds now s expires o l (m, e, i, k) =
    subst (λ x. In s (alive_members now x)) (sym e)
      (subst (λ ss. In s ss) (sym (alive_members-live now m (omega (arith, l, k)))) i)

-- After any registrations, refreshes, unregistrations and removals of stale sessions by any instances, with
-- times that do not go back, a lookup of a user reads the index, and after any more of them the records.
-- As long as no removal finds a live key of a session that it removes, the lookup returns records of live
-- keys of the user only; it returns the record of every session whose key was live when the index was read
-- and is live when the records are; and a session that it takes for stale has no live key at that time.
pub lookup_returns_live_records :
    (ttl first second user : ℕ) (before between : List (ℕ × Call)) (r : PresenceRecord)
    → Timely 0 before first
    → Timely first between second
    → AllSpare ttl before empty
    → AllSpare ttl between (calls ttl before empty)
    → let redis = calls ttl before empty in
      let later = calls ttl between redis in
      let (records, stale) =
        lookup user (record {
          members_time = first;
          members = redis;
          values_time = second;
          values = later;
        }) in
      (In r records → (s : ℕ) × (get second user s later ≡ some r))
      × ((s : ℕ) (old : PresenceRecord)
          → get first user s redis ≡ some old
          → get second user s later ≡ some r
          → In r records)
      × ((s : ℕ) → In s stale → get second user s later ≡ none)
unfolding lookup get members_of
lookup_returns_live_records ttl first second user before between r t t' q q' =
    let redis = calls ttl before empty in
    let later = calls ttl between redis in
    let sessions = members_of first user redis in
    let h = calls-IsIndexed ttl 0 first before empty t q (empty-IsIndexed ttl) in
    let h' = calls-IsIndexed ttl first second between redis t' q' h in
    (
      In-lookup second user later r sessions,
      (λ s old e e'.
          let (st, key, l, _) = alive_value first (redis.session user s) old e in
          let (st', key', l', value) = alive_value second (later.session user s) r e' in
          lookup-In second user later r sessions s
            (alive-Holds first s st.expires (redis.members user) l (h.indexed user s st key l))
            (live-usable ttl second later h' user s st' key' l' ∙ ap some value)),
      λ s i.
          stale-dead ttl second later h' user s _ refl
            (In-keep (is_stale second user later) sessions s i).1,
    )
