-- ===== src/Presence/Live.antt =====
-- LookupUsers of redis_presence.go returns the live records of a user, after any calls of the scripts.
use im_backend.Prelude.{
  any, ltb, ltb→lt, false≢true, some-injective, ℕ, ◌≤◌, ◌<◌, ◌≡◌, refl, sym, ap, subst, ◌∙◌, inl,
  inr, true, false, ◌&&◌, not, List, [], ◌∷◌, Option, none, some, lt→ltb, ◌==◌, ==_iff,
  if◌then◌else◌, Bool-cases, In, keep, keep-In,
}
use im_backend.Presence.{
  PresenceRecord, is_valid, Stored, Members, Redis, get, set_remove, put, put_members, removed,
  drop, usable, is_stale, without, remove_stale,
}
use im_backend.Presence.Index.{IsOwn, Holds, IsIndexed, no_some}

nonempty-Holds :
    (s expires : ℕ) (m : Members) (ss : List ℕ)
    → In s ss
    → expires ≤ m.expires
    → Holds s expires (elim ss [ [] ↦ none | t ∷ ts ↦ some (record m { sessions = t ∷ ts }) ])
nonempty-Holds s expires m [] i k = absurd i.1
nonempty-Holds s expires m (t ∷ ts) i k = (record m { sessions = t ∷ ts }, refl, i, k)

removed-Holds :
    (x s expires : ℕ) (o : Option Members)
    → (s == x) ≡ false
    → Holds s expires o
    → Holds s expires (removed x o)
removed-Holds x s expires none n (m, e, i, k) = absurd (no_some m e)
removed-Holds x s expires (some o) n (m, e, i, k) =
    let same = some-injective o m e in
    nonempty-Holds s expires o (set_remove x o.sessions)
      (keep-In (λ t. not (t == x)) o.sessions s
        (subst (λ (y : Members). In s y.sessions) (sym same) i) (rw n refl))
      (subst (λ (y : Members). expires ≤ y.expires) (sym same) k)

module _ (ttl now : ℕ) (redis : Redis) (h : IsIndexed ttl now redis) where
  -- A script that leaves or deletes keys, and keeps the index of those that it leaves.
  kept-IsIndexed :
      (after : Redis)
      → ((u s : ℕ) (st : Stored) → after.session u s ≡ some st → redis.session u s ≡ some st)
      → ((u s : ℕ) (st : Stored)
          → after.session u s ≡ some st
          → now < st.expires
          → Holds s st.expires (redis.members u)
          → Holds s st.expires (after.members u))
      → IsIndexed ttl now after
  kept-IsIndexed after keys indexes = record {
    own = λ u s st e. h.own u s st (keys u s st e);
    bounded = λ u s st e. h.bounded u s st (keys u s st e);
    indexed = λ u s st e l. indexes u s st e l (h.indexed u s st (keys u s st e) l);
  }

  drop-key :
      (r : PresenceRecord) (u s : ℕ) (st : Stored)
      → (drop r redis).session u s ≡ some st
      → (((u == r.user_id) && (s == r.session_id)) ≡ false) × (redis.session u s ≡ some st)
  unfolding drop put put_members
  drop-key r u s st e = elim (Bool-cases ((u == r.user_id) && (s == r.session_id))) [
    | inl f ↦ absurd (no_some st (rw f at e))
    | inr f ↦ (f, rw f at e)
  ]

  drop-Holds :
      (r : PresenceRecord) (u s expires : ℕ)
      → ((u == r.user_id) && (s == r.session_id)) ≡ false
      → Holds s expires (redis.members u)
      → Holds s expires ((drop r redis).members u)
  unfolding drop put put_members
  drop-Holds r u s expires n k = elim (Bool-cases (u == r.user_id)) [
    | inr f ↦ rw f k
    | inl f ↦ rw f (
        removed-Holds r.session_id s expires (redis.members r.user_id) (rw f at n)
          (subst (λ x. Holds s expires (redis.members x)) ((==_iff u r.user_id).0 f) k))
  ]

  pub drop-IsIndexed : (r : PresenceRecord) → IsIndexed ttl now (drop r redis)
  drop-IsIndexed r =
      kept-IsIndexed (drop r redis) (λ u s st e. (drop-key r u s st e).1)
        (λ u s st e l k. drop-Holds r u s st.expires (drop-key r u s st e).0 k)

  -- A live key gives its record, which is not stale.
  live-get :
      (u s : ℕ) (st : Stored)
      → redis.session u s ≡ some st
      → now < st.expires
      → get now u s redis ≡ some st.value
  unfolding get
  live-get u s st e l = rw (e, lt→ltb now st.expires l) refl

  own-usable : (u s : ℕ) (st : Stored) → IsOwn u s st → usable u s (some st.value) ≡ some st.value
  unfolding usable
  own-usable u s st (v, a, b) =
      own_record (st.value) v ((==_iff st.value.user_id u).1 a) ((==_iff st.value.session_id s).1 b)
    where
      own_record :
          (r : PresenceRecord)
          → is_valid r ≡ true
          → (r.user_id == u) ≡ true
          → (r.session_id == s) ≡ true
          → (if is_valid r && (r.user_id == u) && (r.session_id == s) then some r else none)
            ≡ some r
      own_record r p q t = rw (p, q, t) refl

  pub live-usable :
      (u s : ℕ) (st : Stored)
      → redis.session u s ≡ some st
      → now < st.expires
      → usable u s (get now u s redis) ≡ some st.value
  live-usable u s st e l =
      ap (usable u s) (live-get u s st e l) ∙ own-usable u s st (h.own u s st e)

  -- A session that is taken for stale has no live key.
  pub stale-dead :
      (u s : ℕ) (st : Option Stored)
      → redis.session u s ≡ st
      → is_stale now u redis s ≡ true
      → get now u s redis ≡ none
  unfolding get
  stale-dead u s none e q = rw e refl
  stale-dead u s (some st) e q = elim (Bool-cases (ltb now st.expires)) [
    | inr f ↦ rw (e, f) refl
    | inl f ↦
        let usable_record = live-usable u s st e (ltb→lt now st.expires f) in
        absurd (false≢true (rw (is_stale, usable_record) at q))
  ]

  without-Holds :
      (s expires : ℕ) (stale : List ℕ) (o : Option Members)
      → any (λ t. t == s) stale ≡ false
      → Holds s expires o
      → Holds s expires (without stale o)
  unfolding without
  without-Holds s expires stale none n (m, e, i, k) = absurd (no_some m e)
  without-Holds s expires stale (some o) n (m, e, i, k) =
      let same = some-injective o m e in
      nonempty-Holds s expires o (keep (λ s. not (any (λ t. t == s) stale)) o.sessions)
        (keep-In (λ s. not (any (λ t. t == s) stale)) o.sessions s
          (subst (λ (y : Members). In s y.sessions) (sym same) i) (ap not n))
        (subst (λ (y : Members). expires ≤ y.expires) (sym same) k)

  -- Where none of the sessions has a live key, the SREM keeps the index.
  pub remove_stale-IsIndexed :
      (user : ℕ) (stale : List ℕ)
      → ((s : ℕ) → any (λ t. t == s) stale ≡ true → get now user s redis ≡ none)
      → IsIndexed ttl now (remove_stale user stale redis)
  unfolding remove_stale put_members
  remove_stale-IsIndexed user stale dead =
      kept-IsIndexed (remove_stale user stale redis) (λ u s st e. e)
        (λ u s st e l k. elim (Bool-cases (u == user)) [
          | inr f ↦ rw f k
          | inl f ↦
              let same = (==_iff u user).0 f in
              rw f (
                without-Holds s st.expires stale (redis.members user)
                  (spared user s st (subst (λ x. redis.session x s ≡ some st) same e) l)
                  (subst (λ x. Holds s st.expires (redis.members x)) same k))
        ])
    where
      spared :
          (u s : ℕ) (st : Stored)
          → redis.session user s ≡ some st
          → now < st.expires
          → any (λ t. t == s) stale ≡ false
      spared u s st e l = elim (Bool-cases (any (λ t. t == s) stale)) [
        | inr f ↦ f
        | inl f ↦ absurd (no_some st.value (sym (dead s f) ∙ live-get user s st e l))
      ]
