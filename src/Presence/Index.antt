-- ===== src/Presence/Index.antt =====
-- The scripts of redis_presence.go keep every live session in the index of its user.
use im_backend.Prelude.{
  some-injective, ℕ, ◌+◌, ◌≤◌, ◌<◌, ◌≡◌, refl, sym, ap, subst, ◌∙◌, inl, inr, ◌⊎◌, Bool, true, ◌&&◌,
  List, Option, none, some, arith, lt→ltb, ◌==◌, ==_iff, ==_refl, if◌then◌else◌, Bool-cases, In,
  any, any-In,
}
use im_backend.Presence.{
  PresenceRecord, is_valid, Stored, Members, Redis, alive_members, members_of, set_add, put,
  put_members, index, hold,
}

-- The record of a session's key is one of that session.
abbrev pub IsOwn : ℕ → ℕ → Stored → Type 0
IsOwn u s st = (is_valid st.value ≡ true) × (st.value.user_id ≡ u) × (st.value.session_id ≡ s)

-- The index of the user holds the session, and lives as long as its key.
abbrev pub Holds : ℕ → ℕ → Option Members → Type 0
Holds s expires index = (m : Members) × (index ≡ some m) × In s m.sessions × (expires ≤ m.expires)

pub record IsIndexed (ttl last : ℕ) (redis : Redis) : Type 0 where
  pub own : (u s : ℕ) (st : Stored) → redis.session u s ≡ some st → IsOwn u s st
  pub bounded : (u s : ℕ) (st : Stored) → redis.session u s ≡ some st → st.expires ≤ last + ttl
  pub indexed :
      (u s : ℕ) (st : Stored)
      → redis.session u s ≡ some st
      → last < st.expires
      → Holds s st.expires (redis.members u)

pub no_some {ℓ} : {A : Type ℓ} (a : A) → ◌≡◌ {A = Option A} none (some a) → ⊥
no_some a e = cc

both_true : (a b : Bool) → (a && b) ≡ true → (a ≡ true) × (b ≡ true)
both_true a b h = ground arith

set_add-In : (s t : ℕ) (ss : List ℕ) → In t ss → In t (set_add s ss)
set_add-In s t ss i = elim (Bool-cases (any (λ t. t == s) ss)) [
  | inl e ↦ rw e i
  | inr e ↦ rw e (inr i)
]

own-set_add : (s : ℕ) (ss : List ℕ) → In s (set_add s ss)
own-set_add s ss = elim (Bool-cases (any (λ t. t == s) ss)) [
  | inl e ↦
      rw e (let (t, i, q) = any-In (λ t. t == s) ss e in subst (λ x. In x ss) ((==_iff t s).0 q) i)
  | inr e ↦ rw e (inl refl)
]

pub alive_members-live :
    (now : ℕ) (m : Members) → now < m.expires → alive_members now (some m) ≡ m.sessions
alive_members-live now m l = rw (lt→ltb now m.expires l) refl

-- Time alone keeps the index.
pub later-IsIndexed :
    (ttl last now : ℕ) (redis : Redis)
    → last ≤ now
    → IsIndexed ttl last redis
    → IsIndexed ttl now redis
later-IsIndexed ttl last now redis l h = record {
  own = h.own;
  bounded = λ u s st e. omega (arith, h.bounded u s st e, l);
  indexed = λ u s st e k. h.indexed u s st e (omega (arith, k, l));
}

module _ (ttl now : ℕ) (r : PresenceRecord) (valid : is_valid r ≡ true) (redis : Redis)
    (h : IsIndexed ttl now redis) where
  abbrev fresh : Stored
  fresh = record { value = r; expires = now + ttl }

  abbrev after : Redis
  after = hold now ttl r redis

  -- A key after the script is the one that was written, or one that was there.
  hold-key :
      (u s : ℕ) (st : Stored)
      → after.session u s ≡ some st
      → ((u ≡ r.user_id) × (s ≡ r.session_id) × (fresh ≡ st)) ⊎ (redis.session u s ≡ some st)
  unfolding hold index put put_members
  hold-key u s st e = elim (Bool-cases ((u == r.user_id) && (s == r.session_id))) [
    | inr f ↦ inr (rw f at e)
    | inl f ↦
        let (a, b) = both_true (u == r.user_id) (s == r.session_id) f in
        inl (
          (==_iff u r.user_id).0 a,
          (==_iff s r.session_id).0 b,
          some-injective fresh st (rw f at e),
        )
  ]

  new_members : Option Members
  new_members = some (record {
    sessions = set_add r.session_id (members_of now r.user_id redis);
    expires = now + ttl;
  })

  hold-members :
      (u : ℕ) → after.members u ≡ (if u == r.user_id then new_members else redis.members u)
  unfolding hold index put put_members members_of new_members
  hold-members u = refl

  own-Holds : Holds r.session_id (now + ttl) (after.members r.user_id)
  unfolding new_members
  own-Holds =
      rw (hold-members r.user_id, ==_refl r.user_id)
        (_, refl, own-set_add r.session_id (members_of now r.user_id redis), omega arith)

  kept-Holds :
      (u s expires : ℕ)
      → now < expires
      → expires ≤ now + ttl
      → Holds s expires (redis.members u)
      → Holds s expires (after.members u)
  unfolding new_members members_of
  kept-Holds u s expires l b (m, e, i, k) = elim (Bool-cases (u == r.user_id)) [
    | inr f ↦ rw (hold-members u, f) (m, e, i, k)
    | inl f ↦
        rw (hold-members u, f)
          (
            _,
            refl,
            set_add-In r.session_id s _ (
                subst (λ ss. In s ss)
                  (sym (
                    ap (alive_members now) (ap redis.members (sym ((==_iff u r.user_id).0 f)) ∙ e)
                    ∙ alive_members-live now m (omega (arith, l, k))))
                  i),
            b,
          )
  ]

  pub hold-IsIndexed : IsIndexed ttl now after
  hold-IsIndexed = record {
    own = λ u s st e. elim (hold-key u s st e) [
      | inr q ↦ h.own u s st q
      | inl (a, b, q) ↦ subst (IsOwn u s) q (valid, sym a, sym b)
    ];
    bounded = λ u s st e. elim (hold-key u s st e) [
      | inr q ↦ h.bounded u s st q
      | inl (a, b, q) ↦ subst (λ (x : Stored). x.expires ≤ now + ttl) q (omega arith)
    ];
    indexed = λ u s st e l. elim (hold-key u s st e) [
      | inr q ↦ kept-Holds u s st.expires l (h.bounded u s st q) (h.indexed u s st q l)
      | inl (a, b, q) ↦
          subst (λ (x : Stored). Holds s x.expires (after.members u)) q
            (subst (λ x. Holds x (now + ttl) (after.members u)) (sym b)
              (subst (λ x. Holds r.session_id (now + ttl) (after.members x)) (sym a) own-Holds))
    ];
  }
