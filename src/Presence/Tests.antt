-- ===== src/Presence/Tests.antt =====
-- A session of redis_presence.go that moves from one connection to another.
use im_backend.Prelude.{none, subst, ==_iff, ℕ, ◌≡◌, refl, List, [], ◌∷◌, some, arith, codes, In}
use im_backend.Messages.Store.{text_eq}
use im_backend.Presence.{
  PresenceRecord, get, lookup, is_valid, register, hold, index, put, put_members, members_of,
  unregister, unregistered, same_record, lookup_sessions, usable,
}
use im_backend.Presence.Calls.{
  Call, call_register, call_refresh, call_unregister, call_remove, calls, empty,
}
use im_backend.Presence.Lookup.{lookup_returns_live_records}

abbrev first : PresenceRecord
first = record { user_id = 7; session_id = 5; connection_id = codes "a"; instance_id = codes "x" }

abbrev second : PresenceRecord
second = record { user_id = 7; session_id = 5; connection_id = codes "b"; instance_id = codes "y" }

-- The first connection unregisters after the second has taken the session over.
abbrev sample_calls : List (ℕ × Call)
sample_calls =
    (10, call_register first) ∷ (20, call_register second) ∷ (30, call_unregister first) ∷ []

-- Another lookup has taken a session without a key for stale, and removes it.
abbrev more_calls : List (ℕ × Call)
more_calls = (41, call_remove 7 (6 ∷ [])) ∷ (42, call_refresh second) ∷ []

lookup_returns_live_records_example :
    let redis = calls 90 sample_calls empty in
    let later = calls 90 more_calls redis in
    let (records, stale) =
      lookup 7 (record { members_time = 40; members = redis; values_time = 45; values = later }) in
    (In second records → (s : ℕ) × (get 45 7 s later ≡ some second))
    × ((s : ℕ) (old : PresenceRecord)
        → get 40 7 s redis ≡ some old
        → get 45 7 s later ≡ some second
        → In second records)
    × ((s : ℕ) → In s stale → get 45 7 s later ≡ none)
unfolding get register hold index put put_members unregister unregistered same_record is_valid
    text_eq members_of
lookup_returns_live_records_example =
    lookup_returns_live_records 90 40 45 7 sample_calls more_calls second
      (omega arith, (omega arith, (omega arith, omega arith)))
      (omega arith, (omega arith, omega arith)) (tt, (tt, (tt, tt)))
      (
        (λ s q.
            subst (λ x. get 41 7 x (calls 90 sample_calls empty) ≡ none)
              ((==_iff 6 s).0 (ground arith)) refl),
        (tt, tt),
      )

second_is_found :
    (lookup 7 (record {
      members_time = 40;
      members = calls 90 sample_calls empty;
      values_time = 45;
      values = calls 90 sample_calls empty;
    })).0
    ≡ second ∷ []
unfolding lookup lookup_sessions usable get is_valid register hold index put put_members members_of
    unregister unregistered same_record text_eq
second_is_found = refl
