-- ===== src/Outbox/Lifecycle/Untouched.antt =====
-- The rows of outbox_events that a statement does not select.
use im_backend.Prelude.{
  any, false≢true, ℕ, ◌≡◌, refl, subst, inl, inr, Bool, true, false, not, List, arith, ◌==◌,
  if◌then◌else◌, Bool-cases, In, map-In, any-In, sort_by, sort_by-In, In-take, In-keep,
  DistinctBy-eq, keep,
}
use im_backend.Outbox.Types.{Row, OutboxWorkerConfig, Reply, served, refused, lost, is_none}
use im_backend.Outbox.Claim.{claim, lease, lease_rows, candidates, chosen}
use im_backend.Outbox.Claim.Sound.{UniqueIds, chosen_due}
use im_backend.Outbox.Mark.{update_where, exec_update}
use im_backend.Outbox.Cleanup.{doomed, named_in, published_before, published_order}
use im_backend.Outbox.Lifecycle.{is_open}
use im_backend.Outbox.Lifecycle.Refine.{due-open}

pub closed-not : (b o : Bool) → (b ≡ true → o ≡ true) → o ≡ false → b ≡ false
closed-not true o f h = absurd (cc (f refl))
closed-not false o f h = refl

update_where-other :
    (test : Row → Bool) (change : Row → Row) (rows : List Row) (r : Row)
    → In r rows
    → test r ≡ false
    → In r (update_where test change rows)
unfolding update_where
update_where-other test change rows r m h =
    subst (λ z. In z (update_where test change rows)) (rw h)
      (map-In (λ r. if test r then change r else r) rows r m)

pub exec_update-other :
    (test : Row → Bool) (change : Row → Row) (wanted : ℕ) (reply : Reply) (rows : List Row)
    (r : Row)
    → In r rows
    → test r ≡ false
    → In r (exec_update test change wanted reply rows).0
unfolding exec_update
exec_update-other test change wanted served rows r m h = update_where-other test change rows r m h
exec_update-other test change wanted refused rows r m h = m
exec_update-other test change wanted lost rows r m h = update_where-other test change rows r m h

pub claim-other :
    (config : OutboxWorkerConfig) (token : ℕ → ℕ) (locked : ℕ → Bool) (reply : Reply) (now : ℕ)
    (rows : List Row) (r : Row)
    → UniqueIds rows
    → In r rows
    → is_open r ≡ false
    → In r (claim config token locked reply now rows).0
unfolding claim lease_rows
claim-other config token locked reply now rows r unique m closed = by_reply reply
  where
    unpicked : chosen (candidates config locked now rows) r ≡ false
    unpicked =
        closed-not _ (is_open r)
          (λ c. due-open config now r (chosen_due config locked now rows r unique m c).0) closed

    leased_rows : In r (claim config token locked served now rows).0
    leased_rows =
        subst (λ z. In z (claim config token locked served now rows).0) (rw unpicked)
          (map-In
            (λ r.
              if chosen (candidates config locked now rows) r
              then lease config now (token r.event_id) r
              else r)
            rows r m)

    by_reply : (reply : Reply) → In r (claim config token locked reply now rows).0
    by_reply served = leased_rows
    by_reply refused = m
    by_reply lost = leased_rows

published_before-published :
    (older_than : ℕ) (r : Row)
    → published_before older_than r ≡ true
    → is_none r.published_at ≡ false
unfolding published_before
published_before-published older_than r h = ground arith

-- What the cleanup names is published.
pub named-published :
    (older_than n : ℕ) (rows : List Row) (r : Row)
    → UniqueIds rows
    → In r rows
    → named_in (doomed older_than n rows) r ≡ true
    → is_none r.published_at ≡ false
unfolding doomed
named-published older_than n rows r unique m h =
    let (d, picked, same) = any-In (λ d. d.event_id == r.event_id) (doomed older_than n rows) h in
    let (i, old) = In-keep (published_before older_than) rows d (
      sort_by-In published_order _ d
        (In-take n (sort_by published_order (keep (published_before older_than) rows)) d picked)) in
    let e = DistinctBy-eq (λ r. r.event_id) rows d r unique i m (ground arith) in
    subst (λ z. is_none z.published_at ≡ false) e (published_before-published older_than d old)

-- What is left by a cleanup that names a row has no row of its event.
pub named-gone :
    (older_than n : ℕ) (rows : List Row) (r : Row)
    → UniqueIds rows
    → In r rows
    → named_in (doomed older_than n rows) r ≡ true
    → any
        (λ s. s.event_id == r.event_id)
        (keep (λ r. not (named_in (doomed older_than n rows) r)) rows)
      ≡ false
named-gone older_than n rows r unique m h =
    elim (Bool-cases (any (λ s. s.event_id == r.event_id) left)) [
      | inr e ↦ e
      | inl e ↦
          let (s, i, same) = any-In (λ s. s.event_id == r.event_id) left e in
          let (k, free) = In-keep (λ r. not (named_in (doomed older_than n rows) r)) rows s i in
          let q = DistinctBy-eq (λ r. r.event_id) rows s r unique k m (ground arith) in
          absurd
            (named_not (subst (λ z. not (named_in (doomed older_than n rows) z) ≡ true) q free))
    ]
  where
    left : List Row
    left = keep (λ r. not (named_in (doomed older_than n rows) r)) rows

    named_not : not (named_in (doomed older_than n rows) r) ≡ true → ⊥
    named_not e = false≢true (rw h at e)
