-- ===== src/Outbox/Deliver/Settled.antt =====
-- What completeDeliveryBatch of outbox.go leaves behind.
use im_backend.Prelude.{
  ℕ, ◌≡◌, refl, ap, subst, ◌∙◌, ◌≢◌, inl, inr, Bool, false, List, [], ◌∷◌, map, Option, none, some,
  arith, Bool-cases, Option-cases, any, In, any-false,
}
use im_backend.Outbox.Types.{
  Row, OutboxEvent, OutboxWorkerConfig, PublishError, Reply, served, refused, lost, StateError,
}
use im_backend.Outbox.Mark.{
  owns, update_where, exec_update, set_published, set_dead, set_retry, mark_published_batch,
  mark_failed, gives_up, claimed_by,
}
use im_backend.Outbox.Mark.Fencing.{owns-unlocked, mark_failed-clears}
use im_backend.Outbox.Deliver.{
  PublishOutcome, Surroundings, successful, settle, settle_one, complete_delivery_batch,
}

abbrev pub outcome_events : List PublishOutcome → List OutboxEvent
outcome_events = map λ o. o.event

-- Each outcome is labelled once, in the order of arrival.
settle-labels :
    (config : OutboxWorkerConfig) (world : Surroundings) (batch_error : Option StateError)
    (outcomes : List PublishOutcome) (rows : List Row)
    → map (λ l. l.0) (settle config world batch_error outcomes rows).labels
      ≡ outcome_events outcomes
unfolding settle
settle-labels config world batch_error [] rows = refl
settle-labels config world batch_error (o ∷ rest) rows =
    ap (◌∷◌ o.event) (settle-labels config world batch_error rest _)

-- The row is not held under the token of the event.
abbrev Free : List Row → OutboxEvent → Type 0
Free rows e = any (owns e.event_id e.lock_token) rows ≡ false

-- An update that takes locks away frees no row for another token.
update_where-Free :
    (test : Row → Bool) (change : Row → Row) (rows : List Row) (e : OutboxEvent)
    → ((r : Row) → (change r).lock_token ≡ none)
    → Free rows e
    → Free (update_where test change rows) e
unfolding update_where
update_where-Free test change [] e h f = refl
update_where-Free test change (r ∷ rows) e h f = ground (
  arith,
  owns-unlocked e.event_id e.lock_token (change r) (h r),
  update_where-Free test change rows e h,
)

exec_update-Free :
    (test : Row → Bool) (change : Row → Row) (wanted : ℕ) (reply : Reply) (rows : List Row)
    (e : OutboxEvent)
    → ((r : Row) → (change r).lock_token ≡ none)
    → Free rows e
    → Free (exec_update test change wanted reply rows).0 e
unfolding exec_update
exec_update-Free test change wanted served rows e h f = update_where-Free test change rows e h f
exec_update-Free test change wanted refused rows e h f = f
exec_update-Free test change wanted lost rows e h f = update_where-Free test change rows e h f

-- The batch mark frees each event that it names.
update_where-frees :
    (test : Row → Bool) (change : Row → Row) (rows : List Row) (e : OutboxEvent)
    → ((r : Row) → (change r).lock_token ≡ none)
    → ((r : Row) → test r ≡ false → owns e.event_id e.lock_token r ≡ false)
    → Free (update_where test change rows) e
unfolding update_where
update_where-frees test change [] e h k = refl
update_where-frees test change (r ∷ rows) e h k = ground (
  arith,
  owns-unlocked e.event_id e.lock_token (change r) (h r),
  k r,
  update_where-frees test change rows e h k,
)

unclaimed :
    (events : List OutboxEvent) (e : OutboxEvent) (r : Row)
    → In e events
    → claimed_by events r ≡ false
    → owns e.event_id e.lock_token r ≡ false
unfolding claimed_by
unclaimed events e r m h = any-false (λ e. owns e.event_id e.lock_token r) events h e m

batch-frees :
    (reply : Reply) (now : ℕ) (events : List OutboxEvent) (rows : List Row) (e : OutboxEvent)
    → reply ≢ refused
    → In e events
    → Free (mark_published_batch reply now events rows).0 e
unfolding mark_published_batch exec_update set_published
batch-frees reply now [] rows e h m = absurd m.1
batch-frees served now (d ∷ events) rows e h m =
    update_where-frees _ _ rows e (λ r. refl) (λ r. unclaimed (d ∷ events) e r m)
batch-frees refused now (d ∷ events) rows e h m = absurd (h refl)
batch-frees lost now (d ∷ events) rows e h m =
    update_where-frees _ _ rows e (λ r. refl) (λ r. unclaimed (d ∷ events) e r m)

mark_failed-Free :
    (config : OutboxWorkerConfig) (jitter : ℕ → ℕ) (reply : Reply) (now : ℕ) (event : OutboxEvent)
    (error : PublishError) (rows : List Row) (e : OutboxEvent)
    → Free rows e
    → Free (mark_failed config jitter reply now event error rows).0 e
unfolding mark_failed set_dead set_retry
mark_failed-Free config jitter reply now event error rows e f =
    elim (Bool-cases (gives_up config event error)) [
      | inl t ↦ rw t (exec_update-Free _ _ 1 reply rows e (λ r. refl) f)
      | inr t ↦ rw t (exec_update-Free _ _ 1 reply rows e (λ r. refl) f)
    ]

pub successful-In :
    (outcomes : List PublishOutcome) (o : PublishOutcome)
    → In o outcomes
    → o.error ≡ none
    → In o.event (successful outcomes)
unfolding successful
successful-In [] o m h = absurd m.1
successful-In (p ∷ rest) o (inl q) h =
    subst (λ z. In z.event (successful (p ∷ rest))) q
      (rw (ap (λ (z : PublishOutcome). z.error) q ∙ h) (inl refl))
successful-In (p ∷ rest) o (inr m) h = elim (Option-cases p.error) [
  | inl e ↦ rw e (inr (successful-In rest o m h))
  | inr (x, e) ↦ rw e (successful-In rest o m h)
]

module _ (config : OutboxWorkerConfig) (world : Surroundings)
    (batch_error : Option StateError) where
  settle_one-Free :
      (event : OutboxEvent) (error : Option PublishError) (rows : List Row) (e : OutboxEvent)
      → Free rows e
      → Free (settle_one config world batch_error event error rows).0 e
  unfolding settle_one
  settle_one-Free event none rows e f = f
  settle_one-Free event (some x) rows e f = mark_failed-Free config _ _ _ event x rows e f

  settle_one-frees :
      (event : OutboxEvent) (error : Option PublishError) (rows : List Row)
      → world.failed_reply event ≢ refused
      → (error ≡ none → Free rows event)
      → Free (settle_one config world batch_error event error rows).0 event
  unfolding settle_one
  settle_one-frees event none rows h f = f refl
  settle_one-frees event (some x) rows h f =
      mark_failed-clears config _ (world.failed_reply event) _ event x rows h

  settle-Free :
      (outcomes : List PublishOutcome) (rows : List Row) (e : OutboxEvent)
      → Free rows e
      → Free (settle config world batch_error outcomes rows).rows e
  unfolding settle
  settle-Free [] rows e f = f
  settle-Free (o ∷ rest) rows e f = settle-Free rest _ e (settle_one-Free o.event o.error rows e f)

  settle-frees :
      (outcomes : List PublishOutcome) (rows : List Row) (o : PublishOutcome)
      → ((p : PublishOutcome) → world.failed_reply p.event ≢ refused)
      → ((p : PublishOutcome) → In p outcomes → p.error ≡ none → Free rows p.event)
      → In o outcomes
      → Free (settle config world batch_error outcomes rows).rows o.event
  unfolding settle
  settle-frees [] rows o h f m = absurd m.1
  settle-frees (p ∷ rest) rows o h f (inl q) = settle-Free rest _ o.event (
      subst (λ z. Free (settle_one config world batch_error p.event p.error rows).0 z.event) q
        (settle_one-frees p.event p.error rows (h p) (f p (inl refl))))
  settle-frees (p ∷ rest) rows o h f (inr m) =
      settle-frees rest _ o h
        (λ z i e. settle_one-Free p.event p.error rows z.event (f z (inr i) e)) m

-- When no statement of the batch is refused, no event of it keeps its lease, in whatever order the
-- outcomes arrive and even where the result of a statement is lost; and each outcome has one label.
pub batch_leaves_no_lease :
    (config : OutboxWorkerConfig) (world : Surroundings) (outcomes : List PublishOutcome)
    (rows : List Row)
    → world.batch_reply ≢ refused
    → ((p : PublishOutcome) → world.failed_reply p.event ≢ refused)
    → let r = complete_delivery_batch config world outcomes rows in
      ((o : PublishOutcome)
        → In o outcomes
        → any (owns o.event.event_id o.event.lock_token) r.rows ≡ false)
      × (map (λ l. l.0) r.labels ≡ outcome_events outcomes)
unfolding complete_delivery_batch
batch_leaves_no_lease config world outcomes rows h k = (
  (λ o m.
      settle-frees config world _ outcomes _ o k
        (λ p i e.
          batch-frees world.batch_reply world.batch_now (successful outcomes) rows p.event h
            (successful-In outcomes p i e))
        m),
  settle-labels config world _ outcomes _,
)
