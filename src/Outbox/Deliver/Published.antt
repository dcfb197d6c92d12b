-- ===== src/Outbox/Deliver/Published.antt =====
-- What the delivery of a batch in outbox.go leaves in the table where every event is published, and a
-- publisher that publishes every event.
use im_backend.Prelude.{
  ℕ, ◌≡◌, refl, sym, ap, subst, ◌∙◌, ◌⊎◌, inl, inr, Option-cases, List, [], ◌∷◌, map, Option, none,
  some, In, map-In, In-map,
}
use im_backend.Outbox.Types.{Row, OutboxEvent, OutboxWorkerConfig, StateError, served}
use im_backend.Outbox.Mark.{
  update_where, exec_update, set_published, claimed_by, mark_published_batch,
}
use im_backend.Outbox.Deliver.Settled.{successful-In}
use im_backend.Outbox.Deliver.{
  PublishOutcome, Surroundings, Publisher, successful, settle, settle_one, complete_delivery_batch,
  outcomes_of, deliver_batch, deliver_claimed, publish_one,
}

-- Every event of a batch is published, in whatever order the outcomes arrive.
pub record PublishesAll (world : Surroundings) (publisher : Publisher) : Type 0 where
  pub succeeds :
      (events : List OutboxEvent) (o : PublishOutcome)
      → In o (outcomes_of world publisher events)
      → (o.error ≡ none) × In o.event events
  pub arrives :
      (events : List OutboxEvent) (e : OutboxEvent)
      → In e events
      → (o : PublishOutcome) × In o (outcomes_of world publisher events) × (o.event ≡ e)

settle-none :
    (config : OutboxWorkerConfig) (world : Surroundings) (batch_error : Option StateError)
    (outcomes : List PublishOutcome) (rows : List Row)
    → ((o : PublishOutcome) → In o outcomes → o.error ≡ none)
    → (settle config world batch_error outcomes rows).rows ≡ rows
unfolding settle settle_one
settle-none config world batch_error [] rows h = refl
settle-none config world batch_error (o ∷ rest) rows h =
    rw (h o (inl refl), settle_one)
      (settle-none config world batch_error rest rows (λ p m. h p (inr m)))

In-successful :
    (outcomes : List PublishOutcome) (e : OutboxEvent)
    → In e (successful outcomes)
    → (o : PublishOutcome) × In o outcomes × (o.event ≡ e)
unfolding successful
In-successful [] e m = absurd m.1
In-successful (o ∷ rest) e m = elim (Option-cases o.error) [
  | inl none_there ↦ first (In-successful rest e) (rw (none_there, successful) at m)
  | inr (x, some_there) ↦
      let (p, i, q) = In-successful rest e (rw (some_there, successful) at m) in (p, inr i, q)
]
  where
    first :
        (In e (successful rest) → (p : PublishOutcome) × In p rest × (p.event ≡ e))
        → (o.event ≡ e) ⊎ In e (successful rest)
        → (p : PublishOutcome) × ((o ≡ p) ⊎ In p rest) × (p.event ≡ e)
    first ih (inl q) = (o, inl refl, q)
    first ih (inr k) = let (p, i, q) = ih k in (p, inr i, q)

update_where-none :
    (now : ℕ) (rows : List Row) → update_where (claimed_by []) (set_published now) rows ≡ rows
unfolding update_where claimed_by
update_where-none now [] = refl
update_where-none now (r ∷ rows) = ap (◌∷◌ r) (update_where-none now rows)

module _ (config : OutboxWorkerConfig) (world : Surroundings) (publisher : Publisher)
    (reply : world.batch_reply ≡ served) (publishes : PublishesAll world publisher) where
  mark-rows :
      (events : List OutboxEvent) (rows : List Row)
      → (mark_published_batch world.batch_reply world.batch_now events rows).0
        ≡ update_where (claimed_by events) (set_published world.batch_now) rows
  unfolding mark_published_batch exec_update
  mark-rows [] rows = sym (update_where-none world.batch_now rows)
  mark-rows (e ∷ events) rows = rw (reply, exec_update) refl

  -- The rows that a batch leaves: those of the events are published.
  pub deliver_claimed-rows :
      (events : List OutboxEvent) (rows : List Row)
      → (named : List OutboxEvent) × ((deliver_claimed config world publisher
            (some events)
            rows).1.rows
          ≡ update_where (claimed_by named) (set_published world.batch_now) rows)
        × ((e : OutboxEvent) → In e named → In e events)
        × ((e : OutboxEvent) → In e events → In e named)
  unfolding deliver_claimed deliver_batch complete_delivery_batch
  deliver_claimed-rows [] rows =
      ([], sym (update_where-none world.batch_now rows), (λ e m. m), λ e m. m)
  deliver_claimed-rows (d ∷ events) rows = (
    successful outcomes,
    settle-none config world _ outcomes _ (λ o m. (publishes.succeeds (d ∷ events) o m).0)
        ∙ mark-rows (successful outcomes) rows,
    λ e m.
        let (o, i, q) = In-successful outcomes e m in
        subst (λ z. In z (d ∷ events)) q (publishes.succeeds (d ∷ events) o i).1,
    λ e m.
        let (o, i, q) = publishes.arrives (d ∷ events) e m in
        subst (λ z. In z (successful outcomes)) q
          (successful-In outcomes o i (publishes.succeeds (d ∷ events) o i).0),
  )
    where
      outcomes : List PublishOutcome
      outcomes = outcomes_of world publisher (d ∷ events)

-- A publisher that prepares nothing and publishes every event, while the context is not done and the
-- outcomes arrive in any order.
module _ (world : Surroundings) (publisher : Publisher) (plain : publisher.prepare ≡ none)
    (publishes : (e : OutboxEvent) → publisher.publish e ≡ none)
    (running : (e : OutboxEvent) → world.context_error e ≡ none)
    (from : (os : List PublishOutcome) (o : PublishOutcome) → In o (world.arrival os) → In o os)
    (to : (os : List PublishOutcome) (o : PublishOutcome) → In o os → In o (world.arrival os)) where
  outcome : OutboxEvent → PublishOutcome
  outcome = publish_one world publisher.publish

  outcome-succeeds : (e : OutboxEvent) → (outcome e).error ≡ none
  unfolding outcome publish_one
  outcome-succeeds e = rw (running e) (publishes e)

  outcome-event : (e : OutboxEvent) → (outcome e).event ≡ e
  unfolding outcome publish_one
  outcome-event e = refl

  outcomes_of-plain :
      (events : List OutboxEvent)
      → outcomes_of world publisher events ≡ world.arrival (map outcome events)
  unfolding outcomes_of outcome
  outcomes_of-plain events = rw plain refl

  pub plain-PublishesAll : PublishesAll world publisher
  plain-PublishesAll = record {
    succeeds = λ events o m.
        let (e, i, same) =
          In-map outcome events o
            (from (map outcome events) o (subst (In o) (outcomes_of-plain events) m)) in
        (
          subst (λ z. z.error ≡ none) same (outcome-succeeds e),
          subst (λ z. In z.event events) same (subst (λ z. In z events) (sym (outcome-event e)) i),
        );
    arrives = λ events e m. (
      outcome e,
      subst (In (outcome e)) (sym (outcomes_of-plain events))
          (to (map outcome events) (outcome e) (map-In outcome events e m)),
      outcome-event e,
    );
  }
