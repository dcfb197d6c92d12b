-- ===== src/Outbox/Deliver/Round.antt =====
-- What a round of RunOnce in outbox.go does to the table where nothing fails.
use im_backend.Prelude.{
  ℕ, ◌≡◌, false≢true, refl, sym, ap, subst, ◌∙◌, inl, inr, Bool, true, false, List, [], ◌∷◌, map,
  arith, ◌==◌, if◌then◌else◌, Bool-cases, any, keep, In, In-any, any-In, keep-In, In-keep, map-In,
  In-map,
}
use im_backend.Outbox.Types.{Row, OutboxEvent, OutboxWorkerConfig, served}
use im_backend.Outbox.Claim.{
  claim, candidates, chosen, lease, lease_rows, claimed_event, claimed_events, is_due,
}
use im_backend.Outbox.Claim.Sound.{UniqueIds, chosen_due}
use im_backend.Outbox.Mark.{owns, update_where, set_published, claimed_by}
use im_backend.Outbox.Deliver.{Surroundings, Publisher, run_once}
use im_backend.Outbox.Deliver.Published.{PublishesAll, deliver_claimed-rows}

-- A row that the round takes is leased and then published; the others stay as they are.
abbrev pub after_round : OutboxWorkerConfig → (ℕ → ℕ) → (ℕ → Bool) → ℕ → ℕ → List Row → Row → Row
after_round config token locked now later rows r =
    if chosen (candidates config locked now rows) r
    then set_published later (lease config now (token r.event_id) r)
    else r

owns-event_id : (id token : ℕ) (r : Row) → owns id token r ≡ true → r.event_id ≡ id
unfolding owns
owns-event_id id token r h = ground arith

chosen-event_id :
    (picked : List Row) (q r : Row)
    → q.event_id ≡ r.event_id
    → chosen picked q ≡ true
    → chosen picked r ≡ true
unfolding chosen
chosen-event_id picked q r e h = subst (λ k. any (λ p. p.event_id == k) picked ≡ true) e h

module _ (config : OutboxWorkerConfig) (token : ℕ → ℕ) (locked : ℕ → Bool) (now later : ℕ)
    (rows : List Row) (unique : UniqueIds rows) (named : List OutboxEvent)
    (sub : (e : OutboxEvent)
      → In e named
      → In e (claimed_events token (candidates config locked now rows) rows))
    (sup : (e : OutboxEvent)
      → In e (claimed_events token (candidates config locked now rows) rows)
      → In e named) where
  abbrev picked : List Row
  picked = candidates config locked now rows

  abbrev leased : Row → Row
  leased r = if chosen picked r then lease config now (token r.event_id) r else r

  owns-lease :
      (r : Row)
      → is_due config now r ≡ true
      → owns r.event_id
          (claimed_event (token r.event_id) r).lock_token
          (lease config now (token r.event_id) r)
        ≡ true
  unfolding owns lease claimed_event is_due
  owns-lease r due = ground arith

  taken-claimed :
      (r : Row)
      → In r rows
      → chosen picked r ≡ true
      → claimed_by named (lease config now (token r.event_id) r) ≡ true
  unfolding claimed_by claimed_events claimed_event
  taken-claimed r i h =
      In-any (λ e. owns e.event_id e.lock_token (lease config now (token r.event_id) r)) named
        (claimed_event (token r.event_id) r)
        (sup _ (
          map-In (λ q. claimed_event (token q.event_id) q) (keep (chosen picked) rows) r
            (keep-In (chosen picked) rows r i h)))
        (owns-lease r (chosen_due config locked now rows r unique i h).0)

  left-unclaimed : (r : Row) → chosen picked r ≡ false → claimed_by named r ≡ false
  unfolding claimed_by claimed_events claimed_event
  left-unclaimed r h = elim (Bool-cases (claimed_by named r)) [
    | inr free ↦ free
    | inl held ↦
        let (e, m, own) = any-In (λ e. owns e.event_id e.lock_token r) named held in
        let (q, i, same) =
          In-map (λ q. claimed_event (token q.event_id) q) (keep (chosen picked) rows) e
            (sub e m) in
        let id : q.event_id ≡ r.event_id =
          ap (λ (v : OutboxEvent). v.event_id) same
          ∙ sym (owns-event_id e.event_id e.lock_token r own) in
        absurd
          (false≢true (sym h ∙ chosen-event_id picked q r id (In-keep (chosen picked) rows q i).1))
  ]

  leased-after_round :
      (r : Row)
      → In r rows
      → (if claimed_by named (leased r) then set_published later (leased r) else leased r)
        ≡ after_round config token locked now later rows r
  leased-after_round r i = elim (Bool-cases (chosen picked r)) [
    | inl h ↦ rw h (rw (taken-claimed r i h) refl)
    | inr h ↦ rw h (rw (left-unclaimed r h) refl)
  ]

update_where-map :
    (test : Row → Bool) (change first both : Row → Row) (rows : List Row)
    → ((r : Row) → In r rows → (if test (first r) then change (first r) else first r) ≡ both r)
    → update_where test change (map first rows) ≡ map both rows
unfolding update_where
update_where-map test change first both [] h = refl
update_where-map test change first both (r ∷ rows) h =
    λ i. h r (inl refl) i ∷ update_where-map test change first both rows (λ q m. h q (inr m)) i

-- A round of a worker whose statements run and whose publisher publishes everything.
pub run_once-rows :
    (config : OutboxWorkerConfig) (token : ℕ → ℕ) (locked : ℕ → Bool) (now : ℕ)
    (world : Surroundings) (publisher : Publisher) (rows : List Row)
    → UniqueIds rows
    → world.batch_reply ≡ served
    → PublishesAll world publisher
    → (run_once config token locked served now world publisher rows).1.rows
      ≡ map (after_round config token locked now world.batch_now rows) rows
unfolding run_once claim lease_rows
run_once-rows config token locked now world publisher rows unique reply publishes =
    let (named, e, sub, sup) =
      deliver_claimed-rows config world publisher reply publishes
        (claimed_events token (candidates config locked now rows) rows)
        (lease_rows config token now (candidates config locked now rows) rows) in
    e
    ∙ update_where-map (claimed_by named) (set_published world.batch_now) _ _ rows
        (leased-after_round config token locked now world.batch_now rows unique named sub sup)
