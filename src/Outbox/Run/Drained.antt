-- ===== src/Outbox/Run/Drained.antt =====
-- The loop of Run in outbox.go publishes what is due.
use im_backend.Prelude.{
  ℕ, suc, ◌≤◌, ◌≡◌, refl, sym, ap, subst, ◌∙◌, ◌⊎◌, inl, inr, Bool, true, false, ◌&&◌, List, [],
  ◌∷◌, map, arith, ◌==◌, if◌then◌else◌, Bool-cases, keep, length, All, In, In-any, keep-In, In-keep,
  map-In, ==_refl, DistinctBy-map, false≢true,
}
use im_backend.Outbox.Types.{Row, OutboxWorkerConfig, served, is_none}
use im_backend.Outbox.Claim.{claim_limit, candidates, chosen, is_due, is_available, lease}
use im_backend.Outbox.Claim.Sound.{UniqueIds, chosen_due}
use im_backend.Outbox.Claim.First.{picked-In, some-picked}
use im_backend.Outbox.Mark.{set_published}
use im_backend.Outbox.Deliver.{Publisher, run_once}
use im_backend.Outbox.Deliver.Published.{PublishesAll}
use im_backend.Outbox.Deliver.Round.{after_round, run_once-rows}
use im_backend.Outbox.Run.{Turn, continue_after_batch, run}

abbrev pub is_open : Row → Bool
is_open r = is_none r.published_at && is_none r.dead_at

-- A turn of a worker that is alone, from a time on: no statement fails, every event is published and
-- the context is not done.
pub record IsQuiet (publisher : Publisher) (start : ℕ) (t : Turn) : Type 0 where
  pub alone : (id : ℕ) → t.locked id ≡ false
  pub claims : t.reply ≡ served
  pub marks : t.world.batch_reply ≡ served
  pub publishes : PublishesAll t.world publisher
  pub goes_on : t.cancelled ≡ false
  pub waits : t.cancelled_waiting ≡ false
  pub since : start ≤ t.now

-- A change that closes some entries leaves fewer open.
module _ (p c : Row → Bool) (g : Row → Row)
    (closes : (r : Row) → p (g r) ≡ (if c r then false else p r)) where
  fewer : (rows : List Row) → length (keep p (map g rows)) ≤ length (keep p rows)
  fewer [] = omega arith
  fewer (r ∷ rows) = ground (arith, closes r, fewer rows)

  fewer-In :
      (rows : List Row) (r : Row)
      → In r rows
      → c r ≡ true
      → p r ≡ true
      → suc (length (keep p (map g rows))) ≤ length (keep p rows)
  fewer-In [] r m h k = absurd m.1
  fewer-In (q ∷ rows) r (inl e) h k = ground (arith, closes q, fewer rows, ap c e, ap p e)
  fewer-In (q ∷ rows) r (inr m) h k = ground (arith, closes q, fewer-In rows r m h k)

is_due-later :
    (config : OutboxWorkerConfig) (start now : ℕ) (r : Row)
    → start ≤ now
    → is_due config start r ≡ true
    → is_due config now r ≡ true
unfolding is_due
is_due-later config start now r le h = ground arith

is_due-is_open :
    (config : OutboxWorkerConfig) (now : ℕ) (r : Row)
    → is_due config now r ≡ true
    → is_open r ≡ true
unfolding is_due
is_due-is_open config now r h = ground arith

module _ (config : OutboxWorkerConfig) (publisher : Publisher) (start : ℕ)
    (room : 1 ≤ claim_limit config) where
  -- What the turn makes of a row.
  abbrev after : Turn → List Row → Row → Row
  after t rows = after_round config t.token t.locked t.now t.world.batch_now rows

  turn-rows :
      (t : Turn) (rows : List Row)
      → IsQuiet publisher start t
      → UniqueIds rows
      → (run_once config t.token t.locked t.reply t.now t.world publisher rows).1.rows
        ≡ map (after t rows) rows
  turn-rows t rows q unique =
      subst
        (λ y.
          (run_once config t.token t.locked y t.now t.world publisher rows).1.rows
          ≡ map (after t rows) rows)
        (sym q.claims)
        (run_once-rows config t.token t.locked t.now t.world publisher rows unique q.marks
          q.publishes)

  goes_on : (t : Turn) (n : ℕ) → IsQuiet publisher start t → continue_after_batch config t n ≡ true
  unfolding continue_after_batch
  goes_on t n q = ground (arith, q.goes_on, q.waits)

  run-step :
      (t : Turn) (turns : List Turn) (rows : List Row)
      → IsQuiet publisher start t
      → UniqueIds rows
      → run config publisher (t ∷ turns) rows ≡ run config publisher turns (map (after t rows) rows)
  unfolding run
  run-step t turns rows q unique =
      rw (goes_on t (run_once config t.token t.locked t.reply t.now t.world publisher rows).0 q)
        (ap (run config publisher turns) (turn-rows t rows q unique))

  after-event_id : (t : Turn) (rows : List Row) (r : Row) → (after t rows r).event_id ≡ r.event_id
  unfolding set_published lease
  after-event_id t rows r = elim (Bool-cases (chosen (candidates config t.locked t.now rows) r)) [
    | inl h ↦ rw h refl
    | inr h ↦ rw h refl
  ]

  after-UniqueIds :
      (t : Turn) (rows : List Row) → UniqueIds rows → UniqueIds (map (after t rows) rows)
  after-UniqueIds t rows =
      DistinctBy-map (λ r. r.event_id) (after t rows) rows (after-event_id t rows)

  after-is_open :
      (t : Turn) (rows : List Row) (r : Row)
      → is_open (after t rows r)
        ≡ (if chosen (candidates config t.locked t.now rows) r then false else is_open r)
  unfolding set_published lease
  after-is_open t rows r = elim (Bool-cases (chosen (candidates config t.locked t.now rows) r)) [
    | inl h ↦ rw h refl
    | inr h ↦ rw h refl
  ]

  -- A row that is published stays as it is.
  published_stays :
      (turns : List Turn) (rows : List Row) (r : Row)
      → All (IsQuiet publisher start) turns
      → UniqueIds rows
      → In r rows
      → is_open r ≡ false
      → In r (run config publisher turns rows)
  unfolding run
  published_stays [] rows r q unique m h = m
  published_stays (t ∷ turns) rows r q unique m h =
      subst (In r) (sym (run-step t turns rows q.0 unique)) (
        published_stays turns (map (after t rows) rows) r q.1 (after-UniqueIds t rows unique)
          (subst (λ z. In z (map (after t rows) rows)) (kept (Bool-cases (chosen picked r)))
            (map-In (after t rows) rows r m))
          h)
    where
      picked : List Row
      picked = candidates config t.locked t.now rows

      kept : (chosen picked r ≡ true) ⊎ (chosen picked r ≡ false) → after t rows r ≡ r
      kept (inr free) = rw free refl
      kept (inl taken) = absurd (
          false≢true (
            sym h
            ∙ is_due-is_open config t.now r
                (chosen_due config t.locked t.now rows r unique m taken).0))

  -- The event of the row is published.
  abbrev pub Published : List Row → Row → Type 0
  Published rows r =
      (q : Row) × In q rows × (q.event_id ≡ r.event_id) × (is_none q.published_at ≡ false)

  published-taken :
      (t : Turn) (rows : List Row) (r : Row)
      → chosen (candidates config t.locked t.now rows) r ≡ true
      → (is_none (after t rows r).published_at ≡ false) × (is_open (after t rows r) ≡ false)
  unfolding set_published lease
  published-taken t rows r h = rw h (refl, refl)

  -- Where a row is due, the turn closes an open one.
  fewer-after :
      (t : Turn) (rows : List Row) (r : Row)
      → IsQuiet publisher start t
      → UniqueIds rows
      → In r rows
      → is_due config start r ≡ true
      → suc (length (keep is_open (map (after t rows) rows))) ≤ length (keep is_open rows)
  unfolding is_available chosen
  fewer-after t rows r q unique m due =
      let (p, i) = some-picked config t.locked t.now rows unique r room (
        keep-In (is_available config t.locked t.now) rows r m
          (ground (arith, is_due-later config start t.now r q.since due, q.alone r.event_id))) in
      let (there, free) =
        In-keep (is_available config t.locked t.now) rows p
          (picked-In config t.locked t.now rows unique p i) in
      fewer-In is_open (chosen picked) (after t rows) (after-is_open t rows) rows p there
        (In-any (λ z. z.event_id == p.event_id) picked p i (==_refl p.event_id))
        (is_due-is_open config t.now p (ground (arith, free)))
    where
      picked : List Row
      picked = candidates config t.locked t.now rows

  -- A worker that is alone, for as many turns as there are rows neither published nor dead, publishes
  -- every event that is due at the start, if in those turns no statement fails, every publication
  -- succeeds and the context is not done. The batch and the concurrency have room for one event.
  pub worker_drains :
      (turns : List Turn) (rows : List Row) (r : Row)
      → UniqueIds rows
      → All (IsQuiet publisher start) turns
      → length (keep is_open rows) ≤ length turns
      → In r rows
      → is_due config start r ≡ true
      → Published (run config publisher turns rows) r
  worker_drains [] rows r unique q enough m due = absurd (
      none_open (keep is_open rows) enough
        (keep-In is_open rows r m (is_due-is_open config start r due)))
    where
      none_open : (xs : List Row) → length xs ≤ 0 → In r xs → ⊥
      none_open [] h i = i.1
      none_open (x ∷ xs) h i = omega arith
  worker_drains (t ∷ turns) rows r unique q enough m due =
      subst (λ l. Published l r) (sym (run-step t turns rows q.0 unique))
        (elim (Bool-cases (chosen (candidates config t.locked t.now rows) r)) [
          | inl taken ↦
              let (done, shut) = published-taken t rows r taken in
              (
                after t rows r,
                published_stays turns (map (after t rows) rows) (after t rows r) q.1
                    (after-UniqueIds t rows unique) (map-In (after t rows) rows r m) shut,
                after-event_id t rows r,
                done,
              )
          | inr left ↦
              worker_drains turns (map (after t rows) rows) r (after-UniqueIds t rows unique) q.1
                (omega (arith, enough, fewer-after t rows r q.0 unique m due))
                (subst (λ z. In z (map (after t rows) rows)) (rw left refl)
                  (map-In (after t rows) rows r m))
                due
        ])
