-- ===== src/Outbox/Lifecycle/Terminal.antt =====
-- Published and dead rows of outbox_events.
use im_backend.Prelude.{
  any, some-injective, ℕ, zero, suc, ◌≡◌, ap, subst, ◌⊎◌, inl, inr, true, false, not, List, [], ◌∷◌,
  arith, ◌==◌, Bool-cases, In, keep-In,
}
use im_backend.Outbox.Types.{Row, OutboxEvent, Reply, is_none}
use im_backend.Outbox.Claim.Sound.{UniqueIds}
use im_backend.Outbox.Mark.{claimed_by, mark_published, mark_published_batch, mark_failed, gives_up}
use im_backend.Outbox.Cleanup.{cleanup_published, doomed, named_in}
use im_backend.Outbox.Lifecycle.{
  Table, Step, claims, publishes, publishes_batch, fails, cleans, adds, Reach, here, next, is_open,
}
use im_backend.Outbox.Lifecycle.Refine.{owns-open, claimed_by-open}
use im_backend.Outbox.Lifecycle.Invariant.{IsSafe, Reach-IsSafe}
use im_backend.Outbox.Lifecycle.Untouched.{
  closed-not, exec_update-other, claim-other, named-published, named-gone,
}

-- A step leaves a finished row as it is, or the row was published and the table has no row of its
-- event any more.
abbrev Stays : Row → List Row → Type 0
Stays r rows =
    In r rows
    ⊎ ((is_none r.published_at ≡ false) × (any (λ s. s.event_id == r.event_id) rows ≡ false))

module _ (uuid : ℕ → ℕ → ℕ) where
  batch-other :
      (reply : Reply) (now : ℕ) (events : List OutboxEvent) (rows : List Row) (r : Row)
      → In r rows
      → is_open r ≡ false
      → In r (mark_published_batch reply now events rows).0
  unfolding mark_published_batch
  batch-other reply now [] rows r m closed = m
  batch-other reply now (e ∷ events) rows r m closed =
      exec_update-other (claimed_by (e ∷ events)) _ _ reply rows r m
        (closed-not _ (is_open r) (claimed_by-open (e ∷ events) r) closed)

  Step-Stays :
      {t u : Table} (r : Row)
      → Step uuid t u
      → UniqueIds t.rows
      → is_open r ≡ false
      → In r t.rows
      → Stays r u.rows
  unfolding mark_published mark_failed cleanup_published
  Step-Stays {t} r (claims config locked reply now) unique closed m =
      inl (claim-other config (uuid t.statements) locked reply now t.rows r unique m closed)
  Step-Stays {t} r (publishes reply now event) unique closed m = inl (
      exec_update-other _ _ 1 reply t.rows r m
        (closed-not _ (is_open r) (owns-open event.event_id event.lock_token r) closed))
  Step-Stays {t} r (publishes_batch reply now events) unique closed m =
      inl (batch-other reply now events t.rows r m closed)
  Step-Stays {t} r (fails config jitter reply now event error) unique closed m =
      let unowned = closed-not _ (is_open r) (owns-open event.event_id event.lock_token r) closed in
      inl (elim (Bool-cases (gives_up config event error)) [
        | inl e ↦ rw e (exec_update-other _ _ 1 reply t.rows r m unowned)
        | inr e ↦ rw e (exec_update-other _ _ 1 reply t.rows r m unowned)
      ])
  Step-Stays r (cleans older_than zero deleted rows h) unique closed m = cc
  Step-Stays {t} r (cleans older_than (suc k) deleted rows h) unique closed m =
      elim (Bool-cases (named_in (doomed older_than (suc k) t.rows) r)) [
        | inl e ↦ inr (
          named-published older_than (suc k) t.rows r unique m e,
          subst (λ z. any (λ s. s.event_id == r.event_id) z ≡ false)
              (ap (λ p. p.0) (some-injective _ _ h))
              (named-gone older_than (suc k) t.rows r unique m e),
        )
        | inr e ↦ inl (
            subst (In r) (ap (λ p. p.0) (some-injective _ _ h)) (
              keep-In (λ r. not (named_in (doomed older_than (suc k) t.rows) r)) t.rows r m (rw e)))
      ]
  Step-Stays r (adds s fresh o token until) unique closed m = inl (inr m)

  -- On the way from `t` to `u` the row stayed as it is up to a step that deleted it.
  pub record Deleted (r : Row) (t u : Table) : Type 0 where
    pub with_row : Table
    pub without_row : Table
    pub kept : Reach uuid t with_row
    pub row : In r with_row.rows
    pub step : Step uuid with_row without_row
    pub gone : any (λ s. s.event_id == r.event_id) without_row.rows ≡ false
    pub rest : Reach uuid without_row u

  Reach-Stays :
      {t u : Table} (r : Row)
      → IsSafe uuid t
      → is_open r ≡ false
      → In r t.rows
      → Reach uuid t u
      → In r u.rows ⊎ ((is_none r.published_at ≡ false) × Deleted r t u)
  Reach-Stays r s closed m here = inl m
  Reach-Stays r s closed m (next {t} {u} reach st) = elim (Reach-Stays r s closed m reach) [
    | inl i ↦ elim (Step-Stays r st (Reach-IsSafe uuid s reach).unique closed i) [
      | inl j ↦ inl j
      | inr (p, g) ↦ inr (
        p,
        record {
          with_row = t;
          without_row = u;
          kept = reach;
          row = i;
          step = st;
          gone = g;
          rest = here;
        },
      )
    ]
    | inr (p, d) ↦ inr (
      p,
      record {
        with_row = d.with_row;
        without_row = d.without_row;
        kept = d.kept;
        row = d.row;
        step = d.step;
        gone = d.gone;
        rest = next d.rest st;
      },
    )
  ]

  -- Published and dead are final: whatever workers, cleanups and additions run, a dead row stays in
  -- the table exactly as it is; a published row, which is not dead, stays in the table exactly as it
  -- is, or it stayed so up to a step that deleted it.
  pub finished_row_is_final :
      {t u : Table} (r : Row)
      → IsSafe uuid t
      → is_open r ≡ false
      → In r t.rows
      → Reach uuid t u
      → In r u.rows
        ⊎ ((is_none r.published_at ≡ false) × (is_none r.dead_at ≡ true) × Deleted r t u)
  finished_row_is_final r s closed m reach = elim (Reach-Stays r s closed m reach) [
    | inl i ↦ inl i
    | inr (p, d) ↦ inr (p, ground (arith, (s.sound r m).single), d)
  ]
