-- ===== src/Outbox/Lifecycle/Refine.antt =====
-- Every step of outbox.go's statements is, row by row, a move of a small state machine.
use im_backend.Prelude.{
  some-injective, ℕ, zero, suc, ◌≡◌, sym, ap, subst, ◌∙◌, ◌⊎◌, inl, inr, Bool, true, not, List, [],
  ◌∷◌, none, some, arith, if◌then◌else◌, Bool-cases, In, In-map, In-keep, any-In,
}
use im_backend.Outbox.Types.{
  Row, OutboxEvent, OutboxWorkerConfig, PublishError, Reply, served, refused, lost,
}
use im_backend.Outbox.Claim.{is_due, lease, lease_rows, candidates, chosen, claim}
use im_backend.Outbox.Claim.Sound.{UniqueIds, chosen_due}
use im_backend.Outbox.Mark.{
  owns, update_where, exec_update, set_published, mark_published, claimed_by, mark_published_batch,
  mark_failed, gives_up,
}
use im_backend.Outbox.Cleanup.{cleanup_published, named_in, doomed}
use im_backend.Outbox.Lifecycle.{
  Table, Step, claims, publishes, publishes_batch, fails, cleans, adds, Change, kept, leased,
  published, buried, put_back, is_open,
}

pub due-open :
    (config : OutboxWorkerConfig) (now : ℕ) (r : Row)
    → is_due config now r ≡ true
    → is_open r ≡ true
unfolding is_due
due-open config now r h = ground arith

pub owns-open : (id token : ℕ) (r : Row) → owns id token r ≡ true → is_open r ≡ true
unfolding owns
owns-open id token r h = ground arith

pub claimed_by-open :
    (events : List OutboxEvent) (r : Row) → claimed_by events r ≡ true → is_open r ≡ true
unfolding claimed_by
claimed_by-open events r h =
    let (e, m, o) = any-In (λ e. owns e.event_id e.lock_token r) events h in
    owns-open e.event_id e.lock_token r o

-- The rows of `xs` come, each by a change, from rows of `rows`.
abbrev pub Refines : (ℕ → ℕ → ℕ) → ℕ → List Row → List Row → Type 0
Refines uuid n rows xs = (r' : Row) → In r' xs → (r : Row) × In r rows × Change uuid n r r'

module _ (uuid : ℕ → ℕ → ℕ) (n : ℕ) where
  same_rows : (rows : List Row) → Refines uuid n rows rows
  same_rows rows r m = (r, m, kept)

  update_where-Refines :
      (test : Row → Bool) (change : Row → Row) (rows : List Row)
      → ((r : Row) → test r ≡ true → Change uuid n r (change r))
      → Refines uuid n rows (update_where test change rows)
  unfolding update_where
  update_where-Refines test change rows ok r' m =
      let (r, i, e) = In-map (λ r. if test r then change r else r) rows r' m in
      (r, i, subst (Change uuid n r) e (branch r))
    where
      branch : (r : Row) → Change uuid n r (if test r then change r else r)
      branch r = elim (Bool-cases (test r)) [ inl t ↦ rw t (ok r t) | inr t ↦ rw t kept ]

  exec_update-Refines :
      (test : Row → Bool) (change : Row → Row) (wanted : ℕ) (reply : Reply) (rows : List Row)
      → ((r : Row) → test r ≡ true → Change uuid n r (change r))
      → Refines uuid n rows (exec_update test change wanted reply rows).0
  unfolding exec_update
  exec_update-Refines test change wanted served rows ok = update_where-Refines test change rows ok
  exec_update-Refines test change wanted refused rows ok = same_rows rows
  exec_update-Refines test change wanted lost rows ok = update_where-Refines test change rows ok

  lease_rows-Refines :
      (config : OutboxWorkerConfig) (locked : ℕ → Bool) (now : ℕ) (rows : List Row)
      → UniqueIds rows
      → Refines uuid n rows
          (lease_rows config (uuid n) now (candidates config locked now rows) rows)
  unfolding lease_rows
  lease_rows-Refines config locked now rows unique r' m =
      let (r, i, e) =
        In-map (λ r. if picks r then lease config now (uuid n r.event_id) r else r) rows r' m in
      (r, i, subst (Change uuid n r) e (branch r i))
    where
      picks : Row → Bool
      picks r = chosen (candidates config locked now rows) r

      branch :
          (r : Row)
          → In r rows
          → Change uuid n r (if picks r then lease config now (uuid n r.event_id) r else r)
      branch r i = elim (Bool-cases (picks r)) [
        | inl t ↦ rw t (
            leased config now
              (due-open config now r (chosen_due config locked now rows r unique i t).0))
        | inr t ↦ rw t kept
      ]

  claim-Refines :
      (config : OutboxWorkerConfig) (locked : ℕ → Bool) (reply : Reply) (now : ℕ) (rows : List Row)
      → UniqueIds rows
      → Refines uuid n rows (claim config (uuid n) locked reply now rows).0
  unfolding claim
  claim-Refines config locked served now rows unique =
      lease_rows-Refines config locked now rows unique
  claim-Refines config locked refused now rows unique = same_rows rows
  claim-Refines config locked lost now rows unique =
      lease_rows-Refines config locked now rows unique

  mark_published-Refines :
      (reply : Reply) (now : ℕ) (event : OutboxEvent) (rows : List Row)
      → Refines uuid n rows (mark_published reply now event rows).0
  unfolding mark_published
  mark_published-Refines reply now event rows =
      exec_update-Refines (owns event.event_id event.lock_token) (set_published now) 1 reply rows
        λ r h. published now (owns-open event.event_id event.lock_token r h)

  mark_published_batch-Refines :
      (reply : Reply) (now : ℕ) (events : List OutboxEvent) (rows : List Row)
      → Refines uuid n rows (mark_published_batch reply now events rows).0
  unfolding mark_published_batch
  mark_published_batch-Refines reply now [] rows = same_rows rows
  mark_published_batch-Refines reply now (e ∷ events) rows =
      exec_update-Refines (claimed_by (e ∷ events)) (set_published now) _ reply rows
        λ r h. published now (claimed_by-open (e ∷ events) r h)

  mark_failed-Refines :
      (config : OutboxWorkerConfig) (jitter : ℕ → ℕ) (reply : Reply) (now : ℕ) (event : OutboxEvent)
      (error : PublishError) (rows : List Row)
      → Refines uuid n rows (mark_failed config jitter reply now event error rows).0
  unfolding mark_failed
  mark_failed-Refines config jitter reply now event error rows =
      elim (Bool-cases (gives_up config event error)) [
        | inl e ↦ rw e (
            exec_update-Refines (owns event.event_id event.lock_token) _ 1 reply rows
              λ r h. buried now _ (owns-open event.event_id event.lock_token r h))
        | inr e ↦ rw e (
            exec_update-Refines (owns event.event_id event.lock_token) _ 1 reply rows
              λ r h. put_back _ _ (owns-open event.event_id event.lock_token r h))
      ]

  cleanup-Refines :
      (older_than batch_size deleted : ℕ) (rows xs : List Row)
      → cleanup_published older_than batch_size rows ≡ some (xs, deleted)
      → Refines uuid n rows xs
  unfolding cleanup_published
  cleanup-Refines older_than zero deleted rows xs h = cc
  cleanup-Refines older_than (suc k) deleted rows xs h =
      subst (Refines uuid n rows) (ap (λ p. p.0) (some-injective _ _ h)) λ r m.
        (r, (In-keep (λ r. not (named_in (doomed older_than (suc k) rows) r)) rows r m).0, kept)

-- A row after a step was added by it, or comes by a change from a row before it.
pub Step-Refines :
    (uuid : ℕ → ℕ → ℕ) {t u : Table}
    → Step uuid t u
    → UniqueIds t.rows
    → (r' : Row) → In r' u.rows
    → ((is_open r' ≡ true) × (r'.lock_token ≡ none) × (r'.locked_until ≡ none))
      ⊎ ((r : Row) × In r t.rows × Change uuid t.statements r r')
Step-Refines uuid {t} (claims config locked reply now) unique r' m =
    inr (claim-Refines uuid t.statements config locked reply now t.rows unique r' m)
Step-Refines uuid {t} (publishes reply now event) unique r' m =
    inr (mark_published-Refines uuid t.statements reply now event t.rows r' m)
Step-Refines uuid {t} (publishes_batch reply now events) unique r' m =
    inr (mark_published_batch-Refines uuid t.statements reply now events t.rows r' m)
Step-Refines uuid {t} (fails config jitter reply now event error) unique r' m =
    inr (mark_failed-Refines uuid t.statements config jitter reply now event error t.rows r' m)
Step-Refines uuid {t} (cleans older_than batch_size deleted rows h) unique r' m =
    inr (cleanup-Refines uuid t.statements older_than batch_size deleted t.rows rows h r' m)
Step-Refines uuid (adds r fresh open_row token until) unique r' (inl e) = inl (
  subst (λ z. is_open z ≡ true) e open_row,
  ap (λ (z : Row). z.lock_token) (sym e) ∙ token,
  ap (λ (z : Row). z.locked_until) (sym e) ∙ until,
)
Step-Refines uuid (adds r fresh open_row token until) unique r' (inr m) = inr (r', m, kept)
