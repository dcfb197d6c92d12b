-- ===== src/Outbox/Lifecycle.antt =====
-- outbox.go: the table outbox_events under any number of workers. One step is one statement of one
-- worker, of cleanupPublished or of the transaction that adds an event. The statements are numbered,
-- and a claim draws its tokens from its own number.
pub mod Refine
pub mod Invariant
pub mod Tokens
pub mod Untouched
pub mod Terminal
use im_backend.Prelude.{
  ℕ, suc, ◌≡◌, Bool, true, false, ◌&&◌, List, ◌++◌, [], ◌∷◌, Option, none, some, any, ◌==◌,
}
use im_backend.Outbox.Types.{Row, OutboxEvent, OutboxWorkerConfig, PublishError, Reply, is_none}
use im_backend.Outbox.Claim.{claim, lease}
use im_backend.Outbox.Mark.{
  mark_published, mark_published_batch, mark_failed, set_published, set_dead, set_retry,
}
use im_backend.Outbox.Cleanup.{cleanup_published}

pub record Table : Type 0 where
  pub rows : List Row
  pub statements : ℕ

-- published_at IS NULL AND dead_at IS NULL
abbrev pub is_open : Row → Bool
is_open r = is_none r.published_at && is_none r.dead_at

pub data Step (uuid : ℕ → ℕ → ℕ) : Table → Table → Type 0 where
  claims :
      {t : Table} (config : OutboxWorkerConfig) (locked : ℕ → Bool) (reply : Reply) (now : ℕ)
      → Step uuid t (record {
        rows = (claim config (uuid t.statements) locked reply now t.rows).0;
        statements = suc t.statements;
      })
  publishes :
      {t : Table} (reply : Reply) (now : ℕ) (event : OutboxEvent)
      → Step uuid t (record {
        rows = (mark_published reply now event t.rows).0;
        statements = suc t.statements;
      })
  publishes_batch :
      {t : Table} (reply : Reply) (now : ℕ) (events : List OutboxEvent)
      → Step uuid t (record {
        rows = (mark_published_batch reply now events t.rows).0;
        statements = suc t.statements;
      })
  fails :
      {t : Table} (config : OutboxWorkerConfig) (jitter : ℕ → ℕ) (reply : Reply) (now : ℕ)
      (event : OutboxEvent) (error : PublishError)
      → Step uuid t (record {
        rows = (mark_failed config jitter reply now event error t.rows).0;
        statements = suc t.statements;
      })
  cleans :
      {t : Table} (older_than batch_size deleted : ℕ) (rows : List Row)
      → cleanup_published older_than batch_size t.rows ≡ some (rows, deleted)
      → Step uuid t (record { rows = rows; statements = suc t.statements })
  adds :
      {t : Table} (r : Row)
      → any (λ s. s.event_id == r.event_id) t.rows ≡ false
      → is_open r ≡ true
      → r.lock_token ≡ none
      → r.locked_until ≡ none
      → Step uuid t (record { rows = r ∷ t.rows; statements = suc t.statements })

pub data Reach (uuid : ℕ → ℕ → ℕ) (s : Table) : Table → Type 0 where
  here : Reach uuid s s
  next : {t u : Table} → Reach uuid s t → Step uuid t u → Reach uuid s u

-- What one step may make of one row: it stays, or an open row is leased by the statement `n`, or an
-- open row is published, buried or put back.
pub data Change (uuid : ℕ → ℕ → ℕ) (n : ℕ) (r : Row) : Row → Type 0 where
  kept : Change uuid n r r
  leased :
      (config : OutboxWorkerConfig) (now : ℕ)
      → is_open r ≡ true
      → Change uuid n r (lease config now (uuid n r.event_id) r)
  published : (now : ℕ) → is_open r ≡ true → Change uuid n r (set_published now r)
  buried : (now : ℕ) (text : List ℕ) → is_open r ≡ true → Change uuid n r (set_dead now text r)
  put_back : (at : ℕ) (text : List ℕ) → is_open r ≡ true → Change uuid n r (set_retry at text r)
