-- ===== src/Outbox/Lifecycle/Tokens.antt =====
-- A worker of outbox.go whose lease was taken over can never change the row again.
use im_backend.Prelude.{ℕ, ◌≢◌, some, In}
use im_backend.Outbox.Types.{Row}
use im_backend.Outbox.Lifecycle.{Table}

-- No row carries the token.
pub record IsStale (token : ℕ) (t : Table) : Type 0 where
  pub gone : (r : Row) → In r t.rows → r.lock_token ≢ some token
