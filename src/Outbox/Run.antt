-- ===== src/Outbox/Run.antt =====
-- outbox.go: Run and continueAfterBatch. A turn is what one round of the loop meets.
pub mod Drained
use im_backend.Prelude.{ℕ, Bool, true, false, not, List, [], ◌∷◌, ◌==◌, if◌then◌else◌}
use im_backend.Outbox.Types.{Row, OutboxWorkerConfig, Reply}
use im_backend.Outbox.Claim.{claim_limit}
use im_backend.Outbox.Deliver.{Surroundings, Publisher, run_once}

-- `cancelled` and `cancelled_waiting` say whether the context is done after the batch, and before the
-- timer of the poll interval.
pub record Turn : Type 0 where
  pub token : ℕ → ℕ
  pub locked : ℕ → Bool
  pub reply : Reply
  pub now : ℕ
  pub world : Surroundings
  pub cancelled : Bool
  pub cancelled_waiting : Bool

unfoldable pub continue_after_batch : OutboxWorkerConfig → Turn → ℕ → Bool
continue_after_batch config turn processed =
    if turn.cancelled
    then false
    else if processed == claim_limit config
    then true
    else not turn.cancelled_waiting

-- The loop; behind the last turn the context is done. Errors are logged.
unfoldable pub run : OutboxWorkerConfig → Publisher → List Turn → List Row → List Row
unfolding continue_after_batch
run config publisher [] rows = rows
run config publisher (t ∷ turns) rows =
    let (processed, result) =
      run_once config t.token t.locked t.reply t.now t.world publisher rows in
    let rest = run config publisher turns result.rows in
    if continue_after_batch config t processed then rest else result.rows
