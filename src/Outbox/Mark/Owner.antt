-- ===== src/Outbox/Mark/Owner.antt =====
-- What a mark of outbox.go does to the row of the worker that holds its lease.
use im_backend.Prelude.{Bool, List}
use im_backend.Outbox.Types.{Row, OutboxEvent}
use im_backend.Outbox.Claim.Sound.{UniqueIds}
use im_backend.Outbox.Mark.{owns}
use im_backend.Outbox.Mark.Leaves.{Leaves}

module _ (event : OutboxEvent) (rows : List Row) (unique : UniqueIds rows) where
  mine : Row → Bool
  mine = owns event.event_id event.lock_token
