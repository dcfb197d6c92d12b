-- ===== src/Outbox/Tests.antt =====
-- The outbox of outbox.go at concrete rows.
use im_backend.Prelude.{◌≤◌, ◌≡◌, refl, ◌⊎◌, min, true, [], ◌∷◌, some, arith, length, In}
use im_backend.Outbox.Types.{Row, served}
use im_backend.Outbox.Samples.{
  defaults, ready_row, numbered, held_row, held_event, nobody, half_up, one_place, later_row, ids,
}
use im_backend.Outbox.Backoff.{retry_delay, equal_jitter, retry_delay_window}
use im_backend.Outbox.Claim.{
  claim, claim_limit, is_due, lease, candidates, chosen, is_available, before, lease_rows,
  claimed_event, claimed_events,
}
use im_backend.Outbox.Claim.First.{available, claim_takes_the_first}
use im_backend.Outbox.Mark.Leaves.{Leaves}

retry_delay_window_example :
    (2_000_000_000 ≤ retry_delay defaults (equal_jitter half_up) 3)
    × (retry_delay defaults (equal_jitter half_up) 3 ≤ 4_000_000_000)
retry_delay_window_example =
    retry_delay_window defaults 3 half_up (λ n h. omega arith) (omega arith) (omega arith)

claim_first :
    claim defaults (numbered 0) nobody served 200 (ready_row ∷ [])
    ≡ (held_row ∷ [], some (held_event ∷ []))
unfolding claim claim_limit is_due lease candidates chosen is_available before lease_rows
    claimed_event claimed_events
claim_first = refl

-- With one place, the row whose next attempt is due first.
claim_takes_the_first_example :
    (length (held_event ∷ []) ≡ min (min 1 16) 2)
    × ((a b : Row)
        → In a (available one_place nobody 200 (later_row ∷ ready_row ∷ []))
        → In b (available one_place nobody 200 (later_row ∷ ready_row ∷ []))
        → In (claimed_event 0 a) (held_event ∷ [])
        → In (claimed_event 0 b) (held_event ∷ []) ⊎ (before a b ≡ true))
unfolding claim claim_limit is_due candidates chosen is_available before claimed_event
    claimed_events
claim_takes_the_first_example =
    claim_takes_the_first one_place nobody 200 (later_row ∷ ready_row ∷ []) ids (numbered 0)
      (held_event ∷ []) refl
