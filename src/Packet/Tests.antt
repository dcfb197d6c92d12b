-- ===== src/Packet/Tests.antt =====
-- Runs of the packets, and the theorems at them.
use im_backend.Prelude.{◌∷◌, ok, ◌≤◌, ◌≡◌, refl, List, [], ◌++◌, codes, length, All, arith}
use im_backend.Outbox.Types.{served, lost}
use im_backend.Messages.Store.{text_eq}
use im_backend.Packet.{
  Slot, Tables, create, new_slots, slot_amount, committed, is_credit, is_free, lowest_free,
  credited, take_slot, claim_slot, claim_receipt, claim, deliver,
}
use im_backend.Packet.Allocation.{sum_amounts, IsFair, create_allocates_total}
use im_backend.Packet.Holds.{Call, creates, claims, delivers, after_calls, credits_of}
use im_backend.Packet.Claims.{lost_claim_is_retried}
use im_backend.Packet.Delivery.{times_received, deliver_at_most_once}

abbrev empty_tables : Tables
empty_tables = record { packets = []; slots = []; credits = []; outbox = []; received = [] }

create_allocates_total_example :
    (slots : List Slot) × ((create served (codes "p") 10 3 empty_tables).0.slots ≡ slots ++ [])
    × (length slots ≡ 3)
    × (sum_amounts slots ≡ 10)
    × All (IsFair 10 3) slots
unfolding create committed
create_allocates_total_example = create_allocates_total (codes "p") 10 3 empty_tables refl

abbrev with_packet : Tables
unfolding create committed new_slots slot_amount
with_packet = (create served (codes "p") 10 3 empty_tables).0

abbrev meanwhile : List Call
meanwhile =
    claims lost (codes "p") (codes "v")
    ∷ delivers served lost (codes "p") (codes "u")
    ∷ creates served (codes "q") 5 1
    ∷ []

lost_claim_is_retried_example :
    let u = after_calls meanwhile (claim lost (codes "p") (codes "u") with_packet).0 in
    (claim served (codes "p") (codes "u") u ≡ (u, ok (record { slot = 0; amount = 4 })))
    × (0 ≤ 1 → credits_of (codes "p") (codes "u") u ≡ 1)
unfolding with_packet create committed new_slots slot_amount claim claim_receipt claim_slot credited
    take_slot is_credit lowest_free is_free text_eq
lost_claim_is_retried_example =
    lost_claim_is_retried (codes "p") (codes "u") with_packet (record { slot = 0; amount = 4 })
      meanwhile refl

abbrev with_claim : Tables
with_claim = (claim served (codes "p") (codes "u") with_packet).0

deliver_at_most_once_example :
    times_received
      (codes "p")
      (codes "u")
      (deliver served lost (codes "p") (codes "u") with_claim).0
    ≤ 1
unfolding with_packet create committed new_slots slot_amount claim claim_receipt claim_slot credited
    take_slot is_credit lowest_free is_free text_eq
deliver_at_most_once_example =
    deliver_at_most_once served lost (codes "p") (codes "u") (codes "p") (codes "u") with_claim
      (omega arith)
