-- ===== src/Outbox/TableTests.antt =====
-- The table of outbox.go under several statements, at concrete rows.
use im_backend.Prelude.{◌≡◌, refl, ◌⊎◌, inl, true, false, [], ◌∷◌, none, some, In, All-In, any, map}
use im_backend.Outbox.Types.{Row, plain, served, lost, is_none}
use im_backend.Outbox.Samples.{defaults, ready_row, numbered, held_row, held_event, nobody}
use im_backend.Outbox.Claim.{claim}
use im_backend.Outbox.Mark.{owns}
use im_backend.Outbox.Deliver.{Surroundings, PublishOutcome, complete_delivery_batch}
use im_backend.Outbox.Deliver.Settled.{batch_leaves_no_lease, outcome_events}
use im_backend.Outbox.Lifecycle.{Table, claims, here, next}
use im_backend.Outbox.Lifecycle.Invariant.{IsSound, IsSafe, new-IsSound, Step-IsSafe}
use im_backend.Outbox.Lifecycle.Terminal.{Deleted, finished_row_is_final}

abbrev one_row : Table
one_row = record { rows = ready_row ∷ []; statements = 0 }

one_row-IsSafe : IsSafe numbered one_row
one_row-IsSafe = record {
  unique = (refl, tt);
  sound = λ r m.
      All-In (IsSound numbered 0) (ready_row ∷ [])
        (new-IsSound numbered 0 ready_row refl refl refl, tt) m;
}

Step-IsSafe_example : IsSafe numbered (record {
  rows = (claim defaults (numbered 0) nobody lost 200 (ready_row ∷ [])).0;
  statements = 1;
})
Step-IsSafe_example =
    Step-IsSafe numbered {t = one_row} (claims defaults nobody lost 200) one_row-IsSafe

-- The row is leased by the statement 4, and an event of the statement 1 is still about.
abbrev taken_over : Row
taken_over = record held_row { lock_token = some 4 }

abbrev later_table : Table
later_table = record { rows = taken_over ∷ []; statements = 5 }

abbrev sent_row : Row
sent_row = record ready_row { published_at = some 250; attempt_count = 1 }

abbrev sent_table : Table
sent_table = record { rows = sent_row ∷ []; statements = 2 }

sent_table-IsSafe : IsSafe numbered sent_table
sent_table-IsSafe = record {
  unique = (refl, tt);
  sound = λ r m. All-In (IsSound numbered 2) (sent_row ∷ []) (sent_row-IsSound, tt) m;
}
  where
    sent_row-IsSound : IsSound numbered 2 sent_row
    sent_row-IsSound = record {
      paired = refl;
      single = refl;
      released = λ closed. refl;
      issued = λ t e. absurd (cc);
    }

finished_row_is_final_example :
    In sent_row (claim defaults (numbered 2) nobody served 400 (sent_row ∷ [])).0
    ⊎ ((is_none sent_row.published_at ≡ false)
        × (is_none sent_row.dead_at ≡ true)
        × Deleted numbered sent_row sent_table (record {
          rows = (claim defaults (numbered 2) nobody served 400 (sent_row ∷ [])).0;
          statements = 3;
        }))
finished_row_is_final_example =
    finished_row_is_final numbered {t = sent_table} sent_row sent_table-IsSafe refl (inl refl)
      (next here (claims defaults nobody served 400))

calm : Surroundings
calm = record {
  context_error = λ e. none;
  arrival = λ os. os;
  batch_reply = served;
  batch_now = 300;
  failed_reply = λ e. lost;
  failed_now = λ e. 300;
  jitter = λ e d. d;
}

abbrev failed_outcome : PublishOutcome
failed_outcome = record { event = held_event; error = some (plain []) }

batch_leaves_no_lease_example :
    let r = complete_delivery_batch defaults calm (failed_outcome ∷ []) (held_row ∷ []) in
    ((o : PublishOutcome)
      → In o (failed_outcome ∷ [])
      → any (owns o.event.event_id o.event.lock_token) r.rows ≡ false)
    × (map (λ l. l.0) r.labels ≡ outcome_events (failed_outcome ∷ []))
unfolding calm
batch_leaves_no_lease_example =
    batch_leaves_no_lease defaults calm (failed_outcome ∷ []) (held_row ∷ []) (λ e. cc) (λ p e. cc)
