-- ===== src/Outbox/RunTests.antt =====
-- Two turns of a worker with one place, over two rows.
use im_backend.Prelude.{ℕ, ◌≡◌, refl, inl, false, [], ◌∷◌, none, arith, In}
use im_backend.Outbox.Types.{Row, served, is_none}
use im_backend.Outbox.Samples.{ready_row, numbered, nobody, half_up, one_place, later_row, ids}
use im_backend.Outbox.Claim.{claim_limit, is_due}
use im_backend.Outbox.Deliver.{Surroundings, Publisher}
use im_backend.Outbox.Deliver.Published.{plain-PublishesAll}
use im_backend.Outbox.Run.{Turn, run}
use im_backend.Outbox.Run.Drained.{IsQuiet, worker_drains}

abbrev calm : Surroundings
calm = record {
  context_error = λ e. none;
  arrival = λ os. os;
  batch_reply = served;
  batch_now = 300;
  failed_reply = λ e. served;
  failed_now = λ e. 300;
  jitter = λ e. half_up;
}

abbrev open_publisher : Publisher
open_publisher = record { publish = λ e. none; prepare = none }

abbrev turn : ℕ → Turn
turn n = record {
  token = numbered n;
  locked = nobody;
  reply = served;
  now = 200;
  world = calm;
  cancelled = false;
  cancelled_waiting = false;
}

turn-IsQuiet : (n : ℕ) → IsQuiet open_publisher 200 (turn n)
turn-IsQuiet n = record {
  alone = λ id. refl;
  claims = refl;
  marks = refl;
  publishes =
      plain-PublishesAll calm open_publisher refl (λ e. refl) (λ e. refl) (λ os o m. m)
        (λ os o m. m);
  goes_on = refl;
  waits = refl;
  since = omega arith;
}

worker_drains_example :
    (q : Row) × In q
      (run one_place open_publisher (turn 0 ∷ turn 1 ∷ []) (later_row ∷ ready_row ∷ []))
    × (q.event_id ≡ 6)
    × (is_none q.published_at ≡ false)
unfolding claim_limit is_due
worker_drains_example =
    worker_drains one_place open_publisher 200 (omega arith) (turn 0 ∷ turn 1 ∷ [])
      (later_row ∷ ready_row ∷ []) later_row ids (turn-IsQuiet 0, (turn-IsQuiet 1, tt))
      (omega arith) (inl refl) refl
