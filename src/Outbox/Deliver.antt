-- ===== src/Outbox/Deliver.antt =====
-- outbox.go: RunOnce, deliverBatch and completeDeliveryBatch. The publisher, what the contexts have
-- become when a goroutine starts, the order in which the outcomes arrive and the fate of each
-- statement are parameters.
pub mod Settled
pub mod Published
pub mod Round
use im_backend.Prelude.{
  ℕ, ◌++◌, Bool, List, [], ◌∷◌, map, Option, none, some, true, false, if◌then◌else◌, codes, length,
}
use im_backend.Message.{Text}
use im_backend.Outbox.Types.{
  Row, OutboxEvent, OutboxWorkerConfig, PublishError, failure, Reply, StateError, lease_lost,
  db_error,
}
use im_backend.Outbox.Claim.{claim}
use im_backend.Outbox.Mark.{gives_up, mark_published_batch, mark_failed}

pub record PublishOutcome : Type 0 where
  pub event : OutboxEvent
  pub error : Option PublishError

-- What PreparePublishBatch returns.
pub data Prepared : Type 0 where
  prepared : (OutboxEvent → Option PublishError) → Prepared
  prepared_nil : Prepared
  prepare_error : Text → Prepared

-- `prepare` is `none` for a publisher that is no outboxBatchPublishPreparer.
pub record Publisher : Type 0 where
  pub publish : OutboxEvent → Option PublishError
  pub prepare : Option (List OutboxEvent → Prepared)

pub record Surroundings : Type 0 where
  pub context_error : OutboxEvent → Option PublishError
  pub arrival : List PublishOutcome → List PublishOutcome
  pub batch_reply : Reply
  pub batch_now : ℕ
  pub failed_reply : OutboxEvent → Reply
  pub failed_now : OutboxEvent → ℕ
  pub jitter : OutboxEvent → ℕ → ℕ

-- The `result` label of the metric and of the log line.
pub data Label : Type 0 where
  published dead retry_scheduled lost_lease state_failed : Label

pub record BatchResult : Type 0 where
  pub rows : List Row
  pub labels : List (OutboxEvent × Label)
  pub errors : List StateError

abbrev pub relabel : Option StateError → Label → Label
relabel none l = l
relabel (some lease_lost) l = lost_lease
relabel (some db_error) l = state_failed

abbrev pub joined : Option StateError → List StateError → List StateError
joined none es = es
joined (some e) es = e ∷ es

-- The events whose outcome is no error.
pub successful : List PublishOutcome → List OutboxEvent
successful [] = []
successful (o ∷ rest) =
    let later = successful rest in elim o.error [ none ↦ o.event ∷ later | some e ↦ later ]

-- One round of the second loop of completeDeliveryBatch: the table after it, the label, and the
-- error of the round's own statement.
pub settle_one :
    OutboxWorkerConfig
    → Surroundings
    → Option StateError
    → OutboxEvent
    → Option PublishError
    → List Row
    → List Row × Label × Option StateError
settle_one config world batch_error event none rows = (rows, relabel batch_error published, none)
settle_one config world batch_error event (some e) rows =
    let (rows', state_error) =
      mark_failed config (world.jitter event) (world.failed_reply event) (world.failed_now event)
        event e rows in
    let result = if gives_up config event e then dead else retry_scheduled in
    (rows', relabel state_error result, state_error)

pub settle :
    OutboxWorkerConfig
    → Surroundings
    → Option StateError
    → List PublishOutcome
    → List Row
    → BatchResult
unfolding settle_one
settle config world batch_error [] rows = record { rows = rows; labels = []; errors = [] }
settle config world batch_error (o ∷ rest) rows =
    let (rows', label, error) = settle_one config world batch_error o.event o.error rows in
    let r = settle config world batch_error rest rows' in
    record { rows = r.rows; labels = (o.event, label) ∷ r.labels; errors = joined error r.errors }

pub complete_delivery_batch :
    OutboxWorkerConfig → Surroundings → List PublishOutcome → List Row → BatchResult
complete_delivery_batch config world outcomes rows =
    let (rows', batch_error) =
      mark_published_batch world.batch_reply world.batch_now (successful outcomes) rows in
    let r = settle config world batch_error outcomes rows' in
    record r { errors = joined batch_error r.errors }

-- One goroutine: the context is looked at before the publisher is called.
pub publish_one : Surroundings → (OutboxEvent → Option PublishError) → OutboxEvent → PublishOutcome
publish_one world publish e = record {
  event = e;
  error = elim (world.context_error e) [ some stopped ↦ some stopped | none ↦ publish e ];
}

abbrev pub fail_all : Text → List OutboxEvent → List PublishOutcome
fail_all text = map λ e. record { event = e; error = some (failure text false 0) }

pub outcomes_of : Surroundings → Publisher → List OutboxEvent → List PublishOutcome
unfolding publish_one
outcomes_of world publisher events = elim publisher.prepare [
  | none ↦ world.arrival (map (publish_one world publisher.publish) events)
  | some prepare ↦ elim (prepare events) [
    | prepared publish ↦ world.arrival (map (publish_one world publish) events)
    | prepared_nil ↦ fail_all (codes "prepared outbox publisher is nil") events
    | prepare_error text ↦ fail_all (codes "prepare outbox publisher batch: " ++ text) events
  ]
]

pub deliver_batch :
    OutboxWorkerConfig → Surroundings → Publisher → List OutboxEvent → List Row → BatchResult
deliver_batch config world publisher events rows =
    complete_delivery_batch config world (outcomes_of world publisher events) rows

-- A claim that fails, or that finds nothing, ends the run with the table as the claim left it.
pub deliver_claimed :
    OutboxWorkerConfig
    → Surroundings
    → Publisher
    → Option (List OutboxEvent)
    → List Row
    → ℕ × BatchResult
deliver_claimed config world publisher none rows =
    (0, record { rows = rows; labels = []; errors = db_error ∷ [] })
deliver_claimed config world publisher (some []) rows =
    (0, record { rows = rows; labels = []; errors = [] })
deliver_claimed config world publisher (some (e ∷ events)) rows =
    (length (e ∷ events), deliver_batch config world publisher (e ∷ events) rows)

pub run_once :
    OutboxWorkerConfig
    → (ℕ → ℕ)
    → (ℕ → Bool)
    → Reply
    → ℕ
    → Surroundings
    → Publisher
    → List Row
    → ℕ × BatchResult
unfolding deliver_claimed
run_once config token locked reply now world publisher rows =
    let (rows', events) = claim config token locked reply now rows in
    deliver_claimed config world publisher events rows'
