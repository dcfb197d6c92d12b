-- ===== src/Messages/Service.antt =====
-- message_service.go: send. What other transactions commit before a statement runs, which
-- statements fail, and the fate of the commit are parameters.
use im_backend.Prelude.{
  ok, err, ℕ, Bool, true, false, ◌&&◌, Option, none, some, ltb, ◌==◌, if◌then◌else◌,
}
use im_backend.Message.{Message}
use im_backend.Outbox.Types.{Reply, served, refused, lost}
use im_backend.Messages.Command.{
  MessageServiceErrorCode, receiver_not_found, idempotency_conflict, unavailable, internal,
  SendMessageCommand, Answer, ValidCommand, check_command,
}
use im_backend.Messages.Database.{
  Database, DatabaseError, foreign_key_violation, unreachable, Sql, row, no_rows, failed,
}
use im_backend.Messages.Store.{
  text_eq, find_idempotent_message, find_direct, insert_conversation, insert_conversation_members,
  insert_message_and_outbox,
}

pub record SendMessageResult : Type 0 where
  pub message : Message
  pub created : Bool

-- The statements of `send`, in the order of the code.
pub data Stage : Type 0 where
  begin find select_conversation add_conversation select_again add_members add_message roll_back
        find_winner :
      Stage

pub record World : Type 0 where
  pub fails : Stage → Bool
  pub others : Stage → Database → Database
  pub commit : Reply

-- A transaction: what is committed, and what it sees.
pub record Transaction : Type 0 where
  pub committed : Database
  pub seen : Database

unfoldable pub others_commit : World → Stage → Transaction → Transaction
others_commit w stage tx = record {
  committed = w.others stage tx.committed;
  seen = w.others stage tx.seen;
}

-- One statement: others commit, then it fails and changes nothing, or it runs.
unfoldable pub run_statement {ℓ} :
    {A : Type ℓ} → World → Stage → (Database → Sql A × Database) → Transaction → Sql A × Transaction
unfolding others_commit
run_statement w stage query tx =
    let t = others_commit w stage tx in
    if w.fails stage
    then (failed unreachable, t)
    else let (result, db) = query t.seen in (result, record t { seen = db })

abbrev pub to_sql {ℓ} : {A : Type ℓ} → Option A → Sql A
to_sql none = no_rows
to_sql (some a) = row a

abbrev pub reading {ℓ} : {A : Type ℓ} → (Database → Option A) → Database → Sql A × Database
reading f db = (to_sql (f db), db)

unfoldable pub same_message_request : Message → ValidCommand → Bool
same_message_request m c = (m.receiver_id == c.receiver) && text_eq m.content c.text

unfoldable pub existing_result : Message → ValidCommand → Answer SendMessageResult
unfolding same_message_request
existing_result m c =
    if same_message_request m c
    then ok (record { message = m; created = false })
    else err idempotency_conflict

unfoldable pub classify_message_store_error : DatabaseError → MessageServiceErrorCode
classify_message_store_error foreign_key_violation = receiver_not_found
classify_message_store_error _ = internal

abbrev pub low_user : ValidCommand → ℕ
low_user c = if ltb c.receiver c.sender then c.receiver else c.sender

abbrev pub high_user : ValidCommand → ℕ
high_user c = if ltb c.receiver c.sender then c.sender else c.receiver

-- What `send` returns, and the committed database when it returns.
abbrev pub Sent : Type 0
Sent = Database × Answer SendMessageResult

unfoldable pub commit_created : World → Message → Transaction → Sent
commit_created w m tx = elim w.commit [
  | served ↦ (tx.seen, ok (record { message = m; created = true }))
  | refused ↦ (tx.committed, err internal)
  | lost ↦ (tx.seen, err internal)
]

unfoldable pub winner_result : ValidCommand → Sql Message → Answer SendMessageResult
winner_result c (row m) = existing_result m c
winner_result c no_rows = err internal
winner_result c (failed _) = err internal

-- A concurrent request holds the key: roll back, and read what it has committed.
unfoldable pub answer_with_winner : World → ValidCommand → Transaction → Sent
unfolding winner_result
answer_with_winner w c tx =
    let db = w.others roll_back tx.committed in
    if w.fails roll_back
    then (db, err internal)
    else let (found, t) =
        run_statement w find_winner (reading (find_idempotent_message c.sender c.client_id))
          (record { committed = db; seen = db }) in
      (t.committed, winner_result c found)

unfoldable pub after_insert : World → ValidCommand → Sql Message → Transaction → Sent
after_insert w c (row m) tx = commit_created w m tx
after_insert w c no_rows tx = answer_with_winner w c tx
after_insert w c (failed e) tx = (tx.committed, err internal)

unfoldable pub insert_stage : World → ValidCommand → ℕ → Transaction → Sent
insert_stage w c conversation tx =
    let (result, t) =
      run_statement w add_message
        (insert_message_and_outbox conversation c.sender c.receiver c.client_id c.text) tx in
    after_insert w c result t

unfoldable pub after_members : World → ValidCommand → ℕ → Sql (Unit {0}) → Transaction → Sent
after_members w c conversation (failed e) tx = (tx.committed, err (classify_message_store_error e))
after_members w c conversation (row _) tx = insert_stage w c conversation tx
after_members w c conversation no_rows tx = insert_stage w c conversation tx

-- A conversation that this transaction created gets its members first.
unfoldable pub after_resolve : World → ValidCommand → Sql (ℕ × Bool) → Transaction → Sent
after_resolve w c (failed e) tx = (tx.committed, err (classify_message_store_error e))
after_resolve w c no_rows tx = (tx.committed, err internal)
after_resolve w c (row (conversation, false)) tx = insert_stage w c conversation tx
after_resolve w c (row (conversation, true)) tx =
    let (result, t) =
      run_statement w add_members (insert_conversation_members conversation c.sender c.receiver)
        tx in
    after_members w c conversation result t

abbrev pub direct_id : ℕ → ℕ → Database → Option ℕ
direct_id low high db = elim (find_direct low high db) [ none ↦ none | some c ↦ some c.id ]

abbrev pub tagged : Bool → Sql ℕ → Sql (ℕ × Bool)
tagged created (row id) = row (id, created)
tagged created no_rows = no_rows
tagged created (failed e) = failed e

-- A concurrent transaction created the conversation: read its id.
unfoldable pub resolve_again : World → ℕ → ℕ → Sql ℕ → Transaction → Sql (ℕ × Bool) × Transaction
resolve_again w low high (row id) tx = (row (id, true), tx)
resolve_again w low high (failed e) tx = (failed e, tx)
resolve_again w low high no_rows tx =
    let (result, t) = run_statement w select_again (reading (direct_id low high)) tx in
    (tagged false result, t)

unfoldable pub resolve_new : World → ℕ → ℕ → Sql ℕ → Transaction → Sql (ℕ × Bool) × Transaction
unfolding resolve_again
resolve_new w low high (row id) tx = (row (id, false), tx)
resolve_new w low high (failed e) tx = (failed e, tx)
resolve_new w low high no_rows tx =
    let (result, t) = run_statement w add_conversation (insert_conversation low high) tx in
    resolve_again w low high result t

-- The read-only fast path, then the insert, then the read of a concurrent insert.
unfoldable pub resolve_direct_conversation :
    World → ℕ → ℕ → Transaction → Sql (ℕ × Bool) × Transaction
unfolding resolve_new
resolve_direct_conversation w low high tx =
    let (result, t) = run_statement w select_conversation (reading (direct_id low high)) tx in
    resolve_new w low high result t

unfoldable pub after_find : World → ValidCommand → Sql Message → Transaction → Sent
after_find w c (failed e) tx = (tx.committed, err internal)
after_find w c (row m) tx = (tx.committed, existing_result m c)
after_find w c no_rows tx =
    let (result, t) = resolve_direct_conversation w (low_user c) (high_user c) tx in
    after_resolve w c result t

unfoldable pub send_valid : World → Database → ValidCommand → Sent
send_valid w db c =
    let start = w.others begin db in
    if w.fails begin
    then (start, err unavailable)
    else let (result, t) =
        run_statement w find (reading (find_idempotent_message c.sender c.client_id))
          (record { committed = start; seen = start }) in
      after_find w c result t

unfoldable pub send_checked : World → Database → Answer ValidCommand → Sent
unfolding send_valid
send_checked w db (err e) = (db, err e)
send_checked w db (ok c) = send_valid w db c

unfoldable pub send : World → Database → SendMessageCommand → Sent
unfolding send_checked check_command
send w db command = send_checked w db (check_command command)
