-- ===== src/Migrate/Apply.antt =====
-- internal/migrate/migrate.go: apply and what it runs. PostgreSQL is a parameter: what a statement makes of
-- the schema and the data, and what the queries see of them.
use im_backend.Prelude.{
  ok, err, ℕ, Bool, true, false, ◌&&◌, ◌||◌, not, List, [], ◌∷◌, Option, none, some, ◌==◌,
  if◌then◌else◌,
}
use im_backend.Message.{Text}
use im_backend.Outbox.Types.{Reply, served, refused, lost}
use im_backend.Migrate.{Migration, AppliedMigration, Answer, Library, no_verifier}
use im_backend.Migrate.Split.{split_sql_statements}
use im_backend.Migrate.History.{insert_row, row_of}

-- The schema and the data, without schema_migrations. A statement that fails gives none; as it is run
-- alone or in a transaction, it then leaves nothing.
pub record Postgres (World : Type 0) : Type 0 where
  pub exec : Text → World → Option World
  pub has_tables : World → Bool
  pub has_messages : World → Bool
  pub index_exists : World → Bool
  pub index_valid : World → Bool
  pub statistics_exist : World → Bool
  pub fingerprint : World → Text

pub record Database (World : Type 0) : Type 0 where
  pub history : Option (List AppliedMigration)
  pub world : World

-- Complete and partial, or no verifier for the version.
unfoldable pub non_transactional_state :
    {World : Type 0} → Postgres World → ℕ → World → Answer (Bool × Bool)
non_transactional_state pg version w =
    if version == 14
    then (let complete = pg.index_exists w && pg.index_valid w && pg.statistics_exist w in
        ok (complete, not complete && (pg.index_exists w || pg.statistics_exist w)))
    else err no_verifier

abbrev pub recorded : {World : Type 0} → List AppliedMigration → World → Database World
recorded rows w = record { history = some rows; world = w }

-- recordMigration, and the end of its transaction: refused, everything is as before.
unfoldable pub record_migration :
    {World : Type 0}
    → Reply
    → Migration
    → List AppliedMigration
    → World
    → World
    → List AppliedMigration × World × Bool
record_migration reply m rows before after = elim (insert_row (row_of m) rows) [
  | none ↦ (rows, before, false)
  | some added ↦ (elim reply [
    | served ↦ (added, after, true)
    | refused ↦ (rows, before, false)
    | lost ↦ (added, after, false)
  ])
]

-- The statements one by one; the first that fails ends it, and those before it stay.
unfoldable pub exec_statements :
    {World : Type 0} → Postgres World → List Text → World → World × Bool
exec_statements pg [] w = (w, true)
exec_statements pg (s ∷ rest) w = elim (pg.exec s w) [
  | none ↦ (w, false)
  | some after ↦ exec_statements pg rest after
]

-- After the statements: the row is written where the objects are complete.
unfoldable pub verified :
    {World : Type 0}
    → Reply
    → Migration
    → List AppliedMigration
    → World
    → Answer (Bool × Bool)
    → List AppliedMigration × World × Bool
unfolding record_migration
verified reply m rows w (err e) = (rows, w, false)
verified reply m rows w (ok (complete, partial)) =
    if not complete || partial then (rows, w, false) else record_migration reply m rows w w

unfoldable pub run_statements :
    {World : Type 0}
    → Postgres World
    → Reply
    → Migration
    → List AppliedMigration
    → World
    → Answer (List Text)
    → List AppliedMigration × World × Bool
unfolding exec_statements verified non_transactional_state
run_statements pg reply m rows w (err e) = (rows, w, false)
run_statements pg reply m rows w (ok statements) =
    let (after, done) = exec_statements pg statements w in
    if done
    then verified reply m rows after (non_transactional_state pg m.version after)
    else (rows, after, false)

-- A migration that was interrupted after its statements is only recorded.
unfoldable pub apply_alone :
    {World : Type 0}
    → Library
    → Postgres World
    → Reply
    → Migration
    → List AppliedMigration
    → World
    → Answer (Bool × Bool)
    → List AppliedMigration × World × Bool
unfolding run_statements split_sql_statements record_migration
apply_alone lib pg reply m rows w (err e) = (rows, w, false)
apply_alone lib pg reply m rows w (ok (complete, partial)) =
    if partial
    then (rows, w, false)
    else if complete
    then record_migration reply m rows w w
    else run_statements pg reply m rows w (split_sql_statements m.sql)

unfoldable pub apply_transaction :
    {World : Type 0}
    → Reply
    → Migration
    → List AppliedMigration
    → World
    → Option World
    → List AppliedMigration × World × Bool
unfolding record_migration
apply_transaction reply m rows w none = (rows, w, false)
apply_transaction reply m rows w (some after) = record_migration reply m rows w after

-- The rows, the schema and whether there was no error.
unfoldable pub apply :
    {World : Type 0}
    → Library
    → Postgres World
    → Reply
    → Migration
    → List AppliedMigration
    → World
    → List AppliedMigration × World × Bool
unfolding apply_transaction apply_alone
apply lib pg reply m rows w =
    if m.transactional
    then apply_transaction reply m rows w (pg.exec m.body w)
    else apply_alone lib pg reply m rows w (non_transactional_state pg m.version w)
