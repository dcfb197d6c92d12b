-- ===== src/Migrate/Baseline.antt =====
-- internal/migrate/migrate.go: Baseline.
use im_backend.Prelude.{
  ok, err, ℕ, not, List, [], ◌∷◌, Option, none, some, ltb, ◌==◌, if◌then◌else◌, length, take,
}
use im_backend.Message.{Text}
use im_backend.Messages.Store.{text_eq}
use im_backend.Outbox.Types.{Reply, served, refused, lost}
use im_backend.Migrate.{
  Migration, AppliedMigration, Answer, statement_failed, baseline_mismatch, history_exists,
  unsupported_baseline, no_tables,
}
use im_backend.Migrate.History.{insert_row, row_of}
use im_backend.Migrate.Apply.{Postgres, Database, recorded}

-- The rows of the first migrations, none where one of them is there already.
unfoldable pub record_all : List Migration → List AppliedMigration → Option (List AppliedMigration)
unfolding insert_row
record_all [] rows = some rows
record_all (m ∷ rest) rows = elim (insert_row (row_of m) rows) [
  | none ↦ none
  | some added ↦ record_all rest added
]

-- ExpectedSchemaFingerprint015 and 016 of schema.go.
abbrev pub expected_fingerprint : Text → Text → ℕ → Option Text
expected_fingerprint at_15 at_16 target =
    if target == 15 then some at_15 else if target == 16 then some at_16 else none

unfoldable pub baseline_rows :
    {World : Type 0}
    → Reply
    → Database World
    → Option (List AppliedMigration)
    → Database World × Answer (Unit {0})
baseline_rows reply db none = (db, err statement_failed)
baseline_rows served db (some rows) = (recorded rows db.world, ok tt)
baseline_rows refused db (some rows) = (db, err statement_failed)
baseline_rows lost db (some rows) = (recorded rows db.world, err statement_failed)

unfoldable pub baseline_checked :
    {World : Type 0}
    → Postgres World
    → Reply
    → List Migration
    → ℕ
    → Text
    → Database World
    → Database World × Answer (Unit {0})
unfolding baseline_rows record_all
baseline_checked pg reply ms target expected db = elim db.history [
  | some rows ↦ (db, err history_exists)
  | none ↦
      if not (pg.has_tables db.world)
      then (db, err no_tables)
      else if not (text_eq (pg.fingerprint db.world) expected)
      then (db, err baseline_mismatch)
      else baseline_rows reply db (record_all (take target ms) [])
]

-- Baseline, once the chain is loaded.
unfoldable pub baseline :
    {World : Type 0}
    → Postgres World
    → Reply
    → Text
    → Text
    → List Migration
    → ℕ
    → Database World
    → Database World × Answer (Unit {0})
unfolding baseline_checked
baseline pg reply at_15 at_16 ms target db = elim (expected_fingerprint at_15 at_16 target) [
  | none ↦ (db, err unsupported_baseline)
  | some expected ↦
      if ltb (length ms) target
      then (db, err unsupported_baseline)
      else baseline_checked pg reply ms target expected db
]
