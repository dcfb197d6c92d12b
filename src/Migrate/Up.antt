-- ===== src/Migrate/Up.antt =====
-- internal/migrate/migrate.go: Up; CheckReady of readiness.go.
pub mod Advance
pub mod Applied
pub mod Refines
pub mod Ready
pub mod Again
use im_backend.Prelude.{
  ok, err, ℕ, suc, ◌+◌, Bool, true, false, ◌&&◌, ◌||◌, not, List, [], ◌∷◌, Option, none, some, ltb,
  ◌==◌, if◌then◌else◌, length, take, map,
}
use im_backend.Message.{Text}
use im_backend.Messages.Store.{text_eq}
use im_backend.Outbox.Types.{Reply, served, refused, lost}
use im_backend.Migrate.{
  Migration, AppliedMigration, Answer, MigrateError, Library, baseline_required,
  maintenance_required, statement_failed, partial_objects, invalid_objects, no_verifier, not_ready,
  baseline_mismatch, history_exists, unsupported_baseline, no_tables,
}
use im_backend.Migrate.Split.{split_sql_statements}
use im_backend.Migrate.History.{is_applied, validate_applied, validate_ready, insert_row, row_of}
use im_backend.Migrate.Apply.{
  Postgres, Database, non_transactional_state, recorded, record_migration, exec_statements,
  verified, run_statements, apply_alone, apply_transaction, apply,
}

abbrev pub needs_maintenance : {World : Type 0} → Postgres World → Bool → Migration → World → Bool
needs_maintenance pg allow m w =
    ((m.version == 15) || (m.version == 16)) && not allow && pg.has_messages w

-- The loop of Up. `applied` is what was read before it; each migration has the fate of its commit.
unfoldable pub up_loop :
    {World : Type 0}
    → Library
    → Postgres World
    → Bool
    → (ℕ → Reply)
    → List AppliedMigration
    → List Migration
    → List AppliedMigration
    → World
    → List AppliedMigration × World × Bool
unfolding is_applied apply
up_loop lib pg allow replies applied [] rows w = (rows, w, true)
up_loop lib pg allow replies applied (m ∷ rest) rows w =
    let skipped = up_loop lib pg allow replies applied rest rows w in
    let (after, schema, done) = apply lib pg (replies m.version) m rows w in
    let later = up_loop lib pg allow replies applied rest after schema in
    if is_applied m.version applied
    then skipped
    else if needs_maintenance pg allow m w
    then (rows, w, false)
    else if done
    then later
    else (after, schema, false)

abbrev pub finished :
    {World : Type 0} → List AppliedMigration × World × Bool → Database World × Answer (Unit {0})
finished (rows, w, true) = (recorded rows w, ok tt)
finished (rows, w, false) = (recorded rows w, err statement_failed)

unfoldable pub up_checked :
    {World : Type 0}
    → Library
    → Postgres World
    → Bool
    → (ℕ → Reply)
    → List Migration
    → List AppliedMigration
    → World
    → Answer (Unit {0})
    → Database World × Answer (Unit {0})
unfolding up_loop
up_checked lib pg allow replies ms rows w (err e) = (recorded rows w, err e)
up_checked lib pg allow replies ms rows w (ok tt) =
    finished (up_loop lib pg allow replies rows ms rows w)

-- ensureHistory: the table is created where the database has no tables at all.
unfoldable pub ensure_history :
    {World : Type 0} → Postgres World → Database World → Option (List AppliedMigration)
ensure_history pg db = elim db.history [
  | some rows ↦ some rows
  | none ↦ if pg.has_tables db.world then none else some []
]

unfoldable pub up_from :
    {World : Type 0}
    → Library
    → Postgres World
    → Bool
    → (ℕ → Reply)
    → List Migration
    → Database World
    → Option (List AppliedMigration)
    → Database World × Answer (Unit {0})
unfolding up_checked validate_applied
up_from lib pg allow replies ms db none = (db, err baseline_required)
up_from lib pg allow replies ms db (some rows) =
    up_checked lib pg allow replies ms rows db.world (validate_applied ms rows)

-- Up, once the chain is loaded. The lock keeps other runners out; which statement failed is left out of
-- the error.
unfoldable pub up :
    {World : Type 0}
    → Library
    → Postgres World
    → Bool
    → (ℕ → Reply)
    → Answer (List Migration)
    → Database World
    → Database World × Answer (Unit {0})
unfolding up_from ensure_history
up lib pg allow replies (err e) db = (db, err e)
up lib pg allow replies (ok ms) db = up_from lib pg allow replies ms db (ensure_history pg db)

-- CheckReady, once the chain is loaded.
unfoldable pub check_ready :
    {World : Type 0} → Answer (List Migration) → Database World → Answer (Unit {0})
unfolding validate_ready
check_ready (err e) db = err not_ready
check_ready (ok ms) db = elim db.history [
  | none ↦ err not_ready
  | some rows ↦ elim (validate_ready ms rows) [ ok tt ↦ ok tt | err e ↦ err not_ready ]
]
