-- ===== src/Migrate.antt =====
-- internal/migrate: the chain of schema migrations, the table that records them, and Up, which brings a
-- database to the end of the chain. A text is the list of its bytes.
pub mod Unwrap
pub mod Split
pub mod Load
pub mod History
pub mod Apply
pub mod Up
pub mod Baseline
mod Tests
use im_backend.Prelude.{Result, ok, err, ℕ, Bool, List, Option}
use im_backend.Message.{Text}

pub record Migration : Type 0 where
  pub version : ℕ
  pub name : Text
  pub sql : Text
  pub checksum : Text
  pub transactional : Bool
  pub body : Text

-- A row of schema_migrations.
pub record AppliedMigration : Type 0 where
  pub version : ℕ
  pub name : Text
  pub checksum : Text

pub data MigrateError : Type 0 where
  invalid_filename no_sql unbalanced_transaction broken_chain no_migrations unterminated_syntax
        no_statements baseline_required unknown_version name_changed checksum_changed history_gap
        maintenance_required statement_failed partial_objects invalid_objects no_verifier not_ready
        baseline_mismatch history_exists unsupported_baseline no_tables :
      MigrateError

abbrev pub Answer {ℓ} : Type ℓ → Type ℓ
Answer A = Result MigrateError A

-- The functions of other packages that the chain is loaded with.
pub record Library : Type 0 where
  pub sha256 : Text → Text
  pub to_upper : Text → Text
