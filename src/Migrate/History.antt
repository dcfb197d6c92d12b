-- ===== src/Migrate/History.antt =====
-- internal/migrate/migrate.go and readiness.go: the table schema_migrations and the checks of it. Its rows
-- stand in the order of their versions, in which loadApplied reads them.
pub mod Prefix
pub mod Chain
use im_backend.Prelude.{
  ok, err, ℕ, zero, suc, ◌+◌, Bool, true, false, ◌&&◌, not, List, [], ◌∷◌, Option, none, some, ltb,
  ◌==◌, if◌then◌else◌, any, find, length,
}
use im_backend.Message.{Text}
use im_backend.Messages.Store.{text_eq}
use im_backend.Migrate.{
  Migration, AppliedMigration, Answer, unknown_version, name_changed, checksum_changed, history_gap,
  not_ready,
}

abbrev pub has_version : ℕ → AppliedMigration → Bool
has_version v a = a.version == v

-- A row of the map of what is applied.
unfoldable pub is_applied : ℕ → List AppliedMigration → Bool
is_applied v applied = any (has_version v) applied

unfoldable pub find_migration : ℕ → List Migration → Option Migration
find_migration v ms = find (λ (m : Migration). m.version == v) ms

unfoldable pub check_recorded : AppliedMigration → Option Migration → Answer (Unit {0})
check_recorded a none = err unknown_version
check_recorded a (some m) =
    if not (text_eq a.name m.name)
    then err name_changed
    else if not (text_eq a.checksum m.checksum)
    then err checksum_changed
    else ok tt

unfoldable pub and_then : Answer (Unit {0}) → Answer (Unit {0}) → Answer (Unit {0})
and_then (ok tt) k = k
and_then (err e) k = err e

unfoldable pub check_all : List Migration → List AppliedMigration → Answer (Unit {0})
unfolding check_recorded find_migration and_then
check_all ms [] = ok tt
check_all ms (a ∷ rest) =
    and_then (check_recorded a (find_migration a.version ms)) (check_all ms rest)

-- The versions after `n`, as many as are left to look at.
unfoldable pub check_gaps : ℕ → ℕ → List AppliedMigration → Answer (Unit {0})
unfolding is_applied
check_gaps n zero applied = ok tt
check_gaps n (suc left) applied =
    let rest = check_gaps (suc n) left applied in
    if is_applied (suc n) applied then rest else err history_gap

unfoldable pub validate_applied : List Migration → List AppliedMigration → Answer (Unit {0})
unfolding check_all check_gaps and_then
validate_applied ms applied =
    and_then (check_all ms applied) (check_gaps 0 (length applied) applied)

unfoldable pub validate_ready : List Migration → List AppliedMigration → Answer (Unit {0})
unfolding validate_applied and_then
validate_ready ms applied =
    and_then (validate_applied ms applied)
      (if length applied == length ms then ok tt else err not_ready)

abbrev pub row_of : Migration → AppliedMigration
row_of m = record { version = m.version; name = m.name; checksum = m.checksum }

-- INSERT INTO schema_migrations: version is the primary key.
unfoldable pub insert_row :
    AppliedMigration → List AppliedMigration → Option (List AppliedMigration)
insert_row a [] = some (a ∷ [])
insert_row a (b ∷ rest) =
    let later = insert_row a rest in
    if a.version == b.version
    then none
    else if ltb a.version b.version
    then some (a ∷ b ∷ rest)
    else (elim later [ none ↦ none | some rows ↦ some (b ∷ rows) ])
