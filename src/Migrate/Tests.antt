-- ===== src/Migrate/Tests.antt =====
-- A chain of two migrations of internal/migrate on a small database, and the theorems at it.
use im_backend.Prelude.{
  All, ok, parts, join, trim_space, ℕ, suc, ◌≡◌, refl, Bool, true, false, List, [], ◌∷◌, some,
  arith, codes, map,
}
use im_backend.Message.{Text}
use im_backend.Messages.Store.{text_eq}
use im_backend.Outbox.Types.{Reply, served, lost}
use im_backend.Migrate.{Migration, Library}
use im_backend.Migrate.Load.{
  Entry, load, sorted_chain, checked_chain, is_chain, by_version, load_entries, load_entry,
  load_unwrapped, match_filename, match_name,
}
use im_backend.Migrate.Unwrap.{
  is_significant, first_significant, last_significant, blank_first, blank_last, unwrapped,
  unwrap_lines, unwrap_transaction,
}
use im_backend.Migrate.Split.{
  scan, split_sql_statements, move, code_byte, open_dollar, tag_bytes, split_scanned, statements,
}
use im_backend.Migrate.Split.Tokens.{Token, IsStatement, code, quoted, dollar, block}
use im_backend.Migrate.History.{
  row_of, validate_applied, check_all, check_recorded, check_gaps, and_then, find_migration,
  is_applied, insert_row,
}
use im_backend.Migrate.Apply.{Postgres, Database, apply, apply_transaction, record_migration}
use im_backend.Migrate.Up.{up, up_from, up_checked, up_loop, ensure_history, check_ready}
use im_backend.Migrate.Up.Advance.{Steps}
use im_backend.Migrate.Up.Ready.{up_advances_along_chain}
use im_backend.Migrate.Up.Again.{successful_up_is_ready}

abbrev sample_library : Library
sample_library = record { sha256 = λ t. t; to_upper = λ t. t }

abbrev first_sql : Text
first_sql = codes "BEGIN;\nA\nCOMMIT;"

abbrev second_sql : Text
second_sql = codes "BEGIN;\nB\nCOMMIT;"

abbrev sample_entries : List Entry
sample_entries =
    record { name = codes "002_more.sql"; is_dir = false; contents = second_sql }
    ∷ record { name = codes "001_create.sql"; is_dir = false; contents = first_sql }
    ∷ record { name = codes "embed.go"; is_dir = false; contents = [] }
    ∷ []

abbrev first_migration : Migration
first_migration = record {
  version = 1;
  name = codes "create";
  sql = first_sql;
  checksum = first_sql;
  transactional = true;
  body = codes "\nA\n";
}

abbrev second_migration : Migration
second_migration = record {
  version = 2;
  name = codes "more";
  sql = second_sql;
  checksum = second_sql;
  transactional = true;
  body = codes "\nB\n";
}

abbrev sample_chain : List Migration
sample_chain = first_migration ∷ second_migration ∷ []

-- The schema is the number of statements that have run.
abbrev counting : Postgres ℕ
counting = record {
  exec = λ s w. some (suc w);
  has_tables = λ w. true;
  has_messages = λ w. false;
  index_exists = λ w. false;
  index_valid = λ w. false;
  statistics_exist = λ w. false;
  fingerprint = λ w. [];
}

abbrev half_way : Database ℕ
half_way = record { history = some (row_of first_migration ∷ []); world = 1 }

sample_load : load sample_library sample_entries ≡ ok sample_chain
unfolding load sorted_chain checked_chain is_chain by_version load_entries load_entry load_unwrapped
    match_filename match_name unwrap_transaction unwrap_lines unwrapped blank_first blank_last
    last_significant first_significant is_significant parts join trim_space text_eq
sample_load = refl

sample_history : validate_applied sample_chain (row_of first_migration ∷ []) ≡ ok tt
unfolding validate_applied check_all check_recorded check_gaps and_then find_migration is_applied
    text_eq
sample_history = refl

-- SELECT ';'; and behind it a body in dollar quotes, with a semicolon of its own.
abbrev two_statements : List (List Token)
two_statements =
    (code 83 ∷ quoted (codes ";") ∷ [])
    ∷ (dollar (codes "b") (codes " ; ") ∷ block (codes ";'") ∷ [])
    ∷ []

abbrev statements_of_two : All IsStatement two_statements
statements_of_two = (
  ((refl, (refl, (refl, (refl, (refl, (refl, tt)))))), tt, ((refl, tt), refl, tt)),
  ((((refl, tt), (refl, (refl, (refl, tt)))), tt, ((refl, (refl, tt)), tt, tt)), tt),
)

-- The commit of the second migration is not answered.
up_advances_along_chain_example :
    let (after, answer) =
      up sample_library counting false (λ v. lost) (load sample_library sample_entries) half_way in
    (done : List Migration) × (last : List Migration) × (row_of first_migration ∷ []
      ≡ map row_of done)
    × Steps sample_library counting sample_chain done 1 last after.world
    × (after.history ≡ some (map row_of last))
    × (validate_applied sample_chain (map row_of last) ≡ ok tt)
    × (answer ≡ ok tt → last ≡ sample_chain)
unfolding ensure_history
up_advances_along_chain_example =
    up_advances_along_chain sample_library counting false (λ v. lost) sample_entries sample_chain
      (row_of first_migration ∷ []) half_way sample_load refl (omega arith, tt) sample_history

successful_up_is_ready_example :
    let after =
      (up sample_library counting false
        (λ v. served)
        (load sample_library sample_entries)
        half_way).0 in
    (check_ready (load sample_library sample_entries) after ≡ ok tt)
    × ((again : Bool) (fates : ℕ → Reply)
        → up sample_library counting again fates (load sample_library sample_entries) after
          ≡ (after, ok tt))
unfolding ensure_history up up_from up_checked up_loop apply apply_transaction record_migration
    insert_row load sorted_chain checked_chain is_chain by_version load_entries load_entry
    load_unwrapped match_filename match_name unwrap_transaction unwrap_lines unwrapped blank_first
    blank_last last_significant first_significant is_significant parts join trim_space text_eq
    validate_applied check_all check_recorded check_gaps and_then find_migration is_applied
successful_up_is_ready_example =
    successful_up_is_ready sample_library counting false (λ v. served) sample_entries sample_chain
      (row_of first_migration ∷ []) half_way sample_load refl (omega arith, tt) sample_history refl

-- The text of migrate_test.go: semicolons in comments and quotes are no boundary.
splits_quoted :
    split_sql_statements (codes "-- c; d\nA;';'\";\"$b$;$b$;/*;*/B")
    ≡ ok (codes "-- c; d\nA;" ∷ codes "';'\";\"$b$;$b$;" ∷ codes "/*;*/B" ∷ [])
unfolding split_sql_statements split_scanned statements scan move code_byte open_dollar tag_bytes
splits_quoted = refl
