-- ===== src/Migrate/Load.antt =====
-- internal/migrate/migrate.go: Load.
use im_backend.Prelude.{
  ok, err, ℕ, suc, ◌+◌, ◌*◌, ◌-◌, Bool, true, ◌&&◌, ◌||◌, not, List, [], ◌∷◌, Option, none, some,
  leb, ltb, ◌==◌, if◌then◌else◌, codes, sort_by,
}
use im_backend.Message.{Text}
use im_backend.Messages.Store.{text_eq}
use im_backend.Migrate.{Migration, Answer, invalid_filename, broken_chain, no_migrations, Library}
use im_backend.Migrate.Unwrap.{unwrap_transaction}

-- An entry of the directory, with its contents.
pub record Entry : Type 0 where
  pub name : Text
  pub is_dir : Bool
  pub contents : Text

-- filepath.Ext: from the last dot on.
abbrev pub extension : Text → Text
extension [] = []
extension (c ∷ rest) =
    let later = extension rest in
    elim later [ [] ↦ (if c == 46 then c ∷ rest else []) | d ∷ t ↦ d ∷ t ]

abbrev is_digit : ℕ → Bool
is_digit c = leb 48 c && leb c 57

abbrev is_name_byte : ℕ → Bool
is_name_byte c = is_digit c || (leb 97 c && leb c 122) || (c == 95)

-- [a-z0-9_]+\.sql$
unfoldable pub match_name : Text → Option Text
match_name [] = none
match_name (c ∷ rest) =
    let later = match_name rest in
    if is_name_byte c
    then (if text_eq rest (codes ".sql")
        then some (c ∷ [])
        else (elim later [ none ↦ none | some name ↦ some (c ∷ name) ]))
    else none

abbrev pub version_of : ℕ → ℕ → ℕ → ℕ
version_of a b c = (a - 48) * 100 + (b - 48) * 10 + (c - 48)

-- ^(\d{3})_([a-z0-9_]+)\.sql$
unfoldable pub match_filename : Text → Option (ℕ × Text)
unfolding match_name
match_filename (a ∷ b ∷ c ∷ u ∷ rest) =
    if is_digit a && is_digit b && is_digit c && (u == 95)
    then (elim (match_name rest) [ none ↦ none | some name ↦ some (version_of a b c, name) ])
    else none
match_filename _ = none

abbrev migration_of : Library → Entry → ℕ × Text → Text × Bool → Migration
migration_of lib entry (version, name) (body, transactional) = record {
  version = version;
  name = name;
  sql = entry.contents;
  checksum = lib.sha256 entry.contents;
  transactional = transactional;
  body = body;
}

unfoldable pub load_unwrapped :
    Library
    → Entry
    → ℕ × Text
    → Answer (Text × Bool)
    → Answer (List Migration)
    → Answer (List Migration)
load_unwrapped lib entry match (err e) rest = err e
load_unwrapped lib entry match (ok body) (err e) = err e
load_unwrapped lib entry match (ok body) (ok ms) = ok (migration_of lib entry match body ∷ ms)

unfoldable pub load_entry :
    Library → Entry → Option (ℕ × Text) → Answer (List Migration) → Answer (List Migration)
unfolding load_unwrapped unwrap_transaction
load_entry lib entry none rest = err invalid_filename
load_entry lib entry (some match) rest =
    load_unwrapped lib entry match (unwrap_transaction lib entry.contents) rest

-- The entries in their order; the first error ends it.
unfoldable pub load_entries : Library → List Entry → Answer (List Migration)
unfolding load_entry match_filename
load_entries lib [] = ok []
load_entries lib (entry ∷ rest) =
    let later = load_entries lib rest in
    if entry.is_dir || not (text_eq (extension entry.name) (codes ".sql"))
    then later
    else load_entry lib entry (match_filename entry.name) later

unfoldable pub by_version : Migration → Migration → Bool
by_version a b = ltb a.version b.version

-- The versions are those after `n`, one by one.
unfoldable pub is_chain : ℕ → List Migration → Bool
is_chain n [] = true
is_chain n (m ∷ rest) = (m.version == suc n) && is_chain (suc n) rest

unfoldable pub checked_chain : List Migration → Answer (List Migration)
unfolding is_chain
checked_chain [] = err no_migrations
checked_chain (m ∷ rest) = if is_chain 0 (m ∷ rest) then ok (m ∷ rest) else err broken_chain

unfoldable pub sorted_chain : Answer (List Migration) → Answer (List Migration)
unfolding checked_chain by_version
sorted_chain (err e) = err e
sorted_chain (ok ms) = checked_chain (sort_by by_version ms)

unfoldable pub load : Library → List Entry → Answer (List Migration)
unfolding sorted_chain load_entries
load lib entries = sorted_chain (load_entries lib entries)
