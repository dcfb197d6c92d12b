-- ===== src/Migrate/Unwrap.antt =====
-- internal/migrate/migrate.go: unwrapTransaction.
use im_backend.Prelude.{
  ok, err, Bool, true, false, ◌||◌, not, List, [], ◌∷◌, ◌++◌, Option, none, some, ◌==◌,
  if◌then◌else◌, codes, parts, join, trim_space,
}
use im_backend.Message.{Text}
use im_backend.Messages.Store.{text_eq}
use im_backend.Migrate.{Answer, no_sql, unbalanced_transaction, Library}

-- Neither blank nor a comment.
unfoldable pub is_significant : Text → Bool
unfolding trim_space
is_significant line = elim (trim_space line) [
  | [] ↦ false
  | c ∷ [] ↦ true
  | c ∷ (d ∷ _) ↦ if c == 45 then not (d == 45) else true
]

-- The first and the last significant line, where there is one.
unfoldable pub first_significant : List Text → Option Text
first_significant [] = none
first_significant (line ∷ rest) = if is_significant line then some line else first_significant rest

unfoldable pub last_significant : List Text → Option Text
last_significant [] = none
last_significant (line ∷ rest) = elim (last_significant rest) [
  | some l ↦ some l
  | none ↦ if is_significant line then some line else none
]

-- lines[…] = "" at the first, and at the last.
unfoldable pub blank_first : List Text → List Text
blank_first [] = []
blank_first (line ∷ rest) =
    let later = blank_first rest in if is_significant line then [] ∷ rest else line ∷ later

unfoldable pub blank_last : List Text → List Text
unfolding last_significant
blank_last [] = []
blank_last (line ∷ rest) = elim (last_significant rest) [
  | some l ↦ line ∷ blank_last rest
  | none ↦ (if is_significant line then [] else line) ∷ rest
]

abbrev pub is_word : Library → Text → Text → Bool
is_word lib word line =
    let shown = lib.to_upper (trim_space line) in
    text_eq shown (word ++ (59 ∷ [])) || text_eq shown word

unfoldable pub unwrapped : Library → Text → List Text → Bool → Bool → Answer (Text × Bool)
unfolding blank_first blank_last join
unwrapped lib sql all true true = ok (join 10 (blank_last (blank_first all)), true)
unwrapped lib sql all false false = ok (sql, false)
unwrapped lib sql all _ _ = err unbalanced_transaction

unfoldable pub unwrap_lines :
    Library → Text → List Text → Option Text → Option Text → Answer (Text × Bool)
unfolding unwrapped
unwrap_lines lib sql all (some first) (some last) =
    unwrapped lib sql all (is_word lib (codes "BEGIN") first) (is_word lib (codes "COMMIT") last)
unwrap_lines lib sql all _ _ = err no_sql

-- The body to run, and whether it runs in a transaction.
unfoldable pub unwrap_transaction : Library → Text → Answer (Text × Bool)
unfolding parts first_significant last_significant unwrap_lines
unwrap_transaction lib sql =
    let lines = parts 10 sql in
    unwrap_lines lib sql lines (first_significant lines) (last_significant lines)
