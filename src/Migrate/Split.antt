-- ===== src/Migrate/Split.antt =====
-- internal/migrate/migrate.go: splitSQLStatements, a scanner with a mode for each kind of quoted text.
pub mod Tokens
pub mod Statements
pub mod Moves
use im_backend.Prelude.{
  ok, err, trim_space, ℕ, zero, suc, ◌+◌, Bool, true, false, ◌&&◌, ◌||◌, List, [], ◌∷◌, ◌++◌,
  Option, none, some, leb, ◌==◌, if◌then◌else◌, length, take,
}
use im_backend.Message.{Text}
use im_backend.Messages.Store.{text_eq}
use im_backend.Migrate.{Answer, unterminated_syntax, no_statements, Library}

-- inLineComment, inBlockComment, dollarTag, inSingleQuote and inDoubleQuote: at most one is set.
pub data Mode : Type 0 where
  plain line_comment block_comment single_quote double_quote : Mode
  dollar_quote : Text → Mode

-- What one turn of the loop does: the mode after it, the bytes it passes beyond the first, and whether
-- a statement ends there.
pub record Move : Type 0 where
  pub mode : Mode
  pub more : ℕ
  pub ends : Bool

abbrev pub pass : Mode → ℕ → Move
pass mode more = record { mode = mode; more = more; ends = false }

abbrev is_tag_byte : ℕ → Bool
is_tag_byte c =
    (c == 95) || (leb 97 c && leb c 122) || (leb 65 c && leb c 90) || (leb 48 c && leb c 57)

-- The bytes of a tag, where a dollar ends them.
unfoldable pub tag_bytes : Text → Option Text
tag_bytes [] = none
tag_bytes (c ∷ rest) =
    let later = tag_bytes rest in
    if is_tag_byte c
    then (elim later [ none ↦ none | some tag ↦ some (c ∷ tag) ])
    else if c == 36
    then some []
    else none

unfoldable pub open_dollar : Option Text → Move
open_dollar none = pass plain 0
open_dollar (some tag) = pass (dollar_quote (36 ∷ (tag ++ (36 ∷ [])))) (length tag + 1)

abbrev pub starts_with : Text → Text → Bool
starts_with [] t = true
starts_with (_ ∷ _) [] = false
starts_with (a ∷ p) (b ∷ t) = (a == b) && starts_with p t

abbrev pub next_is : ℕ → Text → Bool
next_is c [] = false
next_is c (d ∷ _) = d == c

-- A quote that is doubled stays open.
abbrev pub in_quote : Mode → ℕ → ℕ → Text → Move
in_quote mode quote c rest =
    if c == quote then (if next_is quote rest then pass mode 1 else pass plain 0) else pass mode 0

-- The switch on one byte of plain text.
unfoldable pub code_byte : ℕ → Text → Move
unfolding tag_bytes open_dollar
code_byte c rest =
    if c == 39
    then pass single_quote 0
    else if c == 34
    then pass double_quote 0
    else if c == 36
    then open_dollar (tag_bytes rest)
    else if c == 59
    then record { mode = plain; more = 0; ends = true }
    else pass plain 0

-- A turn at the byte `c`, with `rest` behind it.
unfoldable pub move : Mode → ℕ → Text → Move
unfolding code_byte
move line_comment c rest = if c == 10 then pass plain 0 else pass line_comment 0
move block_comment c rest =
    if (c == 42) && next_is 47 rest then pass plain 1 else pass block_comment 0
move (dollar_quote []) c rest = pass plain 0
move (dollar_quote (d ∷ tag)) c rest =
    if (d == c) && starts_with tag rest
    then pass plain (length tag)
    else pass (dollar_quote (d ∷ tag)) 0
move single_quote c rest = in_quote single_quote 39 c rest
move double_quote c rest = in_quote double_quote 34 c rest
move plain c rest =
    if (c == 45) && next_is 45 rest
    then pass line_comment 1
    else if (c == 47) && next_is 42 rest
    then pass block_comment 1
    else code_byte c rest

-- The pieces up to each end of a statement, the text behind the last of them, and the mode at the end.
pub record Scanned : Type 0 where
  pub pieces : List Text
  pub tail : Text
  pub mode : Mode

abbrev pub drop : ℕ → Text → Text
drop zero t = t
drop (suc n) [] = []
drop (suc n) (c ∷ t) = drop n t

abbrev pub with_piece : Text → Option Scanned → Option Scanned
with_piece piece none = none
with_piece piece (some s) = some (record s { pieces = piece ∷ s.pieces })

-- The loop, on fuel; `since` is the text from `start` on. It is none where the fuel runs out.
unfoldable pub scan : ℕ → Mode → Text → Text → Option Scanned
unfolding move
scan fuel mode since [] = some (record { pieces = []; tail = since; mode = mode })
scan zero mode since (c ∷ rest) = none
scan (suc fuel) mode since (c ∷ rest) =
    let m = move mode c rest in
    let passed = since ++ (c ∷ take m.more rest) in
    let cut = scan fuel m.mode [] (drop m.more rest) in
    let on = scan fuel m.mode passed (drop m.more rest) in
    if m.ends then with_piece passed cut else on

abbrev pub is_closed : Mode → Bool
is_closed plain = true
is_closed line_comment = true
is_closed _ = false

-- The trimmed statements that are not empty.
unfoldable pub statements : List Text → List Text
statements [] = []
statements (piece ∷ rest) = elim (trim_space piece) [
  | [] ↦ statements rest
  | c ∷ t ↦ (c ∷ t) ∷ statements rest
]

abbrev pub some_statements : List Text → Answer (List Text)
some_statements [] = err no_statements
some_statements (s ∷ rest) = ok (s ∷ rest)

unfoldable pub split_scanned : Option Scanned → Answer (List Text)
unfolding statements trim_space
split_scanned none = err unterminated_syntax
split_scanned (some s) =
    if is_closed s.mode
    then some_statements (statements (s.pieces ++ (s.tail ∷ [])))
    else err unterminated_syntax

-- Every turn passes a byte at least, so the length of the text is fuel enough.
unfoldable pub split_sql_statements : Text → Answer (List Text)
unfolding scan split_scanned
split_sql_statements sql = split_scanned (scan (length sql) plain [] sql)
