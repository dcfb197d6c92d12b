-- ===== src/Migrate/Split/Statements.antt =====
-- splitSQLStatements cuts a script at the semicolons of its code.
use im_backend.Prelude.{ℕ, suc, ◌≡◌, refl, false, List, [], ◌∷◌, ◌++◌}
use im_backend.Message.{Text}
use im_backend.Migrate.Split.{plain, move, code_byte, with_piece, scan, next_is}
use im_backend.Migrate.Split.Tokens.{Token, render_all}

-- What follows a statement: neither of the quotes.
abbrev IsBehind : Text → Type 0
IsBehind rest = (next_is 39 rest ≡ false) × (next_is 34 rest ≡ false)

-- The script: each statement with a semicolon, and what stands behind the last one.
abbrev pub script : List (List Token) → List Token → Text
script [] last = render_all last
script (s ∷ ss) last = render_all s ++ (59 ∷ script ss last)

abbrev pub with_semicolon : List Token → Text
with_semicolon s = render_all s ++ (59 ∷ [])

cut :
    (fuel : ℕ) (since rest : Text)
    → scan (suc fuel) plain since (59 ∷ rest)
      ≡ with_piece (since ++ (59 ∷ [])) (scan fuel plain [] rest)
unfolding scan move code_byte
cut fuel since rest = refl
