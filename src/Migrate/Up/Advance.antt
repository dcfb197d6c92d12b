-- ===== src/Migrate/Up/Advance.antt =====
-- What Up of internal/migrate is meant to do: migrations run in the order of the chain, each once.
use im_backend.Prelude.{
  ok, ℕ, suc, ◌+◌, ◌≡◌, refl, sym, ap, ◌∙◌, Bool, true, false, List, [], ◌∷◌, ◌++◌, some, arith,
  ltb, ◌==◌, In, map, length,
}
use im_backend.Message.{Text}
use im_backend.Migrate.{Migration, AppliedMigration, Library}
use im_backend.Migrate.Load.{is_chain}
use im_backend.Migrate.Split.{split_sql_statements}
use im_backend.Migrate.History.{row_of, insert_row}
use im_backend.Migrate.History.Prefix.{Numbered}
use im_backend.Migrate.History.Chain.{start-Numbered}
use im_backend.Migrate.Apply.{Postgres, non_transactional_state}

-- A step from the first migrations `done` and a schema, with the next migration of the chain. It runs as a
-- whole, with its row; or, where it is not run in a transaction, a statement of it runs, or it gets its
-- row, its objects being complete.
pub data Step {World : Type 0} (lib : Library) (pg : Postgres World) (ms : List Migration)
    : List Migration → World → List Migration → World → Type 0 where
  migrated :
      {done : List Migration} {w after : World} (m : Migration) (rest : List Migration)
      → ms ≡ done ++ (m ∷ rest)
      → m.transactional ≡ true
      → pg.exec m.body w ≡ some after
      → Step lib pg ms done w (done ++ (m ∷ [])) after
  executed :
      {done : List Migration} {w after : World} (m : Migration) (rest : List Migration)
      (statements : List Text) (s : Text)
      → ms ≡ done ++ (m ∷ rest)
      → m.transactional ≡ false
      → split_sql_statements m.sql ≡ ok statements
      → In s statements
      → pg.exec s w ≡ some after
      → Step lib pg ms done w done after
  completed :
      {done : List Migration} {w : World} (m : Migration) (rest : List Migration)
      → ms ≡ done ++ (m ∷ rest)
      → m.transactional ≡ false
      → non_transactional_state pg m.version w ≡ ok (true, false)
      → Step lib pg ms done w (done ++ (m ∷ [])) w

pub data Steps {World : Type 0} (lib : Library) (pg : Postgres World) (ms : List Migration)
    : List Migration → World → List Migration → World → Type 0 where
  here : {done : List Migration} {w : World} → Steps lib pg ms done w done w
  step :
      {done next last : List Migration} {w v u : World}
      → Step lib pg ms done w next v
      → Steps lib pg ms next v last u
      → Steps lib pg ms done w last u

pub Steps-append :
    {World : Type 0} (lib : Library) (pg : Postgres World) (ms : List Migration)
    {a b c : List Migration} {w v u : World}
    → Steps lib pg ms a w b v
    → Steps lib pg ms b v c u
    → Steps lib pg ms a w c u
Steps-append lib pg ms here k = k
Steps-append lib pg ms (step s h) k = step s (Steps-append lib pg ms h k)

-- The rows and the schema that a part of Up has left: steps lead there from `done`, to it or to it with
-- `m`, and to the latter where the part reports no error.
pub record Applies {World : Type 0} (lib : Library) (pg : Postgres World) (ms done : List Migration)
    (m : Migration) (w : World) (result : List AppliedMigration × World × Bool) : Type 0 where
  pub last : List Migration
  pub steps : Steps lib pg ms done w last result.1
  pub rows : result.0 ≡ map row_of last
  pub complete : result.2 ≡ true → last ≡ done ++ (m ∷ [])

map-append :
    (f : Migration → AppliedMigration) (xs ys : List Migration)
    → map f (xs ++ ys) ≡ map f xs ++ map f ys
map-append f [] ys = refl
map-append f (x ∷ xs) ys = ap (◌∷◌ (f x)) (map-append f xs ys)

-- A row of a version behind the others is put at the end.
insert_row-end :
    (n : ℕ) (a : AppliedMigration) (rows : List AppliedMigration)
    → Numbered n rows
    → a.version ≡ suc (n + length rows)
    → insert_row a rows ≡ some (rows ++ (a ∷ []))
unfolding insert_row
insert_row-end n a [] h e = refl
insert_row-end n a (b ∷ rest) h e =
    rw (other, later, insert_row-end (suc n) a rest h.1 (omega (arith, e))) refl
  where
    other : (a.version == b.version) ≡ false
    other = ground (arith, h.0, e)

    later : ltb a.version b.version ≡ false
    later = ground (arith, h.0, e)

next_version :
    (n : ℕ) (done rest : List Migration) (m : Migration)
    → is_chain n (done ++ (m ∷ rest)) ≡ true
    → m.version ≡ suc (n + length (map row_of done))
unfolding is_chain
next_version n [] rest m c = ground (arith, c)
next_version n (d ∷ done) rest m c =
    omega (arith, next_version (suc n) done rest m (chain_tail n d (done ++ (m ∷ rest)) c))
  where
    chain_tail :
        (n : ℕ) (d : Migration) (ms : List Migration)
        → is_chain n (d ∷ ms) ≡ true
        → is_chain (suc n) ms ≡ true
    chain_tail n d ms c = ground (arith, c)

pub inserted :
    (done rest : List Migration) (m : Migration)
    → is_chain 0 (done ++ (m ∷ rest)) ≡ true
    → insert_row (row_of m) (map row_of done) ≡ some (map row_of (done ++ (m ∷ [])))
inserted done rest m c =
    insert_row-end 0 (row_of m) (map row_of done) (start-Numbered 0 done (m ∷ rest) c)
      (next_version 0 done rest m c)
    ∙ ap some (sym (map-append row_of done (m ∷ [])))
