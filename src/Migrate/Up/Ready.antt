-- ===== src/Migrate/Up/Ready.antt =====
-- Up, CheckReady and the table schema_migrations of internal/migrate together.
use im_backend.Prelude.{
  err-ok, ok-injective, ok, err, ℕ, ◌≡◌, sym, subst, ◌∙◌, inl, inr, Bool, true, List, [], ◌∷◌, ◌++◌,
  some, Bool-cases, map, sort_by, append_assoc,
}
use im_backend.Outbox.Types.{Reply}
use im_backend.Migrate.{Migration, AppliedMigration, Answer, Library, broken_chain, no_migrations}
use im_backend.Migrate.Load.{
  Entry, is_chain, load, sorted_chain, checked_chain, by_version, load_entries,
}
use im_backend.Migrate.History.{row_of, validate_applied}
use im_backend.Migrate.History.Prefix.{InOrder}
use im_backend.Migrate.History.Chain.{valid_history-IsStart, start_is_valid}
use im_backend.Migrate.Apply.{Postgres, Database}
use im_backend.Migrate.Up.{up_loop, up_checked, up_from, up, ensure_history}
use im_backend.Migrate.Up.Advance.{Step, Steps, here, step, migrated, executed, completed}
use im_backend.Migrate.Up.Refines.{Reached, Ends, up_loop-Ends, finished-Reached}

checked-is_chain :
    (sorted ms : List Migration) → checked_chain sorted ≡ ok ms → is_chain 0 ms ≡ true
unfolding checked_chain
checked-is_chain [] ms h = absurd (err-ok no_migrations ms h)
checked-is_chain (m ∷ rest) ms h = elim (Bool-cases (is_chain 0 (m ∷ rest))) [
  | inr e ↦ absurd (err-ok broken_chain ms (rw e at h))
  | inl e ↦ subst (λ l. is_chain 0 l ≡ true) (ok-injective (m ∷ rest) ms (rw e at h)) e
]

-- A chain that is loaded has the versions from 1 on, one by one.
pub load-is_chain :
    (lib : Library) (entries : List Entry) (ms : List Migration)
    → load lib entries ≡ ok ms
    → is_chain 0 ms ≡ true
unfolding load
load-is_chain lib entries ms h = from_sorted (load_entries lib entries) h
  where
    from_sorted : (r : Answer (List Migration)) → sorted_chain r ≡ ok ms → is_chain 0 ms ≡ true
    from_sorted (err e) q = absurd (err-ok e ms q)
    from_sorted (ok loaded) q = checked-is_chain (sort_by by_version loaded) ms q

module _ {World : Type 0} (lib : Library) (pg : Postgres World) (ms : List Migration) where
  -- The steps stay on the chain.
  Step-on_chain :
      {done next : List Migration} {w v : World}
      → Step lib pg ms done w next v
      → (rest : List Migration) × (ms ≡ done ++ rest)
      → (rest : List Migration) × (ms ≡ next ++ rest)
  Step-on_chain {done = done} (migrated m rest e t x) k =
      (rest, e ∙ sym (append_assoc done (m ∷ []) rest))
  Step-on_chain (executed m rest all s e t q i x) k = k
  Step-on_chain {done = done} (completed m rest e t x) k =
      (rest, e ∙ sym (append_assoc done (m ∷ []) rest))

  Steps-on_chain :
      {done last : List Migration} {w v : World}
      → Steps lib pg ms done w last v
      → (rest : List Migration) × (ms ≡ done ++ rest)
      → (rest : List Migration) × (ms ≡ last ++ rest)
  Steps-on_chain here k = k
  Steps-on_chain (step s h) k = Steps-on_chain h (Step-on_chain s k)

  up_checked-Reached :
      (allow : Bool) (replies : ℕ → Reply) (done rest : List Migration)
      (rows : List AppliedMigration) (w : World)
      → is_chain 0 ms ≡ true
      → ms ≡ done ++ rest
      → rows ≡ map row_of done
      → validate_applied ms rows ≡ ok tt
      → let (after, answer) =
          up_checked lib pg allow replies ms rows w (validate_applied ms rows) in
        Reached lib pg ms done w after answer
  unfolding up_checked
  up_checked-Reached allow replies done rest rows w c e q v = rw v (
      finished-Reached lib pg ms done w (up_loop lib pg allow replies rows ms rows w) (
        subst (λ rs. Ends lib pg ms done w (up_loop lib pg allow replies rs ms rs w)) (sym q)
          (subst
            (λ l.
              Ends lib pg l done w
                (up_loop lib pg allow replies (map row_of done) l (map row_of done) w))
            (sym e)
            (up_loop-Ends lib pg allow replies done rest w
              (subst (λ l. is_chain 0 l ≡ true) e c)))))

-- Up refines the steps: from a history in the order of its key that passes its check, which is that of
-- the first migrations, it runs the next migrations in their order, each once and with its row, or leaves
-- one that is not run in a transaction in the middle. Whatever statement fails and whatever happens to the
-- commits, the history that it leaves passes the check again, and there is no error only at the end of
-- the chain.
pub up_advances_along_chain :
    {World : Type 0} (lib : Library) (pg : Postgres World) (allow : Bool) (replies : ℕ → Reply)
    (entries : List Entry) (ms : List Migration) (rows : List AppliedMigration)
    (db : Database World)
    → load lib entries ≡ ok ms
    → ensure_history pg db ≡ some rows
    → InOrder 0 rows
    → validate_applied ms rows ≡ ok tt
    → let (after, answer) = up lib pg allow replies (load lib entries) db in
      (done : List Migration) × (last : List Migration) × (rows ≡ map row_of done)
      × Steps lib pg ms done db.world last after.world
      × (after.history ≡ some (map row_of last))
      × (validate_applied ms (map row_of last) ≡ ok tt)
      × (answer ≡ ok tt → last ≡ ms)
unfolding up up_from
up_advances_along_chain lib pg allow replies entries ms rows db l h o v =
    let c = load-is_chain lib entries ms l in
    let (done, rest, e, q) = valid_history-IsStart ms rows c o v in
    let r = up_checked-Reached lib pg ms allow replies done rest rows db.world c e q v in
    let (left, on) = Steps-on_chain lib pg ms r.steps (rest, e) in
    rw (l, h)
      (
        done,
        r.last,
        q,
        r.steps,
        r.rows,
        subst (λ x. validate_applied x (map row_of r.last) ≡ ok tt) (sym on)
            (start_is_valid r.last left (subst (λ x. is_chain 0 x ≡ true) on c)),
        r.complete,
      )
