-- ===== src/Migrate/Up/Applied.antt =====
-- apply of internal/migrate takes the steps of Advance.
use im_backend.Prelude.{
  ok, err, false≢true, ◌≡◌, refl, inl, inr, Bool, true, false, List, [], ◌∷◌, ◌++◌, Option, none,
  some, if◌then◌else◌, Option-cases, either_way, In, map,
}
use im_backend.Message.{Text}
use im_backend.Outbox.Types.{Reply, served, refused, lost}
use im_backend.Migrate.{Migration, AppliedMigration, Answer, Library}
use im_backend.Migrate.Load.{is_chain}
use im_backend.Migrate.Split.{split_sql_statements}
use im_backend.Migrate.History.{row_of}
use im_backend.Migrate.Apply.{
  Postgres, non_transactional_state, record_migration, exec_statements, verified, run_statements,
  apply_alone, apply_transaction, apply,
}
use im_backend.Migrate.Up.Advance.{
  Steps, here, step, migrated, executed, completed, Steps-append, Applies, inserted,
}

module _ {World : Type 0} (lib : Library) (pg : Postgres World) (done rest : List Migration)
    (m : Migration) (c : is_chain 0 (done ++ (m ∷ rest)) ≡ true) where
  abbrev chain : List Migration
  chain = done ++ (m ∷ rest)

  abbrev Applied : World → List AppliedMigration × World × Bool → Type 0
  Applied = Applies lib pg chain done m

  -- Nothing but the schema has changed.
  Failed-Applied :
      (w v : World) → Steps lib pg chain done w done v → Applied w (map row_of done, v, false)
  Failed-Applied w v steps = record {
    last = done;
    steps = steps;
    rows = refl;
    complete = λ e. absurd (false≢true e);
  }

  pub record_migration-Applied :
      (reply : Reply) (w before after : World)
      → Steps lib pg chain done w done before
      → Steps lib pg chain done w (done ++ (m ∷ [])) after
      → Applied w (record_migration reply m (map row_of done) before after)
  unfolding record_migration
  record_migration-Applied served w before after h k =
      rw (record_migration, inserted done rest m c)
        (record { last = done ++ (m ∷ []); steps = k; rows = refl; complete = λ e. refl })
  record_migration-Applied refused w before after h k =
      rw (record_migration, inserted done rest m c) (Failed-Applied w before h)
  record_migration-Applied lost w before after h k =
      rw (record_migration, inserted done rest m c)
        (record { last = done ++ (m ∷ []); steps = k; rows = refl; complete = λ e. refl })

  apply_transaction-Applied :
      (reply : Reply) (w : World) (ran : Option World)
      → m.transactional ≡ true
      → pg.exec m.body w ≡ ran
      → Applied w (apply_transaction reply m (map row_of done) w ran)
  unfolding apply_transaction
  apply_transaction-Applied reply w none t e = Failed-Applied w w here
  apply_transaction-Applied reply w (some after) t e =
      record_migration-Applied reply w w after here (step (migrated m rest refl t e) here)

  module _ (alone : m.transactional ≡ false) where
    exec_statements-Steps :
        (all left : List Text) (w v : World)
        → split_sql_statements m.sql ≡ ok all
        → ((s : Text) → In s left → In s all)
        → Steps lib pg chain done w done v
        → Steps lib pg chain done w done (exec_statements pg left v).0
    unfolding exec_statements
    exec_statements-Steps all [] w v e sub h = h
    exec_statements-Steps all (s ∷ left) w v e sub h = elim (Option-cases (pg.exec s v)) [
      | inl q ↦ rw (q, exec_statements) h
      | inr (after, q) ↦
          rw (q, exec_statements)
            (exec_statements-Steps all left w after e (λ t i. sub t (inr i))
              (Steps-append lib pg chain h
                (step (executed m rest all s refl alone e (sub s (inl refl)) q) here)))
    ]

    verified-Applied :
        (reply : Reply) (w v : World) (state : Answer (Bool × Bool))
        → non_transactional_state pg m.version v ≡ state
        → Steps lib pg chain done w done v
        → Applied w (verified reply m (map row_of done) v state)
    unfolding verified
    verified-Applied reply w v (err e) q h = Failed-Applied w v h
    verified-Applied reply w v (ok (false, partial)) q h = Failed-Applied w v h
    verified-Applied reply w v (ok (true, true)) q h = Failed-Applied w v h
    verified-Applied reply w v (ok (true, false)) q h =
        record_migration-Applied reply w v v h
          (Steps-append lib pg chain h (step (completed m rest refl alone q) here))

    run_statements-Applied :
        (reply : Reply) (w : World) (split : Answer (List Text))
        → split_sql_statements m.sql ≡ split
        → Applied w (run_statements pg reply m (map row_of done) w split)
    unfolding run_statements
    run_statements-Applied reply w (err e) q = Failed-Applied w w here
    run_statements-Applied reply w (ok statements) q =
        let after = exec_statements-Steps statements statements w w q (λ s i. i) here in
        either_way (Applied w) (exec_statements pg statements w).1 _ _
          (verified-Applied reply w (exec_statements pg statements w).0 _ refl after)
          (Failed-Applied w (exec_statements pg statements w).0 after)

    apply_alone-Applied :
        (reply : Reply) (w : World) (state : Answer (Bool × Bool))
        → non_transactional_state pg m.version w ≡ state
        → Applied w (apply_alone lib pg reply m (map row_of done) w state)
    unfolding apply_alone
    apply_alone-Applied reply w (err e) q = Failed-Applied w w here
    apply_alone-Applied reply w (ok (complete, true)) q = Failed-Applied w w here
    apply_alone-Applied reply w (ok (true, false)) q =
        record_migration-Applied reply w w w here (step (completed m rest refl alone q) here)
    apply_alone-Applied reply w (ok (false, false)) q = run_statements-Applied reply w _ refl

  pub apply-Applied :
      (reply : Reply) (w : World) → Applied w (apply lib pg reply m (map row_of done) w)
  unfolding apply
  apply-Applied reply w = chosen m.transactional refl
    where
      chosen :
          (b : Bool)
          → m.transactional ≡ b
          → Applied w (
              if b
              then apply_transaction reply m (map row_of done) w (pg.exec m.body w)
              else apply_alone lib pg reply m
                  (map row_of done)
                  w
                  (non_transactional_state pg m.version w))
      chosen true e = apply_transaction-Applied reply w _ e refl
      chosen false e = apply_alone-Applied e reply w _ refl
