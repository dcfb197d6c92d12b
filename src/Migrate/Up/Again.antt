-- ===== src/Migrate/Up/Again.antt =====
-- A database of internal/migrate at the end of the chain is ready, and Up leaves it as it is.
use im_backend.Prelude.{
  ok, append-nil, ℕ, suc, ◌≡◌, refl, sym, ap, subst, ◌∙◌, Bool, true, List, [], ◌∷◌, Option, some,
  ==_refl, map, length,
}
use im_backend.Outbox.Types.{Reply}
use im_backend.Migrate.{Migration, AppliedMigration, Library}
use im_backend.Migrate.Load.{Entry, is_chain, load}
use im_backend.Migrate.History.{row_of, validate_applied, validate_ready, and_then}
use im_backend.Migrate.History.Prefix.{InOrder}
use im_backend.Migrate.History.Chain.{start_is_valid}
use im_backend.Migrate.Apply.{Postgres, Database, recorded}
use im_backend.Migrate.Up.{up_loop, up_checked, up_from, up, ensure_history, check_ready}
use im_backend.Migrate.Up.Refines.{loop-skip, applied}
use im_backend.Migrate.Up.Ready.{load-is_chain, up_advances_along_chain}

length-map : (ms : List Migration) → length (map row_of ms) ≡ length ms
length-map [] = refl
length-map (m ∷ ms) = ap suc (length-map ms)

whole_is_valid :
    (ms : List Migration) → is_chain 0 ms ≡ true → validate_applied ms (map row_of ms) ≡ ok tt
whole_is_valid ms c =
    subst (λ l. validate_applied l (map row_of ms) ≡ ok tt) (append-nil ms)
      (start_is_valid ms [] (subst (λ l. is_chain 0 l ≡ true) (sym (append-nil ms)) c))

whole_is_ready :
    (ms : List Migration) → is_chain 0 ms ≡ true → validate_ready ms (map row_of ms) ≡ ok tt
unfolding validate_ready and_then
whole_is_ready ms c = rw (whole_is_valid ms c, length-map ms, ==_refl (length ms)) refl

module _ {World : Type 0} (lib : Library) (pg : Postgres World) (ms : List Migration)
    (c : is_chain 0 ms ≡ true) where
  ready_database : (w : World) → check_ready (ok ms) (recorded (map row_of ms) w) ≡ ok tt
  unfolding check_ready
  ready_database w = rw (check_ready, whole_is_ready ms c) refl

  whole_loop :
      (allow : Bool) (replies : ℕ → Reply) (w : World)
      → up_loop lib pg allow replies (map row_of ms) ms (map row_of ms) w ≡ (map row_of ms, w, true)
  unfolding up_loop
  whole_loop allow replies w =
      ap (λ l. up_loop lib pg allow replies (map row_of ms) l (map row_of ms) w)
        (sym (append-nil ms))
      ∙ loop-skip lib pg allow replies ms c (map row_of ms) ms [] (map row_of ms) w (applied ms)

  up_again :
      (allow : Bool) (replies : ℕ → Reply) (w : World)
      → up lib pg allow replies (ok ms) (recorded (map row_of ms) w)
        ≡ (recorded (map row_of ms) w, ok tt)
  unfolding up up_from up_checked ensure_history
  up_again allow replies w = rw (whole_is_valid ms c, up_checked, whole_loop allow replies w) refl

  at_end :
      (db : Database World)
      → db.history ≡ some (map row_of ms)
      → (check_ready (ok ms) db ≡ ok tt)
        × ((allow : Bool) (replies : ℕ → Reply) → up lib pg allow replies (ok ms) db ≡ (db, ok tt))
  at_end db e =
      subst
        (λ (d : Database World).
          (check_ready (ok ms) d ≡ ok tt)
          × ((allow : Bool) (replies : ℕ → Reply) → up lib pg allow replies (ok ms) d ≡ (d, ok tt)))
        (sym
          (ap (λ (h : Option (List AppliedMigration)). record { history = h; world = db.world }) e))
        (ready_database db.world, λ allow replies. up_again allow replies db.world)

-- After an Up without an error, from a history in the order of its key that passes its check, CheckReady
-- lets the application start, and any further Up does nothing and reports no error.
pub successful_up_is_ready :
    {World : Type 0} (lib : Library) (pg : Postgres World) (allow : Bool) (replies : ℕ → Reply)
    (entries : List Entry) (ms : List Migration) (rows : List AppliedMigration)
    (db : Database World)
    → load lib entries ≡ ok ms
    → ensure_history pg db ≡ some rows
    → InOrder 0 rows
    → validate_applied ms rows ≡ ok tt
    → (up lib pg allow replies (load lib entries) db).1 ≡ ok tt
    → let after = (up lib pg allow replies (load lib entries) db).0 in
      (check_ready (load lib entries) after ≡ ok tt)
      × ((again : Bool) (fates : ℕ → Reply)
          → up lib pg again fates (load lib entries) after ≡ (after, ok tt))
successful_up_is_ready lib pg allow replies entries ms rows db l h o v done =
    let (first, last, _, _, history, _, complete) =
      up_advances_along_chain lib pg allow replies entries ms rows db l h o v in
    let after = (up lib pg allow replies (load lib entries) db).0 in
    subst
      (λ r.
        (check_ready r after ≡ ok tt)
        × ((again : Bool) (fates : ℕ → Reply) → up lib pg again fates r after ≡ (after, ok tt)))
      (sym l)
      (at_end lib pg ms (load-is_chain lib entries ms l) after
        (history ∙ ap (λ (x : List Migration). some (map row_of x)) (complete done)))
