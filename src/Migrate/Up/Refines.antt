-- ===== src/Migrate/Up/Refines.antt =====
-- Up of internal/migrate takes the steps of Advance, and brings the database to the end of the chain or
-- reports an error.
use im_backend.Prelude.{
  err-ok, ok, false≢true, ℕ, suc, ◌<◌, ◌≡◌, refl, sym, ap, subst, ◌∙◌, inl, inr, Bool, true, false,
  List, [], ◌∷◌, ◌++◌, some, arith, ==_refl, if◌then◌else◌, either_way, In, In-any, map-In, map,
  append_assoc, append-nil,
}
use im_backend.Outbox.Types.{Reply}
use im_backend.Migrate.{Migration, AppliedMigration, Answer, Library}
use im_backend.Migrate.Load.{is_chain}
use im_backend.Migrate.History.{has_version, is_applied, row_of}
use im_backend.Migrate.History.Chain.{chain_head}
use im_backend.Migrate.Apply.{Postgres, Database, apply}
use im_backend.Migrate.Up.{needs_maintenance, up_loop, finished}
use im_backend.Migrate.Up.Advance.{Steps, here, Steps-append, Applies}
use im_backend.Migrate.Up.Applied.{apply-Applied}

chain_later :
    (n : ℕ) (ms : List Migration) (m : Migration) → is_chain n ms ≡ true → In m ms → n < m.version
unfolding is_chain
chain_later n [] m c i = absurd i.1
chain_later n (d ∷ ms) m c (inl e) =
    subst (λ (x : Migration). n < x.version) e (omega (arith, (chain_head n d ms c).0))
chain_later n (d ∷ ms) m c (inr i) =
    omega (arith, chain_later (suc n) ms m (chain_head n d ms c).1 i)

-- What is behind the recorded migrations is not applied, they are.
not_applied :
    (n : ℕ) (done rest : List Migration) (m : Migration)
    → is_chain n (done ++ rest) ≡ true
    → In m rest
    → is_applied m.version (map row_of done) ≡ false
unfolding is_applied is_chain
not_applied n [] rest m c i = refl
not_applied n (d ∷ done) rest m c i =
    let (own, next) = chain_head n d (done ++ rest) c in
    rw (other own (chain_later (suc n) (done ++ rest) m next (behind done i)))
      (not_applied (suc n) done rest m next i)
  where
    behind : (done : List Migration) → In m rest → In m (done ++ rest)
    behind [] i = i
    behind (x ∷ xs) i = inr (behind xs i)

    other : d.version ≡ suc n → suc n < m.version → has_version m.version (row_of d) ≡ false
    other e l = ground (arith, e, l)

pub applied :
    (done : List Migration) (m : Migration)
    → In m done
    → is_applied m.version (map row_of done) ≡ true
unfolding is_applied
applied done m i =
    In-any (has_version m.version) (map row_of done) (row_of m) (map-In row_of done m i)
      (==_refl m.version)

-- Where Up ends: steps lead there, and it is the end of the chain where there is no error.
pub record Ends {World : Type 0} (lib : Library) (pg : Postgres World) (ms done : List Migration)
    (w : World) (result : List AppliedMigration × World × Bool) : Type 0 where
  pub last : List Migration
  pub steps : Steps lib pg ms done w last result.1
  pub rows : result.0 ≡ map row_of last
  pub complete : result.2 ≡ true → last ≡ ms

module _ {World : Type 0} (lib : Library) (pg : Postgres World) (allow : Bool) (replies : ℕ → Reply)
    (ms : List Migration) (c : is_chain 0 ms ≡ true) (read : List AppliedMigration) where
  abbrev loop :
      List Migration → List AppliedMigration → World → List AppliedMigration × World × Bool
  loop = up_loop lib pg allow replies read

  Ends-later :
      (done next : List Migration) (w v : World) (result : List AppliedMigration × World × Bool)
      → Steps lib pg ms done w next v
      → Ends lib pg ms next v result
      → Ends lib pg ms done w result
  Ends-later done next w v result h e = record {
    last = e.last;
    steps = Steps-append lib pg ms h e.steps;
    rows = e.rows;
    complete = e.complete;
  }

  stopped :
      (done last : List Migration) (w v : World) (rows : List AppliedMigration)
      → Steps lib pg ms done w last v
      → rows ≡ map row_of last
      → Ends lib pg ms done w (rows, v, false)
  stopped done last w v rows h e = record {
    last = last;
    steps = h;
    rows = e;
    complete = λ q. absurd (false≢true q);
  }

  -- A migration and those behind it.
  after_one :
      (done rest : List Migration) (m : Migration) (w : World)
      (result : List AppliedMigration × World × Bool)
      → Applies lib pg ms done m w result
      → ((v : World)
          → Ends lib pg ms (done ++ (m ∷ [])) v (loop rest (map row_of (done ++ (m ∷ []))) v))
      → Ends lib pg ms done w
          (if result.2 then loop rest result.0 result.1 else (result.0, result.1, false))
  after_one done rest m w (rows, v, false) a k = stopped done a.last w v rows a.steps a.rows
  after_one done rest m w (rows, v, true) a k =
      Ends-later done (done ++ (m ∷ [])) w v (loop rest rows v)
        (subst (λ l. Steps lib pg ms done w l v) (a.complete refl) a.steps)
        (subst (λ rs. Ends lib pg ms (done ++ (m ∷ [])) v (loop rest rs v))
          (sym (a.rows ∙ ap (map row_of) (a.complete refl))) (k v))

  loop-Ends :
      (done rest : List Migration) (w : World)
      → ms ≡ done ++ rest
      → ((m : Migration) → In m rest → is_applied m.version read ≡ false)
      → Ends lib pg ms done w (loop rest (map row_of done) w)
  unfolding up_loop
  loop-Ends done [] w e absent = record {
    last = done;
    steps = here;
    rows = refl;
    complete = λ q. sym (e ∙ append-nil done);
  }
  loop-Ends done (m ∷ rest) w e absent = rw (absent m (inl refl)) (
      either_way (Ends lib pg ms done w) (needs_maintenance pg allow m w) _ _
        (stopped done done w w (map row_of done) here refl)
        (after_one done rest m w (apply lib pg (replies m.version) m (map row_of done) w)
          (subst
            (λ l.
              Applies lib pg l done m w (apply lib pg (replies m.version) m (map row_of done) w))
            (sym e)
            (apply-Applied lib pg done rest m (subst (λ l. is_chain 0 l ≡ true) e c)
              (replies m.version) w))
          (λ v.
            loop-Ends (done ++ (m ∷ [])) rest v (e ∙ sym (append_assoc done (m ∷ []) rest))
              (λ n i. absent n (inr i)))))

  -- What is applied already is passed over.
  pub loop-skip :
      (done rest : List Migration) (rows : List AppliedMigration) (w : World)
      → ((m : Migration) → In m done → is_applied m.version read ≡ true)
      → loop (done ++ rest) rows w ≡ loop rest rows w
  unfolding up_loop
  loop-skip [] rest rows w h = refl
  loop-skip (m ∷ done) rest rows w h =
      rw (h m (inl refl)) (loop-skip done rest rows w (λ n i. h n (inr i)))

pub up_loop-Ends :
    {World : Type 0} (lib : Library) (pg : Postgres World) (allow : Bool) (replies : ℕ → Reply)
    (done rest : List Migration) (w : World)
    → is_chain 0 (done ++ rest) ≡ true
    → Ends lib pg
        (done ++ rest)
        done
        w
        (up_loop lib pg allow replies (map row_of done) (done ++ rest) (map row_of done) w)
up_loop-Ends lib pg allow replies done rest w c =
    subst (Ends lib pg (done ++ rest) done w)
      (sym (
        loop-skip lib pg allow replies (done ++ rest) c (map row_of done) done rest
          (map row_of done) w (applied done)))
      (loop-Ends lib pg allow replies (done ++ rest) c (map row_of done) done rest w refl
        (λ m i. not_applied 0 done rest m c i))

-- Where Up has left the database, and what it says.
pub record Reached {World : Type 0} (lib : Library) (pg : Postgres World) (ms done : List Migration)
    (w : World) (after : Database World) (answer : Answer (Unit {0})) : Type 0 where
  pub last : List Migration
  pub steps : Steps lib pg ms done w last after.world
  pub rows : after.history ≡ some (map row_of last)
  pub complete : answer ≡ ok tt → last ≡ ms

pub finished-Reached :
    {World : Type 0} (lib : Library) (pg : Postgres World) (ms done : List Migration) (w : World)
    (result : List AppliedMigration × World × Bool)
    → Ends lib pg ms done w result
    → Reached lib pg ms done w (finished result).0 (finished result).1
finished-Reached lib pg ms done w (rows, v, true) e = record {
  last = e.last;
  steps = e.steps;
  rows = ap some e.rows;
  complete = λ q. e.complete refl;
}
finished-Reached lib pg ms done w (rows, v, false) e = record {
  last = e.last;
  steps = e.steps;
  rows = ap some e.rows;
  complete = λ q. absurd (err-ok _ tt q);
}
