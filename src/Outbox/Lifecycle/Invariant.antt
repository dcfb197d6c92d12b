-- ===== src/Outbox/Lifecycle/Invariant.antt =====
-- The invariant of outbox_events (the checks of schema.sql and the origin of the tokens), kept by
-- every statement of outbox.go.
use im_backend.Prelude.{
  some-injective, ℕ, suc, ◌≡◌, refl, sym, ap, subst, ◌<◌, inl, inr, Bool, true, false, ◌||◌, not,
  List, [], ◌∷◌, none, some, arith, Bool-cases, In, zero, DistinctBy-map, DistinctBy-keep,
}
use im_backend.Outbox.Types.{Row, OutboxWorkerConfig, Reply, served, refused, lost, is_none}
use im_backend.Outbox.Claim.{lease, lease_rows, claim, chosen}
use im_backend.Outbox.Claim.Sound.{UniqueIds}
use im_backend.Outbox.Mark.{
  update_where, exec_update, set_published, set_dead, set_retry, mark_published,
  mark_published_batch, mark_failed, gives_up,
}
use im_backend.Outbox.Cleanup.{cleanup_published, named_in, doomed}
use im_backend.Outbox.Lifecycle.{
  Table, Step, claims, publishes, publishes_batch, fails, cleans, adds, Reach, here, next, Change,
  kept, leased, published, buried, put_back, is_open,
}
use im_backend.Outbox.Lifecycle.Refine.{Step-Refines}

-- One row: the lock's two fields go together, a row is not both published and dead, a finished row
-- carries no lock, and a token was drawn for this row by one of the first `n` statements.
pub record IsSound (uuid : ℕ → ℕ → ℕ) (n : ℕ) (r : Row) : Type 0 where
  pub paired : is_none r.locked_until ≡ is_none r.lock_token
  pub single : (is_none r.published_at || is_none r.dead_at) ≡ true
  pub released : is_open r ≡ false → r.lock_token ≡ none
  pub issued : (t : ℕ) → r.lock_token ≡ some t → (k : ℕ) × (k < n) × (t ≡ uuid k r.event_id)

pub record IsSafe (uuid : ℕ → ℕ → ℕ) (t : Table) : Type 0 where
  pub unique : UniqueIds t.rows
  pub sound : (r : Row) → In r t.rows → IsSound uuid t.statements r

module _ (uuid : ℕ → ℕ → ℕ) where
  IsSound-later :
      (n m : ℕ) (r : Row) → ((k : ℕ) → k < n → k < m) → IsSound uuid n r → IsSound uuid m r
  IsSound-later n m r up s = record {
    paired = s.paired;
    single = s.single;
    released = s.released;
    issued = λ t e. let (k, lt, o) = s.issued t e in (k, up k lt, o);
  }

  -- After its own change a row is sound for the next number of a statement.
  Change-IsSound :
      (n : ℕ) (r r' : Row) → Change uuid n r r' → IsSound uuid n r → IsSound uuid (suc n) r'
  unfolding lease set_published set_dead set_retry
  Change-IsSound n r r' kept s = IsSound-later n (suc n) r (λ k h. omega arith) s
  Change-IsSound n r r' (leased config now o) s = record {
    paired = refl;
    single = s.single;
    released = λ closed. absurd (cc);
    issued = λ t e. (n, omega arith, sym (some-injective _ _ e));
  }
  Change-IsSound n r r' (published now o) s = record {
    paired = refl;
    single = ground arith;
    released = λ closed. refl;
    issued = λ t e. absurd (cc);
  }
  Change-IsSound n r r' (buried now text o) s = record {
    paired = refl;
    single = ground arith;
    released = λ closed. refl;
    issued = λ t e. absurd (cc);
  }
  Change-IsSound n r r' (put_back at text o) s = record {
    paired = refl;
    single = s.single;
    released = λ closed. refl;
    issued = λ t e. absurd (cc);
  }

  lease_rows-UniqueIds :
      (config : OutboxWorkerConfig) (token : ℕ → ℕ) (now : ℕ) (picked rows : List Row)
      → UniqueIds rows
      → UniqueIds (lease_rows config token now picked rows)
  unfolding lease_rows lease
  lease_rows-UniqueIds config token now picked rows =
      DistinctBy-map (λ r. r.event_id) _ rows
        λ r. elim (Bool-cases (chosen picked r)) [ inl e ↦ rw e | inr e ↦ rw e ]

  claim-UniqueIds :
      (config : OutboxWorkerConfig) (token : ℕ → ℕ) (locked : ℕ → Bool) (reply : Reply) (now : ℕ)
      (rows : List Row)
      → UniqueIds rows
      → UniqueIds (claim config token locked reply now rows).0
  unfolding claim
  claim-UniqueIds config token locked served now rows = lease_rows-UniqueIds config token now _ rows
  claim-UniqueIds config token locked refused now rows = λ u. u
  claim-UniqueIds config token locked lost now rows = lease_rows-UniqueIds config token now _ rows

  update_where-UniqueIds :
      (test : Row → Bool) (change : Row → Row) (rows : List Row)
      → ((r : Row) → (change r).event_id ≡ r.event_id)
      → UniqueIds rows
      → UniqueIds (update_where test change rows)
  unfolding update_where
  update_where-UniqueIds test change rows same =
      DistinctBy-map (λ r. r.event_id) _ rows
        λ r. elim (Bool-cases (test r)) [ inl e ↦ rw e (same r) | inr e ↦ rw e ]

  exec_update-UniqueIds :
      (test : Row → Bool) (change : Row → Row) (wanted : ℕ) (reply : Reply) (rows : List Row)
      → ((r : Row) → (change r).event_id ≡ r.event_id)
      → UniqueIds rows
      → UniqueIds (exec_update test change wanted reply rows).0
  unfolding exec_update
  exec_update-UniqueIds test change wanted served rows same =
      update_where-UniqueIds test change rows same
  exec_update-UniqueIds test change wanted refused rows same = λ u. u
  exec_update-UniqueIds test change wanted lost rows same =
      update_where-UniqueIds test change rows same

  Step-UniqueIds : {t u : Table} → Step uuid t u → UniqueIds t.rows → UniqueIds u.rows
  unfolding mark_published mark_published_batch mark_failed cleanup_published set_published set_dead
      set_retry
  Step-UniqueIds {t} (claims config locked reply now) d =
      claim-UniqueIds config (uuid t.statements) locked reply now t.rows d
  Step-UniqueIds {t} (publishes reply now event) d =
      exec_update-UniqueIds _ _ 1 reply t.rows (λ r. refl) d
  Step-UniqueIds (publishes_batch reply now []) d = d
  Step-UniqueIds {t} (publishes_batch reply now (e ∷ events)) d =
      exec_update-UniqueIds _ _ _ reply t.rows (λ r. refl) d
  Step-UniqueIds {t} (fails config jitter reply now event error) d =
      elim (Bool-cases (gives_up config event error)) [
        | inl e ↦ rw e (exec_update-UniqueIds _ _ 1 reply t.rows (λ r. refl) d)
        | inr e ↦ rw e (exec_update-UniqueIds _ _ 1 reply t.rows (λ r. refl) d)
      ]
  Step-UniqueIds (cleans older_than zero deleted rows h) d = cc
  Step-UniqueIds {t} (cleans older_than (suc k) deleted rows h) d =
      subst UniqueIds (ap (λ p. p.0) (some-injective _ _ h)) (
        DistinctBy-keep (λ r. r.event_id) (λ r. not (named_in (doomed older_than (suc k) t.rows) r))
          t.rows d)
  Step-UniqueIds (adds r fresh o token until) d = (fresh, d)

  pub statements-Step : {t u : Table} → Step uuid t u → u.statements ≡ suc t.statements
  statements-Step (claims config locked reply now) = refl
  statements-Step (publishes reply now event) = refl
  statements-Step (publishes_batch reply now events) = refl
  statements-Step (fails config jitter reply now event error) = refl
  statements-Step (cleans older_than batch_size deleted rows h) = refl
  statements-Step (adds r fresh o token until) = refl

  pub new-IsSound :
      (n : ℕ) (r : Row)
      → is_open r ≡ true
      → r.lock_token ≡ none
      → r.locked_until ≡ none
      → IsSound uuid n r
  new-IsSound n r o token until = record {
    paired = rw (token, until);
    single = ground arith;
    released = λ closed. absurd (cc);
    issued = λ t e. absurd (cc);
  }

  -- Every statement of any worker keeps the invariant, whether its result arrives or not: ids stay
  -- unique, the two fields of a lock go together, no row is both published and dead, no finished
  -- row is locked, and every token was drawn for its own row.
  pub Step-IsSafe : {t u : Table} → Step uuid t u → IsSafe uuid t → IsSafe uuid u
  Step-IsSafe {t} {u} st s = record {
    unique = Step-UniqueIds st s.unique;
    sound = λ r' m. rw (statements-Step st) (elim (Step-Refines uuid st s.unique r' m) [
      | inl (o, token, until) ↦ new-IsSound (suc t.statements) r' o token until
      | inr (r, i, change) ↦ Change-IsSound t.statements r r' change (s.sound r i)
    ]);
  }

  pub Reach-IsSafe : {t u : Table} → IsSafe uuid t → Reach uuid t u → IsSafe uuid u
  Reach-IsSafe s here = s
  Reach-IsSafe s (next r st) = Step-IsSafe st (Reach-IsSafe s r)
