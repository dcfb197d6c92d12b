-- ===== src/Migrate/History/Prefix.antt =====
-- A history of internal/migrate that passes validateApplied is the start of the chain.
use im_backend.Prelude.{
  ok, err, err-ok, false≢true, ℕ, zero, suc, ◌<◌, ◌≤◌, ◌≡◌, refl, sym, subst, ◌∙◌, inl, inr, true,
  false, List, [], ◌∷◌, arith, ==_iff, Bool-cases, any, length,
}
use im_backend.Migrate.{AppliedMigration, Answer, history_gap}
use im_backend.Migrate.History.{has_version, is_applied, and_then, check_gaps}

-- The rows of a table in the order of their primary key, all after `n`.
abbrev pub InOrder : ℕ → List AppliedMigration → Type 0
InOrder n [] = Unit
InOrder n (a ∷ rest) = (n < a.version) × InOrder a.version rest

-- The versions of the rows are those after `n`, one by one.
abbrev pub Numbered : ℕ → List AppliedMigration → Type 0
Numbered n [] = Unit
Numbered n (a ∷ rest) = (a.version ≡ suc n) × Numbered (suc n) rest

pub both_ok : (a b : Answer (Unit {0})) → and_then a b ≡ ok tt → (a ≡ ok tt) × (b ≡ ok tt)
unfolding and_then
both_ok (ok tt) b h = (refl, h)
both_ok (err e) b h = absurd (err-ok e tt h)

InOrder-weaker : (n m : ℕ) (rows : List AppliedMigration) → m ≤ n → InOrder n rows → InOrder m rows
InOrder-weaker n m [] l h = tt
InOrder-weaker n m (a ∷ rest) l h = (omega (arith, h.0, l), h.1)

absent_below :
    (n v : ℕ) (rows : List AppliedMigration) → v ≤ n → InOrder n rows → is_applied v rows ≡ false
unfolding is_applied
absent_below n v [] l h = refl
absent_below n v (a ∷ rest) l h =
    rw (other) (absent_below a.version v rest (omega (arith, h.0, l)) h.1)
  where
    other : has_version v a ≡ false
    other = ground (arith, h.0)

-- Rows without a gap among as many versions as there are rows.
check_gaps-some :
    (n left : ℕ) (rows : List AppliedMigration)
    → check_gaps n (suc left) rows ≡ ok tt
    → (is_applied (suc n) rows ≡ true) × (check_gaps (suc n) left rows ≡ ok tt)
unfolding check_gaps
check_gaps-some n left rows h = elim (Bool-cases (is_applied (suc n) rows)) [
  | inl e ↦ (e, rw e at h)
  | inr e ↦ absurd (err-ok history_gap tt (rw e at h))
]

-- A row that is too early does not count.
check_gaps-tail :
    (n left : ℕ) (a : AppliedMigration) (rest : List AppliedMigration)
    → a.version ≤ n
    → check_gaps n left (a ∷ rest) ≡ ok tt
    → check_gaps n left rest ≡ ok tt
unfolding check_gaps is_applied
check_gaps-tail n zero a rest l h = refl
check_gaps-tail n (suc left) a rest l h =
    let (e, k) = check_gaps-some n left (a ∷ rest) h in
    rw (later (rw other at e)) (check_gaps-tail (suc n) left a rest (omega (arith, l)) k)
  where
    other : has_version (suc n) a ≡ false
    other = ground (arith, l)

    later : any (has_version (suc n)) rest ≡ true → is_applied (suc n) rest ≡ true
    later e = e

pub InOrder-Numbered :
    (n : ℕ) (rows : List AppliedMigration)
    → InOrder n rows
    → check_gaps n (length rows) rows ≡ ok tt
    → Numbered n rows
unfolding is_applied
InOrder-Numbered n [] o h = tt
InOrder-Numbered n (a ∷ rest) o h =
    let (e, k) = check_gaps-some n (length rest) (a ∷ rest) h in
    let first = own e in
    (
      first,
      InOrder-Numbered (suc n) rest (subst (λ v. InOrder v rest) first o.1)
          (check_gaps-tail (suc n) (length rest) a rest (omega (arith, first)) k),
    )
  where
    own : is_applied (suc n) (a ∷ rest) ≡ true → a.version ≡ suc n
    own e = elim (Bool-cases (has_version (suc n) a)) [
      | inl f ↦ (==_iff a.version (suc n)).0 f
      | inr f ↦ absurd (
          false≢true
            (sym (absent_below a.version (suc n) rest (omega (arith, o.0)) o.1) ∙ (rw f at e)))
    ]
