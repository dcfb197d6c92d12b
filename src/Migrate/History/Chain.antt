-- ===== src/Migrate/History/Chain.antt =====
-- A history of internal/migrate passes its check where it is the start of the chain, and only there.
use im_backend.Prelude.{
  err-ok, ok, ℕ, zero, suc, ◌≤◌, ◌≡◌, refl, sym, ap, ◌∙◌, inl, inr, true, false, List, [], ◌∷◌,
  ◌++◌, some, arith, ==_iff, ==_refl, ◌==◌, Bool-cases, any, map, length,
}
use im_backend.Messages.Store.{text_eq}
use im_backend.Messages.Consistency.{text_eq_refl, text_eq_sound}
use im_backend.Migrate.{
  Migration, AppliedMigration, unknown_version, name_changed, checksum_changed,
}
use im_backend.Migrate.Load.{is_chain}
use im_backend.Migrate.History.{
  has_version, is_applied, find_migration, check_recorded, and_then, check_all, check_gaps,
  validate_applied, row_of,
}
use im_backend.Migrate.History.Prefix.{InOrder, Numbered, InOrder-Numbered, both_ok}

-- The rows are those of the first migrations.
abbrev pub IsStart : List Migration → List AppliedMigration → Type 0
IsStart ms rows =
    (done : List Migration) × (rest : List Migration) × (ms ≡ done ++ rest)
    × (rows ≡ map row_of done)

pub chain_head :
    (n : ℕ) (m : Migration) (ms : List Migration)
    → is_chain n (m ∷ ms) ≡ true
    → (m.version ≡ suc n) × (is_chain (suc n) ms ≡ true)
unfolding is_chain
chain_head n m ms h = ground arith

recorded_row :
    (a : AppliedMigration) (m : Migration)
    → a.version ≡ m.version
    → check_recorded a (some m) ≡ ok tt
    → a ≡ row_of m
unfolding check_recorded
recorded_row a m v h = elim (Bool-cases (text_eq a.name m.name)) [
  | inr e ↦ absurd (err-ok name_changed tt (rw e at h))
  | inl e ↦ elim (Bool-cases (text_eq a.checksum m.checksum)) [
    | inr f ↦ absurd (err-ok checksum_changed tt (rw (e, f) at h))
    | inl f ↦ same (text_eq_sound a.name m.name e) (text_eq_sound a.checksum m.checksum f)
  ]
]
  where
    same : a.name ≡ m.name → a.checksum ≡ m.checksum → a ≡ row_of m
    same n c =
        ap (λ v. record { version = v; name = a.name; checksum = a.checksum }) v
        ∙ ap (λ n. record { version = m.version; name = n; checksum = a.checksum }) n
        ∙ ap (λ c. record { version = m.version; name = m.name; checksum = c }) c

-- A migration before all the rows is not looked at.
check_all-later :
    (n k : ℕ) (m : Migration) (ms : List Migration) (rows : List AppliedMigration)
    → m.version ≡ n
    → n ≤ k
    → Numbered k rows
    → check_all (m ∷ ms) rows ≡ check_all ms rows
unfolding check_all find_migration
check_all-later n k m ms [] e l h = refl
check_all-later n k m ms (a ∷ rest) e l h =
    rw (other, check_all-later n (suc k) m ms rest e (omega (arith, l)) h.1) refl
  where
    other : (m.version == a.version) ≡ false
    other = ground (arith, h.0, l, e)

pub Numbered-IsStart :
    (n : ℕ) (ms : List Migration) (rows : List AppliedMigration)
    → is_chain n ms ≡ true
    → Numbered n rows
    → check_all ms rows ≡ ok tt
    → IsStart ms rows
unfolding check_all find_migration check_recorded
Numbered-IsStart n ms [] c h k = ([], ms, refl, refl)
Numbered-IsStart n [] (a ∷ rest) c h k =
    absurd (err-ok unknown_version tt (both_ok _ (check_all [] rest) k).0)
Numbered-IsStart n (m ∷ ms) (a ∷ rest) c h k =
    let (v, later) = chain_head n m ms c in
    let (one, all) = both_ok _ (check_all (m ∷ ms) rest) k in
    let own = recorded_row a m (h.0 ∙ sym v) (rw (here v) at one) in
    let (done, left, e, q) =
      Numbered-IsStart (suc n) ms rest later h.1
        (sym (check_all-later (suc n) (suc n) m ms rest v (omega arith) h.1) ∙ all) in
    (m ∷ done, left, ap (◌∷◌ m) e, ap (λ x. x ∷ rest) own ∙ ap (◌∷◌ (row_of m)) q)
  where
    here : m.version ≡ suc n → (m.version == a.version) ≡ true
    here v = (==_iff m.version a.version).1 (v ∙ sym h.0)

-- A history in the order of its key that passes is the start of the chain.
pub valid_history-IsStart :
    (ms : List Migration) (rows : List AppliedMigration)
    → is_chain 0 ms ≡ true
    → InOrder 0 rows
    → validate_applied ms rows ≡ ok tt
    → IsStart ms rows
unfolding validate_applied
valid_history-IsStart ms rows c o h =
    let (all, gaps) = both_ok (check_all ms rows) (check_gaps 0 (length rows) rows) h in
    Numbered-IsStart 0 ms rows c (InOrder-Numbered 0 rows o gaps) all

pub start-Numbered :
    (n : ℕ) (done rest : List Migration)
    → is_chain n (done ++ rest) ≡ true
    → Numbered n (map row_of done)
start-Numbered n [] rest c = tt
start-Numbered n (m ∷ done) rest c =
    let (v, later) = chain_head n m (done ++ rest) c in (v, start-Numbered (suc n) done rest later)

start-check_all :
    (n : ℕ) (done rest : List Migration)
    → is_chain n (done ++ rest) ≡ true
    → check_all (done ++ rest) (map row_of done) ≡ ok tt
unfolding check_all find_migration check_recorded and_then
start-check_all n [] rest c = refl
start-check_all n (m ∷ done) rest c =
    let (v, later) = chain_head n m (done ++ rest) c in
    rw
      (
        ==_refl m.version,
        text_eq_refl m.name,
        text_eq_refl m.checksum,
        check_all-later (suc n) (suc n) m (done ++ rest) (map row_of done) v (omega arith)
            (start-Numbered (suc n) done rest later),
      )
      (start-check_all (suc n) done rest later)

check_gaps-more :
    (n left : ℕ) (a : AppliedMigration) (rows : List AppliedMigration)
    → check_gaps n left rows ≡ ok tt
    → check_gaps n left (a ∷ rows) ≡ ok tt
unfolding check_gaps is_applied
check_gaps-more n zero a rows h = refl
check_gaps-more n (suc left) a rows h = elim (Bool-cases (any (has_version (suc n)) rows)) [
  | inr e ↦ absurd (err-ok _ tt (rw (e) at h))
  | inl e ↦ rw (shown e) (check_gaps-more (suc n) left a rows (rw e at h))
]
  where
    shown : any (has_version (suc n)) rows ≡ true → any (has_version (suc n)) (a ∷ rows) ≡ true
    shown e = ground (arith, e)

Numbered-check_gaps :
    (n : ℕ) (rows : List AppliedMigration)
    → Numbered n rows
    → check_gaps n (length rows) rows ≡ ok tt
unfolding check_gaps is_applied
Numbered-check_gaps n [] h = refl
Numbered-check_gaps n (a ∷ rest) h =
    rw ((==_iff a.version (suc n)).1 h.0)
      (check_gaps-more (suc n) (length rest) a rest (Numbered-check_gaps (suc n) rest h.1))

-- The start of the chain passes.
pub start_is_valid :
    (done rest : List Migration)
    → is_chain 0 (done ++ rest) ≡ true
    → validate_applied (done ++ rest) (map row_of done) ≡ ok tt
unfolding validate_applied and_then
start_is_valid done rest c =
    rw (start-check_all 0 done rest c)
      (Numbered-check_gaps 0 (map row_of done) (start-Numbered 0 done rest c))
