-- ===== src/Outbox/Claim/Sound.antt =====
-- What a claim statement of outbox.go does to the table.
use im_backend.Prelude.{
  ℕ, ◌<◌, ◌≡◌, refl, sym, ap, subst, ◌⊎◌, Bool, true, false, List, [], ◌∷◌, map, arith, ◌==◌,
  if◌then◌else◌, keep, take, length, In, any-In, In-any, In-keep, In-take, DistinctBy,
  DistinctBy-eq, keep-In, take-short, length-take, map-In, sort_by, sort_by-In, In-sort_by, ==_refl,
  suc,
}
use im_backend.Outbox.Types.{Row, OutboxWorkerConfig, served}
use im_backend.Outbox.Claim.{
  claim_limit, is_due, is_available, before, candidates, chosen, lease, lease_rows, claim,
}
use im_backend.Outbox.Claim.Waiting.{IsWaiting, IsLease}

abbrev pub UniqueIds : List Row → Type 0
UniqueIds = DistinctBy (λ r. r.event_id)

abbrev pub Leased : OutboxWorkerConfig → (ℕ → ℕ) → (ℕ → Bool) → ℕ → Row → Row → Type 0
Leased config token locked now r r' =
    (r' ≡ r)
    ⊎ (IsWaiting config now r
        × (locked r.event_id ≡ false)
        × IsLease config now (token r.event_id) r r')

candidates-In :
    (config : OutboxWorkerConfig) (locked : ℕ → Bool) (now : ℕ) (rows : List Row) (p : Row)
    → In p (candidates config locked now rows)
    → In p rows × (is_available config locked now p ≡ true)
unfolding candidates
candidates-In config locked now rows p m =
    In-keep (is_available config locked now) rows p
      (sort_by-In before available p (In-take (claim_limit config) (sort_by before available) p m))
  where
    available : List Row
    available = keep (is_available config locked now) rows

pub chosen-In :
    (picked : List Row) (r : Row)
    → chosen picked r ≡ true
    → (p : Row) × In p picked × (p.event_id ≡ r.event_id)
unfolding chosen
chosen-In picked r h =
    let (p, m, same) = any-In (λ p. p.event_id == r.event_id) picked h in (p, m, ground arith)

pub chosen_due :
    (config : OutboxWorkerConfig) (locked : ℕ → Bool) (now : ℕ) (rows : List Row) (r : Row)
    → UniqueIds rows
    → In r rows
    → chosen (candidates config locked now rows) r ≡ true
    → (is_due config now r ≡ true) × (locked r.event_id ≡ false)
unfolding is_available
chosen_due config locked now rows r unique m h =
    let (p, picked, same) = chosen-In (candidates config locked now rows) r h in
    let (i, due) = candidates-In config locked now rows p picked in
    let e = DistinctBy-eq (λ r. r.event_id) rows p r unique i m same in
    let due' = subst (λ z. is_available config locked now z ≡ true) e due in ground arith

is_available-intro :
    (config : OutboxWorkerConfig) (locked : ℕ → Bool) (now : ℕ) (r : Row)
    → is_due config now r ≡ true
    → locked r.event_id ≡ false
    → is_available config locked now r ≡ true
unfolding is_available
is_available-intro config locked now r due free = ground arith

short_candidates :
    (config : OutboxWorkerConfig) (locked : ℕ → Bool) (now : ℕ) (rows : List Row) (r : Row)
    → length (candidates config locked now rows) < claim_limit config
    → In r rows
    → is_available config locked now r ≡ true
    → chosen (candidates config locked now rows) r ≡ true
unfolding candidates chosen
short_candidates config locked now rows r short m free =
    In-any (λ p. p.event_id == r.event_id) _ r
      (subst (In r) (sym full)
        (In-sort_by before available r (keep-In (is_available config locked now) rows r m free)))
      (==_refl r.event_id)
  where
    available : List Row
    available = keep (is_available config locked now) rows

    full : take (claim_limit config) (sort_by before available) ≡ sort_by before available
    full =
        take-short (claim_limit config) (sort_by before available)
          (omega (arith, length-take (claim_limit config) (sort_by before available)))

-- While fewer candidates are found than the limit allows, every row that is due and not locked by
-- another transaction is leased.
pub claim_exhausts :
    (config : OutboxWorkerConfig) (token : ℕ → ℕ) (locked : ℕ → Bool) (now : ℕ) (rows : List Row)
    (r : Row)
    → length (candidates config locked now rows) < claim_limit config
    → In r rows
    → is_due config now r ≡ true
    → locked r.event_id ≡ false
    → In (lease config now (token r.event_id) r) (claim config token locked served now rows).0
unfolding claim lease_rows
claim_exhausts config token locked now rows r short m due free =
    subst (λ z. In z (claim config token locked served now rows).0)
      (rw (
        short_candidates config locked now rows r short m
          (is_available-intro config locked now r due free)))
      (map-In
        (λ r.
          if chosen (candidates config locked now rows) r
          then lease config now (token r.event_id) r
          else r)
        rows r m)

pub length-map : {A B : Type 0} (f : A → B) (xs : List A) → length (map f xs) ≡ length xs
length-map f [] = refl
length-map f (x ∷ xs) = ap suc (length-map f xs)
