-- ===== src/Outbox/Claim/First.antt =====
-- Which rows a claim statement of outbox.go takes, and how many.
use im_backend.Prelude.{
  some-injective, refl, ℕ, ◌≤◌, [], ◌∷◌, ◌≡◌, ap, subst, ◌∙◌, ◌⊎◌, inl, inr, Bool, true, false,
  List, some, arith, ◌==◌, keep, length, min, In, In-any, In-keep, In-take, keep-In, In-All,
  sort_by, sort_by-In, In-sort_by, ==_refl, length-take, length-sort_by, DistinctBy-eq, map-In,
  In-map, any, DistinctBy-keep, DistinctBy-take, sort_by-DistinctBy, sort_by-SortedBy, take-first,
  keep_named-eq,
}
use im_backend.Outbox.Types.{Row, OutboxEvent, OutboxWorkerConfig, served}
use im_backend.Outbox.Claim.{
  claim_limit, is_available, before, candidates, chosen, claimed_event, claimed_events, claim,
}
use im_backend.Outbox.Claim.Sound.{UniqueIds, length-map, chosen-In}

before_total : (a b : Row) → before a b ≡ false → before b a ≡ true
unfolding before
before_total a b h = ground arith

before_transitive : (a b c : Row) → before a b ≡ true → before b c ≡ true → before a c ≡ true
unfolding before
before_transitive a b c h k = ground arith

In-nonempty : (rows : List Row) (r : Row) → In r rows → 1 ≤ length rows
In-nonempty [] r m = absurd m.1
In-nonempty (q ∷ rows) r m = omega arith

nonempty-In : (rows : List Row) → 1 ≤ length rows → (r : Row) × In r rows
nonempty-In [] h = absurd (omega arith)
nonempty-In (q ∷ rows) h = (q, inl refl)

same_event_id :
    (s t : ℕ) (r a : Row) → claimed_event s r ≡ claimed_event t a → r.event_id ≡ a.event_id
unfolding claimed_event
same_event_id s t r a e = ap (λ (v : OutboxEvent). v.event_id) e

module _ (config : OutboxWorkerConfig) (locked : ℕ → Bool) (now : ℕ) (rows : List Row) where
  -- The rows that the statement may take: due, and not locked by another transaction.
  abbrev pub available : List Row
  available = keep (is_available config locked now) rows

  abbrev picked : List Row
  picked = candidates config locked now rows

  module _ (unique : UniqueIds rows) where
    picked-UniqueIds : UniqueIds picked
    unfolding candidates
    picked-UniqueIds =
        DistinctBy-take (λ r. r.event_id) (claim_limit config) _
          (sort_by-DistinctBy (λ r. r.event_id) before available
            (DistinctBy-keep (λ r. r.event_id) (is_available config locked now) rows unique))

    pub picked-In : (p : Row) → In p picked → In p available
    unfolding candidates
    picked-In p m =
        sort_by-In before available p (In-take (claim_limit config) (sort_by before available) p m)

    pub length-picked : length picked ≡ min (claim_limit config) (length available)
    unfolding candidates
    length-picked = omega (
      arith,
      length-take (claim_limit config) (sort_by before available),
      length-sort_by before available,
    )

    -- Where there is a row that may be taken, one is taken.
    pub some-picked : (r : Row) → 1 ≤ claim_limit config → In r available → (p : Row) × In p picked
    some-picked r pos m =
        nonempty-In picked (omega (arith, length-picked, pos, In-nonempty available r m))

    length-claimed_events :
        (token : ℕ → ℕ)
        → length (claimed_events token picked rows) ≡ min (claim_limit config) (length available)
    unfolding claimed_events chosen
    length-claimed_events token =
        length-map (λ (r : Row). claimed_event (token r.event_id) r) (keep (chosen picked) rows)
        ∙ keep_named-eq (λ (r : Row). r.event_id) picked rows picked-UniqueIds unique
            (In-All (λ n. _) picked
              λ n m.
                In-any (λ x. n.event_id == x.event_id) rows n
                  (In-keep (is_available config locked now) rows n (picked-In n m)).0
                  (==_refl n.event_id))
        ∙ length-picked

    chosen-In-picked : (a : Row) → In a available → chosen picked a ≡ true → In a picked
    chosen-In-picked a i h =
        let (p, m, same) = chosen-In picked a h in
        subst (λ z. In z picked)
          (DistinctBy-eq (λ r. r.event_id) available p a
            (DistinctBy-keep (λ r. r.event_id) (is_available config locked now) rows unique)
            (picked-In p m) i same)
          m

    picked_first : (a b : Row) → In a picked → In b available → In b picked ⊎ (before a b ≡ true)
    unfolding candidates
    picked_first a b m i =
        take-first before (claim_limit config) (sort_by before available) a b
          (sort_by-SortedBy before before_total before_transitive available) m
          (In-sort_by before available b i)

    returned-chosen :
        (token : ℕ → ℕ) (a : Row)
        → In (claimed_event (token a.event_id) a) (claimed_events token picked rows)
        → chosen picked a ≡ true
    unfolding claimed_events chosen
    returned-chosen token a m =
        let (r, i, e) =
          In-map (λ r. claimed_event (token r.event_id) r) (keep (chosen picked) rows) _ m in
        subst (λ k. any (λ p. p.event_id == k) picked ≡ true) (same_event_id _ _ r a e)
          (In-keep (chosen picked) rows r i).1

    chosen-returned :
        (token : ℕ → ℕ) (b : Row)
        → In b available
        → In b picked
        → In (claimed_event (token b.event_id) b) (claimed_events token picked rows)
    unfolding claimed_events chosen
    chosen-returned token b i m =
        map-In (λ r. claimed_event (token r.event_id) r) (keep (chosen picked) rows) b
          (keep-In (chosen picked) rows b (In-keep (is_available config locked now) rows b i).0
            (In-any (λ p. p.event_id == b.event_id) picked b m (==_refl b.event_id)))

    -- A claim returns as many events as are due and not locked by another transaction, up to the smaller
    -- of the batch size and the concurrency; and the first ones in the order of the time of the next
    -- attempt, the time of creation and the id: of two such rows a returned one comes before one that is
    -- left. The ids are unique.
    pub claim_takes_the_first :
        (token : ℕ → ℕ) (events : List OutboxEvent)
        → (claim config token locked served now rows).1 ≡ some events
        → (length events ≡ min (min config.batch_size config.concurrency) (length available))
          × ((a b : Row)
              → In a available
              → In b available
              → In (claimed_event (token a.event_id) a) events
              → In (claimed_event (token b.event_id) b) events ⊎ (before a b ≡ true))
    unfolding claim claim_limit
    claim_takes_the_first token events e =
        subst
          (λ es.
            (length es ≡ min (min config.batch_size config.concurrency) (length available))
            × ((a b : Row)
                → In a available
                → In b available
                → In (claimed_event (token a.event_id) a) es
                → In (claimed_event (token b.event_id) b) es ⊎ (before a b ≡ true)))
          (some-injective _ _ e) (length-claimed_events token, first)
      where
        first :
            (a b : Row)
            → In a available
            → In b available
            → In (claimed_event (token a.event_id) a) (claimed_events token picked rows)
            → In (claimed_event (token b.event_id) b) (claimed_events token picked rows)
              ⊎ (before a b ≡ true)
        first a b i j m =
            elim (picked_first a b (chosen-In-picked a i (returned-chosen token a m)) j) [
              | inl k ↦ inl (chosen-returned token b j k)
              | inr q ↦ inr q
            ]
