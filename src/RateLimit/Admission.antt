-- ===== src/RateLimit/Admission.antt =====
-- What the script of rate_limit.go admits.
use im_backend.Prelude.{
  ℕ, ◌+◌, ◌≤◌, ◌<◌, ◌≡◌, refl, ◌∙◌, inl, inr, true, false, ◌&&◌, List, [], ◌∷◌, arith, leb, ◌==◌,
  Bool-cases, any, All, DistinctBy,
}
use im_backend.RateLimit.{
  RateLimitRule, Counter, get, incr, check_windows, charge, increment_windows, is_live,
}

-- Every window is positive, so a counter that is started is live.
abbrev pub HasWindow : RateLimitRule → Type 0
HasWindow r = 1 ≤ r.window

incr-own :
    (now : ℕ) (r : RateLimitRule) (counters : List Counter)
    → HasWindow r
    → get now r.key (incr now r counters) ≡ get now r.key counters + 1
unfolding get incr
incr-own now r [] pos = ground arith
incr-own now r (c ∷ rest) pos = elim (Bool-cases ((c.key == r.key) && is_live now c.expires_at)) [
  | inl e ↦
      rw e
        (elim (Bool-cases (c.count == 0)) [ inl z ↦ rw z (ground arith) | inr z ↦ rw (z, e) refl ])
  | inr e ↦ rw (e, get, e) (incr-own now r rest pos)
]

incr-other :
    (now k : ℕ) (r : RateLimitRule) (counters : List Counter)
    → (r.key == k) ≡ false
    → get now k (incr now r counters) ≡ get now k counters
unfolding get incr
incr-other now k r [] h = ground arith
incr-other now k r (c ∷ rest) h = elim (Bool-cases ((c.key == r.key) && is_live now c.expires_at)) [
  | inl e ↦ rw (e, get, elsewhere e) refl
  | inr e ↦ rw (e, get, incr-other now k r rest h) refl
]
  where
    elsewhere : ((c.key == r.key) && is_live now c.expires_at) ≡ true → (c.key == k) ≡ false
    elsewhere e = ground arith

charge-other :
    (now k : ℕ) (rules : List RateLimitRule) (counters : List Counter)
    → any (λ r. r.key == k) rules ≡ false
    → get now k (charge now rules counters) ≡ get now k counters
unfolding charge
charge-other now k [] counters h = refl
charge-other now k (r ∷ rules) counters h =
    charge-other now k rules (incr now r counters) (ground arith)
    ∙ incr-other now k r counters (ground arith)

-- Each rule's counter is one more, within the limit.
abbrev pub Charged : ℕ → List Counter → List Counter → RateLimitRule → Type 0
Charged now before after r =
    (get now r.key after ≡ get now r.key before + 1) × (get now r.key after ≤ r.limit)

charge-own :
    (now : ℕ) (rules : List RateLimitRule) (before counters : List Counter)
    → DistinctBy (λ r. r.key) rules
    → All HasWindow rules
    → All
        (λ r. (get now r.key counters ≡ get now r.key before) × (get now r.key before < r.limit))
        rules
    → All (Charged now before (charge now rules counters)) rules
unfolding charge
charge-own now [] before counters d w h = tt
charge-own now (r ∷ rules) before counters d w h =
    let own =
      charge-other now r.key rules (incr now r counters) d.0 ∙ incr-own now r counters w.0 in
    (
      (omega (arith, own, h.0.0), omega (arith, own, h.0.0, h.0.1)),
      charge-own now rules before (incr now r counters) d.1 w.1 (still rules d.0 h.1),
    )
  where
    still :
        (rs : List RateLimitRule)
        → any (λ s. s.key == r.key) rs ≡ false
        → All
            (λ s.
              (get now s.key counters ≡ get now s.key before) × (get now s.key before < s.limit))
            rs
        → All
            (λ s.
              (get now s.key (incr now r counters) ≡ get now s.key before)
              × (get now s.key before < s.limit))
            rs
    still [] n p = tt
    still (s ∷ rs) n p = (
      (incr-other now s.key r counters (ground arith) ∙ p.0.0, p.0.1),
      still rs (ground arith) p.1,
    )

checked-below :
    (now : ℕ) (counters : List Counter) (rules : List RateLimitRule)
    → (check_windows now counters rules).0 ≡ true
    → All
        (λ r.
          (get now r.key counters ≡ get now r.key counters) × (get now r.key counters < r.limit))
        rules
unfolding check_windows
checked-below now counters [] h = tt
checked-below now counters (r ∷ rules) h =
    elim (Bool-cases (leb r.limit (get now r.key counters))) [
      | inl e ↦ absurd (cc (rw e at h))
      | inr e ↦ ((refl, ground arith), checked-below now counters rules (rw e at h))
    ]

-- The script charges all rules of a request or none: where it allows the request every counter of
-- its rules rises by one and stays within its limit, where it does not no counter changes, and the
-- counters of other keys never change.
pub admission_is_all_or_nothing :
    (now : ℕ) (rules : List RateLimitRule) (counters : List Counter)
    → DistinctBy (λ r. r.key) rules
    → All HasWindow rules
    → let (later, allowed, wait) = increment_windows now rules counters in
      (allowed ≡ true → All (Charged now counters later) rules)
      × (allowed ≡ false → later ≡ counters)
      × ((k : ℕ) → any (λ r. r.key == k) rules ≡ false → get now k later ≡ get now k counters)
unfolding increment_windows
admission_is_all_or_nothing now rules counters d w =
    elim (Bool-cases (check_windows now counters rules).0) [
      | inl e ↦ rw e (
        (λ _. charge-own now rules counters counters d w (checked-below now counters rules e)),
        (λ q. absurd (cc)),
        λ k h. charge-other now k rules counters h,
      )
      | inr e ↦ rw e ((λ q. absurd (cc)), (λ _. refl), λ k h. refl)
    ]
