-- ===== src/RateLimit/Waiting.antt =====
-- The header Retry-After of rate_limit.go: a client that waits as it is told is admitted.
use im_backend.Prelude.{
  ℕ, suc, ◌+◌, ◌*◌, ◌≤◌, ◌≡◌, refl, inl, inr, Bool, true, false, List, [], ◌∷◌, some, arith, leb,
  ◌==◌, Bool-cases, any, All, DistinctBy,
}
use im_backend.RateLimit.{
  RateLimitRule, Counter, get, pttl, check_windows, increment_windows, limited, admitted,
  retry_seconds, enforced, enforce_auth_rate_limit,
}

-- The script starts every counter with an expiry.
abbrev pub HasEnd : Counter → Type 0
HasEnd c = (t : ℕ) × (c.expires_at ≡ some t)

get-absent :
    (at key k : ℕ) (counters : List Counter)
    → key ≡ k
    → any (λ c. c.key == key) counters ≡ false
    → get at k counters ≡ 0
unfolding get
get-absent at key k [] e h = refl
get-absent at key k (c ∷ rest) e h = ground (arith, get-absent at key k rest)

-- Without a request no counter grows.
get-later :
    (now later k : ℕ) (counters : List Counter)
    → DistinctBy (λ c. c.key) counters
    → All HasEnd counters
    → now ≤ later
    → get later k counters ≤ get now k counters
unfolding get
get-later now later k [] d h le = omega arith
get-later now later k (c ∷ rest) d ((t, e), h) le =
    rw e (ground (arith, get-later now later k rest d.1 h le, get-absent later c.key k rest))

-- Behind its time to live a counter is gone.
get-expired :
    (now later k : ℕ) (counters : List Counter)
    → DistinctBy (λ c. c.key) counters
    → All HasEnd counters
    → now + pttl now k counters ≤ later
    → get later k counters ≡ 0
unfolding get pttl
get-expired now later k [] d h le = refl
get-expired now later k (c ∷ rest) d ((t, e), h) le =
    let waits = rw e at le in
    rw e (ground (arith, waits, get-expired now later k rest d.1 h, get-absent later c.key k rest))

check_windows-later :
    (now later : ℕ) (rules : List RateLimitRule) (counters : List Counter)
    → DistinctBy (λ c. c.key) counters
    → All HasEnd counters
    → All (λ r. 1 ≤ r.limit) rules
    → now + (check_windows now counters rules).1 ≤ later
    → (check_windows later counters rules).0 ≡ true
unfolding check_windows
check_windows-later now later [] counters d h w le = refl
check_windows-later now later (r ∷ rules) counters d h w le =
    elim (Bool-cases (leb r.limit (get now r.key counters))) [
      | inl e ↦
          let waits = rw e at le in
          let gone = get-expired now later r.key counters d h (omega (arith, waits)) in
          rw (free (omega (arith, gone, w.0)))
            (check_windows-later now later rules counters d h w.1 (omega (arith, waits)))
      | inr e ↦
          let waits = rw e at le in
          rw
            (free (
              omega
                (arith, below e, get-later now later r.key counters d h (omega (arith, waits)))))
            (check_windows-later now later rules counters d h w.1 waits)
    ]
  where
    free : suc (get later r.key counters) ≤ r.limit → leb r.limit (get later r.key counters) ≡ false
    free q = ground arith

    below : leb r.limit (get now r.key counters) ≡ false → suc (get now r.key counters) ≤ r.limit
    below q = ground arith

retry_seconds-covers : (wait : ℕ) → (1 ≤ retry_seconds wait) × (wait ≤ retry_seconds wait * 1000)
unfolding retry_seconds
retry_seconds-covers wait = ground arith

limited-injective : (a b : ℕ) → limited a ≡ limited b → a ≡ b
limited-injective a b e = cc

admitted-limited : (s : ℕ) → admitted ≡ limited s → ⊥
admitted-limited s q = cc

-- A request that is limited is told to wait for a second at least. If its client waits that long and
-- no other request is charged in between, the same request is admitted. Each key has one counter, each
-- counter an expiry, as the script gives it, and each limit is positive.
pub waiting_is_enough :
    (fail_open : Bool) (now later : ℕ) (rules : List RateLimitRule) (counters : List Counter)
    (seconds : ℕ)
    → DistinctBy (λ c. c.key) counters
    → All HasEnd counters
    → All (λ r. 1 ≤ r.limit) rules
    → (enforce_auth_rate_limit true fail_open false now rules counters).1 ≡ limited seconds
    → now + seconds * 1000 ≤ later
    → (1 ≤ seconds)
      × ((enforce_auth_rate_limit true fail_open false later rules counters).1 ≡ admitted)
unfolding enforce_auth_rate_limit enforced increment_windows
waiting_is_enough fail_open now later rules counters seconds d h w told le =
    elim (Bool-cases (check_windows now counters rules).0) [
      | inl e ↦ absurd (admitted-limited seconds (rw e at told))
      | inr e ↦
          let same = limited-injective _ seconds (rw e at told) in
          let covers = retry_seconds-covers (check_windows now counters rules).1 in
          (
            omega (arith, same, covers),
            rw
                (check_windows-later now later rules counters d h w
                  (omega (arith, same, covers, le)))
                refl,
          )
    ]
