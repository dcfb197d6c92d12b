-- ===== src/Outbox/Backoff.antt =====
-- outbox.go: retryDelay and equalJitter. A time.Duration is an int64 of nanoseconds: it is its word of
-- 64 bits, a product wraps around, and comparisons read the word as a signed number.
use im_backend.Prelude.{
  false, ap, ◌∙◌, Bool, ℕ, zero, suc, ◌+◌, ◌-◌, ◌*◌, ◌/◌, ◌%◌, ◌^◌, ◌≤◌, ◌<◌, ◌≡◌, min, arith, ltb,
  ◌==◌, if◌then◌else◌, Bool-cases, inl, inr,
}
use im_backend.Outbox.Types.{OutboxWorkerConfig}
use native.Mathlib.Nat.{pow-suc}

-- `a < b` on int64.
unfoldable pub int64_lt : ℕ → ℕ → Bool
int64_lt a b = ltb ((a + 2 ^ 63) % 2 ^ 64) ((b + 2 ^ 63) % 2 ^ 64)

-- The loop `for current := 1; current < attempt && delay < max`, by the rounds left.
pub backoff_loop : ℕ → ℕ → ℕ → ℕ
unfolding int64_lt
backoff_loop zero m d = d
backoff_loop (suc rounds) m d =
    let next = backoff_loop rounds m (d * 2 % 2 ^ 64) in
    if int64_lt d m then (if int64_lt (m / 2) d then m else next) else d

-- retryDelay before its jitter.
unfoldable pub capped_delay : OutboxWorkerConfig → ℕ → ℕ
unfolding backoff_loop int64_lt
capped_delay config attempt =
    let delay = backoff_loop (attempt - 1) config.max_backoff config.base_backoff in
    if int64_lt config.max_backoff delay then config.max_backoff else delay

unfoldable pub retry_delay : OutboxWorkerConfig → (ℕ → ℕ) → ℕ → ℕ
unfolding capped_delay
retry_delay config jitter attempt = jitter (capped_delay config attempt)

-- `int64n n` stands for rand.Int64N(n).
unfoldable pub equal_jitter : (ℕ → ℕ) → ℕ → ℕ
equal_jitter int64n delay =
    let half = delay / 2 in if half == 0 then delay else half + int64n (half + 1)

-- On words that are not negative the signed order is the order.
int64_lt-eq : (a b : ℕ) → a < 2 ^ 63 → b < 2 ^ 63 → int64_lt a b ≡ ltb a b
unfolding int64_lt
int64_lt-eq a b h k = ground arith

pow-pos : (n : ℕ) → 1 ≤ 2 ^ n
pow-pos zero = omega arith
pow-pos (suc n) = omega (arith, pow-suc 2 n, pow-pos n)

-- Doubling past the cap stays past the cap.
grow_past : (d r m : ℕ) → m < d * 2 → m ≤ d * 2 ^ suc r
grow_past d r m h = grind (arith, pow-suc 2 r, pow-pos r)

shift_pow : (d r : ℕ) → d * 2 * 2 ^ r ≡ d * 2 ^ suc r
shift_pow d r = grind (arith, pow-suc 2 r)

low-small : (d m : ℕ) → ltb (m / 2) d ≡ false → d * 2 ≤ m
low-small d m h = ground arith

unwrapped : (n : ℕ) → n < 2 ^ 64 → n % 2 ^ 64 ≡ n
unwrapped n h = omega arith

-- What the loop reaches: it never grows past the cap, so no doubling wraps.
backoff_loop-eq :
    (rounds m d : ℕ) → d ≤ m → m < 2 ^ 63 → backoff_loop rounds m d ≡ min m (d * 2 ^ rounds)
unfolding backoff_loop
backoff_loop-eq zero m d h b = omega arith
backoff_loop-eq (suc r) m d h b =
    rw (int64_lt-eq d m (omega arith) b, int64_lt-eq (m / 2) d (omega arith) (omega arith))
      (elim (Bool-cases (ltb d m)) [
        | inr full ↦ rw full (ground (arith, grow_past d r m))
        | inl more ↦ elim (Bool-cases (ltb (m / 2) d)) [
          | inl half ↦ rw (more, half) (ground (arith, grow_past d r m))
          | inr low ↦
              let small = low-small d m low in
              rw (more, low, unwrapped (d * 2) (omega (arith, small)))
                (backoff_loop-eq r m (d * 2) small b ∙ ap (min m) (shift_pow d r))
        ]
      ])

pub capped_delay-eq :
    (config : OutboxWorkerConfig) (attempt : ℕ)
    → config.base_backoff ≤ config.max_backoff
    → config.max_backoff < 2 ^ 63
    → capped_delay config attempt ≡ min config.max_backoff (config.base_backoff * 2 ^ (attempt - 1))
unfolding capped_delay
capped_delay-eq config attempt h b =
    let m = config.max_backoff in
    let reached = config.base_backoff * 2 ^ (attempt - 1) in
    rw
      (
        backoff_loop-eq (attempt - 1) m config.base_backoff h b,
        int64_lt-eq m (min m reached) b (omega arith),
      )
      (ground arith)

-- The delay before the next attempt lies between the half and the whole of
-- min(max, base * 2^(attempt - 1)), for every attempt and every draw of the jitter, although
-- the doubling is one of int64.
pub retry_delay_window :
    (config : OutboxWorkerConfig) (attempt : ℕ) (int64n : ℕ → ℕ)
    → ((n : ℕ) → 0 < n → int64n n < n)
    → config.base_backoff ≤ config.max_backoff
    → config.max_backoff < 2 ^ 63
    → let full = min config.max_backoff (config.base_backoff * 2 ^ (attempt - 1)) in
      (full / 2 ≤ retry_delay config (equal_jitter int64n) attempt)
      × (retry_delay config (equal_jitter int64n) attempt ≤ full)
unfolding retry_delay equal_jitter
retry_delay_window config attempt int64n law h b =
    rw (capped_delay-eq config attempt h b) (
      ground
        (arith, law (min config.max_backoff (config.base_backoff * 2 ^ (attempt - 1)) / 2 + 1)))
