-- ===== src/RateLimit.antt =====
-- rate_limit.go: the limits on authentication requests. `key` of an endpoint, a dimension and a value is
-- the key in Redis, which the code builds with the SHA-256 of the value.
pub mod Admission
pub mod ClientAddress
pub mod Waiting
mod Tests
mod AddressTests
use im_backend.Prelude.{
  ℕ, zero, suc, ◌+◌, ◌-◌, ◌*◌, ◌/◌, max, Bool, true, false, ◌&&◌, ◌||◌, not, List, [], ◌∷◌, ◌++◌,
  Option, none, some, leb, ltb, ◌==◌, if◌then◌else◌,
}
use im_backend.Message.{Text}

pub data Endpoint : Type 0 where
  register login refresh : Endpoint

pub data Dimension : Type 0 where
  global ip account device : Dimension

pub record RateLimitRule : Type 0 where
  pub key : ℕ
  pub limit : ℕ
  pub window : ℕ

-- A counter in Redis; it goes away at `expires_at`, where that is set.
pub record Counter : Type 0 where
  pub key : ℕ
  pub count : ℕ
  pub expires_at : Option ℕ

abbrev pub is_live : ℕ → Option ℕ → Bool
is_live now none = true
is_live now (some t) = ltb now t

-- GET: 0 where there is no counter.
unfoldable pub get : ℕ → ℕ → List Counter → ℕ
get now k [] = 0
get now k (c ∷ rest) =
    let later = get now k rest in
    if (c.key == k) && is_live now c.expires_at then c.count else later

abbrev time_left : ℕ → Option ℕ → ℕ
time_left now none = 0
time_left now (some t) = t - now

-- PTTL; a counter without an expiry answers -1, which raises no maximum that starts at 0.
unfoldable pub pttl : ℕ → ℕ → List Counter → ℕ
pttl now k [] = 0
pttl now k (c ∷ rest) =
    let later = pttl now k rest in
    if (c.key == k) && is_live now c.expires_at then time_left now c.expires_at else later

-- INCR and, for a first count, PEXPIRE.
unfoldable pub incr : ℕ → RateLimitRule → List Counter → List Counter
incr now r [] = record { key = r.key; count = 1; expires_at = some (now + r.window) } ∷ []
incr now r (c ∷ rest) =
    let later = incr now r rest in
    if (c.key == r.key) && is_live now c.expires_at
    then record c {
      count = c.count + 1;
      expires_at = if c.count == 0 then some (now + r.window) else c.expires_at;
    }
      ∷ rest
    else c ∷ later

-- The first loop of the script: whether all are below their limits, and the longest wait.
unfoldable pub check_windows : ℕ → List Counter → List RateLimitRule → Bool × ℕ
check_windows now counters [] = (true, 0)
check_windows now counters (r ∷ rules) =
    let (allowed, wait) = check_windows now counters rules in
    if leb r.limit (get now r.key counters)
    then (false, max (pttl now r.key counters) wait)
    else (allowed, wait)

-- The second loop: every rule is charged.
unfoldable pub charge : ℕ → List RateLimitRule → List Counter → List Counter
charge now [] counters = counters
charge now (r ∷ rules) counters = charge now rules (incr now r counters)

-- The script: nothing is charged unless everything is allowed.
unfoldable pub increment_windows : ℕ → List RateLimitRule → List Counter → List Counter × Bool × ℕ
increment_windows now rules counters =
    let (allowed, wait) = check_windows now counters rules in
    if allowed then (charge now rules counters, true, 0) else (counters, false, wait)

abbrev minute : ℕ
minute = 60000

-- The rules of a request; an empty account or device has none.
unfoldable pub rules_for_auth_request :
    (Endpoint → Dimension → Text → ℕ) → Endpoint → Text → Text → Text → List RateLimitRule
rules_for_auth_request key endpoint client_ip account_value device_value =
    global_rule endpoint ∷ (own_rules endpoint account_value ++ device_rules device_value)
  where
    global_limit : Endpoint → ℕ
    global_limit register = 200
    global_limit login = 1000
    global_limit refresh = 2000

    global_rule : Endpoint → RateLimitRule
    global_rule e = record { key = key e global []; limit = global_limit e; window = minute }

    account_rules : Text → List RateLimitRule
    account_rules [] = []
    account_rules (c ∷ a) =
        record { key = key login account (c ∷ a); limit = 10; window = 5 * minute } ∷ []

    own_rules : Endpoint → Text → List RateLimitRule
    own_rules register a =
        record { key = key register ip client_ip; limit = 10; window = 60 * minute } ∷ []
    own_rules login a =
        record { key = key login ip client_ip; limit = 30; window = minute } ∷ account_rules a
    own_rules refresh a =
        record { key = key refresh ip client_ip; limit = 120; window = minute } ∷ []

    device_rules : Text → List RateLimitRule
    device_rules [] = []
    device_rules (c ∷ d) =
        record { key = key endpoint device (c ∷ d); limit = 30; window = minute } ∷ []

pub data Verdict : Type 0 where
  admitted : Verdict
  unavailable : Verdict
  limited : ℕ → Verdict

-- The header Retry-After in seconds: rounded up, and 1 at least.
unfoldable pub retry_seconds : ℕ → ℕ
retry_seconds wait = let seconds = (wait + 999) / 1000 in if ltb seconds 1 then 1 else seconds

unfoldable pub enforced : Bool → Option (Bool × ℕ) → Verdict
unfolding retry_seconds
enforced fail_open none = if fail_open then admitted else unavailable
enforced fail_open (some (true, wait)) = admitted
enforced fail_open (some (false, wait)) = limited (retry_seconds wait)

-- `fails` is an error of Redis before the script runs; without a limiter everything is admitted.
unfoldable pub enforce_auth_rate_limit :
    Bool → Bool → Bool → ℕ → List RateLimitRule → List Counter → List Counter × Verdict
unfolding enforced increment_windows
enforce_auth_rate_limit has_limiter fail_open fails now rules counters =
    if not has_limiter
    then (counters, admitted)
    else if fails
    then (counters, enforced fail_open none)
    else let (later, allowed, wait) = increment_windows now rules counters in
      (later, enforced fail_open (some (allowed, wait)))
