-- ===== src/RateLimit/Tests.antt =====
-- Runs of the rate limiter, and the theorems at them.
use im_backend.Prelude.{
  length, codes, ℕ, ◌+◌, ◌*◌, ◌≤◌, ◌≡◌, refl, true, false, List, [], ◌∷◌, some, any, ◌==◌, All,
  arith,
}
use im_backend.Message.{Text}
use im_backend.RateLimit.{
  Endpoint, Dimension, register, login, refresh, global, ip, account, device, RateLimitRule,
  Counter, get, pttl, check_windows, increment_windows, rules_for_auth_request,
  enforce_auth_rate_limit, retry_seconds, enforced, admitted,
}
use im_backend.RateLimit.Admission.{Charged, admission_is_all_or_nothing}
use im_backend.RateLimit.Waiting.{waiting_is_enough}

abbrev dimension_number : Dimension → ℕ
dimension_number global = 0
dimension_number ip = 1
dimension_number account = 2
dimension_number device = 3

abbrev key : Endpoint → Dimension → Text → ℕ
key register d v = 3 * (4 * length v + dimension_number d)
key login d v = 3 * (4 * length v + dimension_number d) + 1
key refresh d v = 3 * (4 * length v + dimension_number d) + 2

abbrev a_login : List RateLimitRule
unfolding rules_for_auth_request
a_login = rules_for_auth_request key login (codes "192.0.2.7") (codes "account") (codes "a phone")

-- The account has used up its window, which runs until 1600.
abbrev counters : List Counter
counters =
    record { key = key login ip (codes "192.0.2.7"); count = 29; expires_at = some 1600 }
    ∷ record { key = key login account (codes "account"); count = 10; expires_at = some 1600 }
    ∷ []

admission_is_all_or_nothing_example :
    let (later, allowed, wait) = increment_windows 2000 a_login counters in
    (allowed ≡ true → All (Charged 2000 counters later) a_login)
    × (allowed ≡ false → later ≡ counters)
    × ((k : ℕ) → any (λ r. r.key == k) a_login ≡ false → get 2000 k later ≡ get 2000 k counters)
unfolding a_login
admission_is_all_or_nothing_example =
    admission_is_all_or_nothing 2000 a_login counters (refl, (refl, (refl, (refl, tt))))
      (omega arith, (omega arith, (omega arith, (omega arith, tt))))

waiting_is_enough_example :
    (1 ≤ 2) × ((enforce_auth_rate_limit true true false 2100 a_login counters).1 ≡ admitted)
unfolding a_login enforce_auth_rate_limit increment_windows check_windows get pttl enforced
    retry_seconds
waiting_is_enough_example =
    waiting_is_enough true 100 2100 a_login counters 2 (refl, (refl, tt))
      ((1600, refl), ((1600, refl), tt))
      (omega arith, (omega arith, (omega arith, (omega arith, tt)))) refl (omega arith)
