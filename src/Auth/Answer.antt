-- ===== src/Auth/Answer.antt =====
-- The results of auth.go: a value or an error, in the order of the early returns.
use im_backend.Prelude.{
  Result, ok, err, ok-injective, err-ok, ◌>>=◌, ◌>>◌, refuse_if, ◌≡◌, refl, subst, Bool, true,
  false, Option, none, some,
}

-- What the functions behind the handlers of auth.go return in place of a value.
pub data Fault : Type 0 where
  failure credentials_changed idempotency_conflict username_conflict password_conflict : Fault

abbrev pub Answer {ℓ} : Type ℓ → Type ℓ
Answer A = Result Fault A

unfoldable pub required {ℓ} : {A : Type ℓ} → Option A → Answer A
required none = err failure
required (some a) = ok a

pub required-some {ℓ} : {A : Type ℓ} (o : Option A) (a : A) → required o ≡ ok a → o ≡ some a
unfolding required
required-some none a h = absurd (err-ok failure a h)
required-some (some b) a h = cc

-- P holds of the value, where there is one.
abbrev pub Ensures {ℓ κ} : {A : Type ℓ} → (A → Type κ) → Answer A → Type κ
Ensures P (ok a) = P a
Ensures P (err e) = Unit

pub Ensures-bind {ℓ κ μ ν} :
    {A : Type ℓ} {B : Type κ} (P : A → Type μ) (Q : B → Type ν) (d : Answer A) (f : A → Answer B)
    → Ensures P d
    → ((a : A) → P a → Ensures Q (f a))
    → Ensures Q (d >>= f)
unfolding ◌>>=◌
Ensures-bind P Q (ok a) f h k = k a h
Ensures-bind P Q (err e) f h k = tt

-- A step of which nothing is needed.
pub Ensures-then {ℓ κ ν} :
    {A : Type ℓ} {B : Type κ} (Q : B → Type ν) (d : Answer A) (f : A → Answer B)
    → ((a : A) → Ensures Q (f a))
    → Ensures Q (d >>= f)
unfolding ◌>>=◌
Ensures-then Q (ok a) f k = k a
Ensures-then Q (err e) f k = tt

pub Ensures-checked {κ ν} :
    {B : Type κ} (Q : B → Type ν) (b : Bool) (e : Fault) (k : Answer B)
    → Ensures Q k
    → Ensures Q (refuse_if b e >> k)
unfolding ◌>>◌ refuse_if
Ensures-checked Q true e k h = tt
Ensures-checked Q false e k h = h

-- As the two above, with what the step has shown.
pub Ensures-known {κ ν} :
    {B : Type κ} (Q : B → Type ν) (b : Bool) (e : Fault) (k : Answer B)
    → (b ≡ false → Ensures Q k)
    → Ensures Q (refuse_if b e >> k)
unfolding ◌>>◌ refuse_if
Ensures-known Q true e k h = tt
Ensures-known Q false e k h = h refl

pub Ensures-with {ℓ κ ν} :
    {A : Type ℓ} {B : Type κ} (Q : B → Type ν) (d : Answer A) (f : A → Answer B)
    → ((a : A) → d ≡ ok a → Ensures Q (f a))
    → Ensures Q (d >>= f)
unfolding ◌>>=◌
Ensures-with Q (ok a) f k = k a refl
Ensures-with Q (err e) f k = tt

-- What is ensured of a value that is returned.
pub ensured {ℓ κ} :
    {A : Type ℓ} (P : A → Type κ) (d : Answer A) (a : A) → Ensures P d → d ≡ ok a → P a
ensured P (ok b) a h e = subst P (ok-injective b a e) h
ensured P (err f) a h e = absurd (err-ok f a e)
