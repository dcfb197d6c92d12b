-- ===== src/Prelude/Results.antt =====
-- A value, or an error of the component's own: what a function returns that returns early. The lemmas
-- say what is known where a chain of checks and calls has come to its value.
use mathlib.Core.Path.{◌≡◌, refl}
use mathlib.Core.Bool.{Bool, true, false}

pub data Result {ℓ} (E : Type 0) (A : Type ℓ) : Type ℓ where
  ok : A → Result E A
  err : E → Result E A

infixr 10 ◌>>=◌ ◌>>◌
unfoldable pub ◌>>=◌ {ℓ κ} :
    {E : Type 0} {A : Type ℓ} {B : Type κ} → Result E A → (A → Result E B) → Result E B
ok a >>= f = f a
err e >>= f = err e

unfoldable pub ◌>>◌ {ℓ κ} :
    {E : Type 0} {A : Type ℓ} {B : Type κ} → Result E A → Result E B → Result E B
ok _ >> k = k
err e >> k = err e

unfoldable pub refuse_if : {E : Type 0} → Bool → E → Result E (Unit {0})
refuse_if true e = err e
refuse_if false e = ok tt

pub ok-injective {ℓ} :
    {E : Type 0} {A : Type ℓ} (a b : A) → ◌≡◌ {A = Result E A} (ok a) (ok b) → a ≡ b
ok-injective a b e = cc

pub err-ok {ℓ} : {E : Type 0} {A : Type ℓ} (e : E) (a : A) → ◌≡◌ {A = Result E A} (err e) (ok a) → ⊥
err-ok e a q = cc

pub bound {ℓ κ} :
    {E : Type 0} {A : Type ℓ} {B : Type κ} (d : Result E A) (f : A → Result E B) (x : B)
    → (d >>= f) ≡ ok x
    → (a : A) × (d ≡ ok a) × (f a ≡ ok x)
unfolding ◌>>=◌
bound (ok a) f x h = (a, refl, h)
bound (err e) f x h = absurd (err-ok e x h)

pub passed {ℓ} :
    {E : Type 0} {A : Type ℓ} (b : Bool) (e : E) (k : Result E A) (x : A)
    → (refuse_if b e >> k) ≡ ok x
    → (b ≡ false) × (k ≡ ok x)
unfolding ◌>>◌ refuse_if
passed true e k x h = absurd (err-ok e x h)
passed false e k x h = (refl, h)
