-- ===== src/Prelude/Member.antt =====
-- Membership by recursion, lists with distinct keys, and what the searches of Lists say of them.
use Prim.Native.Nat.{ℕ, zero, suc, ◌≤◌}
use mathlib.Core.Path.{◌≡◌, refl, ap, subst, ◌∙◌}
use mathlib.Core.Logic.{◌⊎◌, inl, inr}
use mathlib.Core.Bool.{Bool, true, false}
use mathlib.Core.List.{List, [], ◌∷◌, ◌++◌, map}
use mathlib.Core.Option.{some}
use native.Mathlib.Omega.{arith}
use im_backend.Prelude.Tests.{Bool-cases}
use im_backend.Prelude.Lists.{length, take, keep, any, find, All}

module _ {ℓ} {A : Type ℓ} where
  abbrev pub In : A → List A → Type ℓ
  In a [] = (a ≡ a) × ⊥
  In a (x ∷ xs) = (x ≡ a) ⊎ In a xs

  pub All-In {κ} : (P : A → Type κ) (xs : List A) {a : A} → All P xs → In a xs → P a
  All-In P [] h m = absurd m.1
  All-In P (x ∷ xs) h (inl e) = subst P e h.0
  All-In P (x ∷ xs) h (inr m) = All-In P xs h.1 m

  pub In-All {κ} : (P : A → Type κ) (xs : List A) → ((a : A) → In a xs → P a) → All P xs
  In-All P [] f = tt
  In-All P (x ∷ xs) f = (f x (inl refl), In-All P xs (λ a m. f a (inr m)))

  pub any-In : (p : A → Bool) (xs : List A) → any p xs ≡ true → (a : A) × In a xs × (p a ≡ true)
  any-In p [] h = absurd (cc)
  any-In p (x ∷ xs) h = elim (Bool-cases (p x)) [
    | inl e ↦ (x, inl refl, e)
    | inr e ↦ let (a, m, q) = any-In p xs (rw e at h) in (a, inr m, q)
  ]

  pub In-any : (p : A → Bool) (xs : List A) (a : A) → In a xs → p a ≡ true → any p xs ≡ true
  In-any p [] a m h = absurd m.1
  In-any p (x ∷ xs) a (inl e) h = ground (arith, ap p e)
  In-any p (x ∷ xs) a (inr m) h = ground (arith, In-any p xs a m h)

  pub In-keep : (p : A → Bool) (xs : List A) (a : A) → In a (keep p xs) → In a xs × (p a ≡ true)
  In-keep p [] a m = absurd m.1
  In-keep p (x ∷ xs) a m = elim (Bool-cases (p x)) [
    | inl e ↦ kept (In-keep p xs a) (rw e at m) e
    | inr e ↦ let (i, h) = In-keep p xs a (rw e at m) in (inr i, h)
  ]
    where
      kept :
          (In a (keep p xs) → In a xs × (p a ≡ true))
          → (x ≡ a) ⊎ In a (keep p xs)
          → p x ≡ true
          → ((x ≡ a) ⊎ In a xs) × (p a ≡ true)
      kept ih (inl q) e = (inl q, subst (λ z. p z ≡ true) q e)
      kept ih (inr k) e = let (i, h) = ih k in (inr i, h)

  pub keep-In : (p : A → Bool) (xs : List A) (a : A) → In a xs → p a ≡ true → In a (keep p xs)
  keep-In p [] a m h = absurd m.1
  keep-In p (x ∷ xs) a (inl e) h = rw (ap p e ∙ h) (inl e)
  keep-In p (x ∷ xs) a (inr m) h = elim (Bool-cases (p x)) [
    | inl t ↦ rw t (inr (keep-In p xs a m h))
    | inr t ↦ rw t (keep-In p xs a m h)
  ]

  pub In-take : (n : ℕ) (xs : List A) (a : A) → In a (take n xs) → In a xs
  In-take zero xs a m = absurd m.1
  In-take (suc n) [] a m = absurd m.1
  In-take (suc n) (x ∷ xs) a (inl e) = inl e
  In-take (suc n) (x ∷ xs) a (inr m) = inr (In-take n xs a m)

  pub take-short : (n : ℕ) (xs : List A) → length xs ≤ n → take n xs ≡ xs
  take-short zero [] h = refl
  take-short zero (x ∷ xs) h = absurd (omega arith)
  take-short (suc n) [] h = refl
  take-short (suc n) (x ∷ xs) h = ap (◌∷◌ x) (take-short n xs (omega arith))

  pub In-append_left : (xs ys : List A) (a : A) → In a xs → In a (xs ++ ys)
  In-append_left [] ys a m = absurd m.1
  In-append_left (x ∷ xs) ys a (inl e) = inl e
  In-append_left (x ∷ xs) ys a (inr m) = inr (In-append_left xs ys a m)

  pub In-append_right : (xs ys : List A) (a : A) → In a ys → In a (xs ++ ys)
  In-append_right [] ys a m = m
  In-append_right (x ∷ xs) ys a m = inr (In-append_right xs ys a m)

  pub In-append : (xs ys : List A) (a : A) → In a (xs ++ ys) → In a xs ⊎ In a ys
  In-append [] ys a m = inr m
  In-append (x ∷ xs) ys a (inl e) = inl (inl e)
  In-append (x ∷ xs) ys a (inr m) = elim (In-append xs ys a m) [
    | inl i ↦ inl (inr i)
    | inr i ↦ inr i
  ]

  pub any-false : (p : A → Bool) (xs : List A) → any p xs ≡ false → (a : A) → In a xs → p a ≡ false
  any-false p xs h a m = elim (Bool-cases (p a)) [
    | inl t ↦ absurd (cc (In-any p xs a m t))
    | inr t ↦ t
  ]

  pub find-In : (p : A → Bool) (xs : List A) (a : A) → find p xs ≡ some a → In a xs × (p a ≡ true)
  find-In p [] a h = cc
  find-In p (x ∷ xs) a h = elim (Bool-cases (p x)) [
    | inl e ↦ ground arith
    | inr e ↦ let (i, q) = find-In p xs a (rw e at h) in (inr i, q)
  ]

  pub In-find :
      (p : A → Bool) (xs : List A) (a : A) → In a xs → p a ≡ true → (b : A) × (find p xs ≡ some b)
  In-find p [] a m h = absurd m.1
  In-find p (x ∷ xs) a (inl q) h = (x, rw (ap p q ∙ h))
  In-find p (x ∷ xs) a (inr i) h = elim (Bool-cases (p x)) [
    | inl e ↦ (x, rw e)
    | inr e ↦ let (b, f) = In-find p xs a i h in (b, rw e f)
  ]

module _ {ℓ κ} {A : Type ℓ} {B : Type κ} where
  pub In-map : (f : A → B) (xs : List A) (b : B) → In b (map f xs) → (a : A) × In a xs × (f a ≡ b)
  In-map f [] b m = absurd m.1
  In-map f (x ∷ xs) b (inl e) = (x, inl refl, e)
  In-map f (x ∷ xs) b (inr m) = let (a, i, e) = In-map f xs b m in (a, inr i, e)

  pub map-In : (f : A → B) (xs : List A) (a : A) → In a xs → In (f a) (map f xs)
  map-In f [] a m = absurd m.1
  map-In f (x ∷ xs) a (inl e) = inl (ap f e)
  map-In f (x ∷ xs) a (inr m) = inr (map-In f xs a m)
