-- ===== src/Prelude/Distinct.antt =====
-- Lists with distinct keys.
use Prim.Native.Nat.{ℕ, suc, ◌≤◌, ◌<◌}
use mathlib.Core.Path.{◌≡◌, refl, sym, ap, ◌∙◌}
use mathlib.Core.Logic.{inl, inr}
use mathlib.Core.Bool.{Bool, true, false}
use mathlib.Core.List.{List, [], ◌∷◌, map}
use native.Mathlib.Omega.{arith}
use im_backend.Prelude.Tests.{◌==◌, Bool-cases}
use im_backend.Prelude.Lists.{length, keep, any}
use im_backend.Prelude.Member.{In, In-any, any-false}

-- No two entries of the list have the same number.
abbrev pub DistinctBy {ℓ} : {A : Type ℓ} → (A → ℕ) → List A → Type ℓ
DistinctBy key [] = Unit
DistinctBy key (x ∷ xs) = (any (λ y. key y == key x) xs ≡ false) × DistinctBy key xs

module _ {ℓ} {A : Type ℓ} (key : A → ℕ) where
  pub DistinctBy-eq :
      (xs : List A) (a b : A) → DistinctBy key xs → In a xs → In b xs → key a ≡ key b → a ≡ b
  DistinctBy-eq [] a b d m n e = absurd m.1
  DistinctBy-eq (x ∷ xs) a b d (inl p) (inl q) e = sym p ∙ q
  DistinctBy-eq (x ∷ xs) a b d (inl p) (inr n) e =
      absurd (cc (In-any (λ y. key y == key x) xs b n (ground (arith, ap key p)), d.0))
  DistinctBy-eq (x ∷ xs) a b d (inr m) (inl q) e =
      absurd (cc (In-any (λ y. key y == key x) xs a m (ground (arith, ap key q)), d.0))
  DistinctBy-eq (x ∷ xs) a b d (inr m) (inr n) e = DistinctBy-eq xs a b d.1 m n e

  pub any_key-map :
      (f : A → A) (k : ℕ) (xs : List A)
      → ((a : A) → key (f a) ≡ key a)
      → any (λ y. key y == k) (map f xs) ≡ any (λ y. key y == k) xs
  any_key-map f k [] h = refl
  any_key-map f k (x ∷ xs) h = rw (h x, any_key-map f k xs h)

  pub DistinctBy-map :
      (f : A → A) (xs : List A)
      → ((a : A) → key (f a) ≡ key a)
      → DistinctBy key xs
      → DistinctBy key (map f xs)
  DistinctBy-map f [] h d = tt
  DistinctBy-map f (x ∷ xs) h d =
      (rw (h x) (any_key-map f (key x) xs h ∙ d.0), DistinctBy-map f xs h d.1)

  pub keep_key-le-one :
      (k : ℕ) (xs : List A) → DistinctBy key xs → length (keep (λ x. k == key x) xs) ≤ 1
  keep_key-le-one k [] d = omega arith
  keep_key-le-one k (x ∷ xs) d = elim (Bool-cases (k == key x)) [
    | inr e ↦ rw e (keep_key-le-one k xs d.1)
    | inl e ↦ rw e (alone e xs (any-false (λ y. key y == key x) xs d.0))
  ]
    where
      alone :
          (k == key x) ≡ true
          → (ys : List A) → ((y : A) → In y ys → (key y == key x) ≡ false)
          → suc (length (keep (λ x. k == key x) ys)) ≤ 1
      alone e [] f = omega arith
      alone e (y ∷ ys) f = ground (arith, f y (inl refl), alone e ys (λ z m. f z (inr m)))

  pub keep_none : (xs : List A) → length (keep (λ x. false) xs) ≡ 0
  keep_none [] = refl
  keep_none (x ∷ xs) = keep_none xs

  any-keep-false : (p q : A → Bool) (xs : List A) → any p xs ≡ false → any p (keep q xs) ≡ false
  any-keep-false p q [] h = refl
  any-keep-false p q (x ∷ xs) h = ground (arith, any-keep-false p q xs)

  pub DistinctBy-keep :
      (q : A → Bool) (xs : List A) → DistinctBy key xs → DistinctBy key (keep q xs)
  DistinctBy-keep q [] d = tt
  DistinctBy-keep q (x ∷ xs) d = elim (Bool-cases (q x)) [
    | inl e ↦ rw e (any-keep-false (λ y. key y == key x) q xs d.0, DistinctBy-keep q xs d.1)
    | inr e ↦ rw e (DistinctBy-keep q xs d.1)
  ]

  -- A key above all keys is new.
  pub above-fresh :
      (k : ℕ) (xs : List A) → ((x : A) → In x xs → key x < k) → any (λ y. key y == k) xs ≡ false
  above-fresh k [] h = refl
  above-fresh k (x ∷ xs) h = ground (arith, h x (inl refl), above-fresh k xs (λ y m. h y (inr m)))
