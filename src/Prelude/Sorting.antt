-- ===== src/Prelude/Sorting.antt =====
-- ORDER BY and sort.Slice: sorting by a Boolean order.
use Prim.Native.Nat.{ℕ, ◌+◌, ◌<◌}
use mathlib.Core.Path.{◌≡◌, refl, ap, subst}
use mathlib.Core.Logic.{◌⊎◌, inl, inr}
use mathlib.Core.Bool.{Bool, false}
use mathlib.Core.List.{List, [], ◌∷◌}
use native.Mathlib.Omega.{arith}
use im_backend.Prelude.Tests.{if◌then◌else◌, Bool-cases, ltb, ◌==◌}
use im_backend.Prelude.Lists.{length, All, All-map_to, any}
use im_backend.Prelude.Member.{In, In-All, All-In, any-In, any-false}
use im_backend.Prelude.Distinct.{DistinctBy}

module _ {ℓ} {A : Type ℓ} (before : A → A → Bool) where
  abbrev pub insert_by : A → List A → List A
  insert_by a [] = a ∷ []
  insert_by a (x ∷ xs) = let later = insert_by a xs in if before a x then a ∷ x ∷ xs else x ∷ later

  abbrev pub sort_by : List A → List A
  sort_by [] = []
  sort_by (x ∷ xs) = insert_by x (sort_by xs)

  pub insert_by-In : (x : A) (xs : List A) (a : A) → In a (insert_by x xs) → (x ≡ a) ⊎ In a xs
  insert_by-In x [] a (inl e) = inl e
  insert_by-In x [] a (inr m) = absurd m.1
  insert_by-In x (y ∷ xs) a m = elim (Bool-cases (before x y)) [
    | inl e ↦ rw e at m
    | inr e ↦ elim (rw e at m) [
      | inl q ↦ inr (inl q)
      | inr k ↦ elim (insert_by-In x xs a k) [ inl q ↦ inl q | inr i ↦ inr (inr i) ]
    ]
  ]

  In-insert_by_head : (x : A) (xs : List A) → In x (insert_by x xs)
  In-insert_by_head x [] = inl refl
  In-insert_by_head x (y ∷ xs) = elim (Bool-cases (before x y)) [
    | inl e ↦ rw e (inl refl)
    | inr e ↦ rw e (inr (In-insert_by_head x xs))
  ]

  In-insert_by_tail : (x : A) (xs : List A) (a : A) → In a xs → In a (insert_by x xs)
  In-insert_by_tail x [] a m = absurd m.1
  In-insert_by_tail x (y ∷ xs) a (inl q) = elim (Bool-cases (before x y)) [
    | inl e ↦ rw e (inr (inl q))
    | inr e ↦ rw e (inl q)
  ]
  In-insert_by_tail x (y ∷ xs) a (inr m) = elim (Bool-cases (before x y)) [
    | inl e ↦ rw e (inr (inr m))
    | inr e ↦ rw e (inr (In-insert_by_tail x xs a m))
  ]

  pub sort_by-In : (xs : List A) (a : A) → In a (sort_by xs) → In a xs
  sort_by-In [] a m = absurd m.1
  sort_by-In (x ∷ xs) a m = elim (insert_by-In x (sort_by xs) a m) [
    | inl e ↦ inl e
    | inr k ↦ inr (sort_by-In xs a k)
  ]

  pub In-sort_by : (xs : List A) (a : A) → In a xs → In a (sort_by xs)
  In-sort_by [] a m = absurd m.1
  In-sort_by (x ∷ xs) a (inl e) =
      subst (λ z. In z (insert_by x (sort_by xs))) e (In-insert_by_head x (sort_by xs))
  In-sort_by (x ∷ xs) a (inr m) = In-insert_by_tail x (sort_by xs) a (In-sort_by xs a m)

  length-insert_by : (x : A) (xs : List A) → length (insert_by x xs) ≡ length xs + 1
  length-insert_by x [] = omega arith
  length-insert_by x (y ∷ xs) = ground (arith, length-insert_by x xs)

  pub length-sort_by : (xs : List A) → length (sort_by xs) ≡ length xs
  length-sort_by [] = refl
  length-sort_by (x ∷ xs) = omega (arith, length-insert_by x (sort_by xs), length-sort_by xs)

-- Each entry's number is smaller than those behind it.
abbrev pub Ascending {ℓ} : {A : Type ℓ} → (A → ℕ) → List A → Type ℓ
Ascending key [] = Unit
Ascending key (x ∷ xs) = All (λ y. key x < key y) xs × Ascending key xs

module _ {ℓ} {A : Type ℓ} (key : A → ℕ) where
  abbrev pub smaller : A → A → Bool
  smaller a b = ltb (key a) (key b)

  insert_by-Ascending :
      (x : A) (xs : List A)
      → any (λ y. key y == key x) xs ≡ false
      → Ascending key xs
      → Ascending key (insert_by smaller x xs)
  insert_by-Ascending x [] new h = (tt, tt)
  insert_by-Ascending x (y ∷ xs) new h = elim (Bool-cases (smaller x y)) [
    | inl e ↦ rw e (
      (
        ground (arith, e),
        All-map_to {P = λ z. key y < key z} {Q = λ z. key x < key z} xs (λ z q. ground (arith, e))
            h.0,
      ),
      h,
    )
    | inr e ↦ rw e (
      In-All (λ z. key y < key z) (insert_by smaller x xs)
          (λ z m. behind e z (insert_by-In smaller x xs z m)),
      insert_by-Ascending x xs (ground arith) h.1,
    )
  ]
    where
      behind : smaller x y ≡ false → (z : A) → (x ≡ z) ⊎ In z xs → key y < key z
      behind e z (inl q) = ground (arith, ap key q)
      behind e z (inr i) = All-In (λ w. key y < key w) xs h.0 i

  any-sort_by :
      (k : ℕ) (xs : List A)
      → any (λ y. key y == k) xs ≡ false
      → any (λ y. key y == k) (sort_by smaller xs) ≡ false
  any-sort_by k xs h = elim (Bool-cases (any (λ y. key y == k) (sort_by smaller xs))) [
    | inr e ↦ e
    | inl e ↦
        let (y, m, q) = any-In (λ y. key y == k) (sort_by smaller xs) e in
        absurd (cc (any-false (λ y. key y == k) xs h y (sort_by-In smaller xs y m)))
  ]

  -- ORDER BY a key without repetition.
  pub sort_by-Ascending : (xs : List A) → DistinctBy key xs → Ascending key (sort_by smaller xs)
  sort_by-Ascending [] d = tt
  sort_by-Ascending (x ∷ xs) d =
      insert_by-Ascending x (sort_by smaller xs) (any-sort_by (key x) xs d.0)
        (sort_by-Ascending xs d.1)
