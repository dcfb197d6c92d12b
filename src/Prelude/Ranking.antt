-- ===== src/Prelude/Ranking.antt =====
-- The first entries of a list in an order: ORDER BY with LIMIT.
use Prim.Native.Nat.{ℕ, zero, suc, ◌+◌, ◌≤◌}
use mathlib.Core.Path.{◌≡◌, refl, subst}
use mathlib.Core.Logic.{◌⊎◌, inl, inr}
use mathlib.Core.Bool.{Bool, true, false, ◌||◌}
use mathlib.Core.List.{List, [], ◌∷◌}
use native.Mathlib.Omega.{arith}
use im_backend.Prelude.Tests.{Bool-cases, ◌==◌, ==_iff}
use im_backend.Prelude.Lists.{length, take, keep, any, All, All-map_to}
use im_backend.Prelude.Member.{In, In-All, All-In}
use im_backend.Prelude.Distinct.{DistinctBy, keep_key-le-one, keep_none}
use im_backend.Prelude.Sorting.{insert_by, sort_by, insert_by-In}

module _ {ℓ} {A : Type ℓ} (before : A → A → Bool) where
  abbrev pub SortedBy : List A → Type ℓ
  SortedBy [] = Unit
  SortedBy (x ∷ xs) = All (λ y. before x y ≡ true) xs × SortedBy xs

  module _ (total : (a b : A) → before a b ≡ false → before b a ≡ true)
      (transitive : (a b c : A) → before a b ≡ true → before b c ≡ true → before a c ≡ true) where
    insert_by-SortedBy : (x : A) (xs : List A) → SortedBy xs → SortedBy (insert_by before x xs)
    insert_by-SortedBy x [] h = (tt, tt)
    insert_by-SortedBy x (y ∷ xs) h = elim (Bool-cases (before x y)) [
      | inl e ↦ rw e ((e, All-map_to xs (λ z q. transitive x y z e q) h.0), h)
      | inr e ↦ rw e (
        In-All (λ z. before y z ≡ true) (insert_by before x xs)
            (λ z m. behind e z (insert_by-In before x xs z m)),
        insert_by-SortedBy x xs h.1,
      )
    ]
      where
        behind : before x y ≡ false → (z : A) → (x ≡ z) ⊎ In z xs → before y z ≡ true
        behind e z (inl q) = subst (λ w. before y w ≡ true) q (total x y e)
        behind e z (inr i) = All-In (λ w. before y w ≡ true) xs h.0 i

    pub sort_by-SortedBy : (xs : List A) → SortedBy (sort_by before xs)
    sort_by-SortedBy [] = tt
    sort_by-SortedBy (x ∷ xs) = insert_by-SortedBy x (sort_by before xs) (sort_by-SortedBy xs)

  -- What is not among the first comes after all of them.
  pub take-first :
      (n : ℕ) (xs : List A) (a b : A)
      → SortedBy xs
      → In a (take n xs)
      → In b xs
      → In b (take n xs) ⊎ (before a b ≡ true)
  take-first zero xs a b h m i = absurd m.1
  take-first (suc n) [] a b h m i = absurd i.1
  take-first (suc n) (x ∷ xs) a b h m (inl e) = inl (inl e)
  take-first (suc n) (x ∷ xs) a b h (inl e) (inr i) =
      inr (subst (λ z. before z b ≡ true) e (All-In (λ y. before x y ≡ true) xs h.0 i))
  take-first (suc n) (x ∷ xs) a b h (inr m) (inr i) = elim (take-first n xs a b h.1 m i) [
    | inl k ↦ inl (inr k)
    | inr q ↦ inr q
  ]

  any-insert_by :
      (p : A → Bool) (x : A) (xs : List A)
      → p x ≡ false
      → any p xs ≡ false
      → any p (insert_by before x xs) ≡ false
  any-insert_by p x [] h k = ground arith
  any-insert_by p x (y ∷ xs) h k = ground (arith, any-insert_by p x xs)

  any-sort_by : (p : A → Bool) (xs : List A) → any p xs ≡ false → any p (sort_by before xs) ≡ false
  any-sort_by p [] h = refl
  any-sort_by p (x ∷ xs) h =
      any-insert_by p x (sort_by before xs) (ground arith) (any-sort_by p xs (ground arith))

any-take {ℓ} :
    {A : Type ℓ} (p : A → Bool) (n : ℕ) (xs : List A) → any p xs ≡ false → any p (take n xs) ≡ false
any-take p zero xs h = refl
any-take p (suc n) [] h = refl
any-take p (suc n) (x ∷ xs) h = ground (arith, any-take p n xs)

module _ {ℓ} {A : Type ℓ} (key : A → ℕ) where
  insert_by-DistinctBy :
      (before : A → A → Bool) (x : A) (xs : List A)
      → any (λ y. key y == key x) xs ≡ false
      → DistinctBy key xs
      → DistinctBy key (insert_by before x xs)
  insert_by-DistinctBy before x [] new d = (refl, tt)
  insert_by-DistinctBy before x (y ∷ xs) new d = elim (Bool-cases (before x y)) [
    | inl e ↦ rw e (new, d)
    | inr e ↦ rw e (
      any-insert_by before (λ z. key z == key y) x xs (ground arith) d.0,
      insert_by-DistinctBy before x xs (ground arith) d.1,
    )
  ]

  pub sort_by-DistinctBy :
      (before : A → A → Bool) (xs : List A) → DistinctBy key xs → DistinctBy key (sort_by before xs)
  sort_by-DistinctBy before [] d = tt
  sort_by-DistinctBy before (x ∷ xs) d =
      insert_by-DistinctBy before x (sort_by before xs)
        (any-sort_by before (λ y. key y == key x) xs d.0) (sort_by-DistinctBy before xs d.1)

  pub DistinctBy-take : (n : ℕ) (xs : List A) → DistinctBy key xs → DistinctBy key (take n xs)
  DistinctBy-take zero xs d = tt
  DistinctBy-take (suc n) [] d = tt
  DistinctBy-take (suc n) (x ∷ xs) d =
      (any-take (λ y. key y == key x) n xs d.0, DistinctBy-take n xs d.1)

  keep_or-eq :
      (p q : A → Bool) (xs : List A)
      → ((x : A) → p x ≡ true → q x ≡ false)
      → length (keep (λ x. p x || q x) xs) ≡ length (keep p xs) + length (keep q xs)
  keep_or-eq p q [] h = omega arith
  keep_or-eq p q (x ∷ xs) h = ground (arith, h x, keep_or-eq p q xs h)

  keep-some : (p : A → Bool) (xs : List A) → any p xs ≡ true → 1 ≤ length (keep p xs)
  keep-some p [] h = cc
  keep-some p (x ∷ xs) h = ground (arith, keep-some p xs)

  -- As many entries are named by distinct keys that all occur.
  pub keep_named-eq :
      (named xs : List A)
      → DistinctBy key named
      → DistinctBy key xs
      → All (λ n. any (λ x. key n == key x) xs ≡ true) named
      → length (keep (λ x. any (λ n. key n == key x) named) xs) ≡ length named
  keep_named-eq [] xs d e h = keep_none key xs
  keep_named-eq (n ∷ named) xs d e h = omega (
    arith,
    keep_or-eq (λ x. key n == key x) (λ x. any (λ m. key m == key x) named) xs apart,
    keep_key-le-one key (key n) xs e,
    keep-some (λ x. key n == key x) xs h.0,
    keep_named-eq named xs d.1 e h.1,
  )
    where
      apart : (x : A) → (key n == key x) ≡ true → any (λ m. key m == key x) named ≡ false
      apart x q =
          subst (λ k. any (λ m. key m == k) named ≡ false) ((==_iff (key n) (key x)).0 q) d.0
