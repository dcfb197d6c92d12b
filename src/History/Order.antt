-- ===== src/History/Order.antt =====
-- The order of a page of message_history.go: turned round, a descending run ascends.
use im_backend.Prelude.{
  ℕ, zero, suc, ◌+◌, ◌-◌, min, ◌≤◌, ◌≡◌, refl, sym, ap, subst, ◌∙◌, List, [], ◌∷◌, ◌++◌, arith,
  length, length-append, length-take, take, reverse,
}
use im_backend.Message.{Message}
use im_backend.Sync.Window.{Run}

-- The sequences are top, top - 1, and so on.
abbrev Down : ℕ → List Message → Type 0
Down top [] = Unit
Down top (m ∷ rest) = (m.conversation_seq ≡ top) × Down (top - 1) rest

length-reverse {ℓ} : {A : Type ℓ} (xs : List A) → length (reverse xs) ≡ length xs
length-reverse [] = refl
length-reverse (x ∷ xs) = length-append (reverse xs) (x ∷ []) ∙ omega (arith, length-reverse xs)

Down-append :
    (top : ℕ) (ys : List Message) (m : Message)
    → Down top ys
    → m.conversation_seq ≡ top - length ys
    → Down top (ys ++ (m ∷ []))
Down-append top [] m d e = (omega (arith, e), tt)
Down-append top (y ∷ ys) m d e = (d.0, Down-append (top - 1) ys m d.1 (omega (arith, e)))

Run-append :
    (start : ℕ) (ys : List Message) (m : Message)
    → Run start ys
    → m.conversation_seq ≡ start + length ys + 1
    → Run start (ys ++ (m ∷ []))
Run-append start [] m r e = (omega (arith, e), tt)
Run-append start (y ∷ ys) m r e = (r.0, Run-append (start + 1) ys m r.1 (omega (arith, e)))

Down-reverse :
    (start : ℕ) (xs : List Message) → Run start xs → Down (start + length xs) (reverse xs)
Down-reverse start [] r = tt
Down-reverse start (x ∷ xs) r =
    Down-append (start + suc (length xs)) (reverse xs) x
      (subst (λ k. Down k (reverse xs)) (omega arith) (Down-reverse (start + 1) xs r.1))
      (omega (arith, r.0, length-reverse xs))

Run-reverse :
    (top : ℕ) (xs : List Message)
    → length xs ≤ top
    → Down top xs
    → Run (top - length xs) (reverse xs)
Run-reverse top [] le d = tt
Run-reverse top (x ∷ xs) le d =
    Run-append (top - suc (length xs)) (reverse xs) x
      (subst (λ k. Run k (reverse xs)) (omega (arith, le))
        (Run-reverse (top - 1) xs (omega (arith, le)) d.1))
      (omega (arith, d.0, length-reverse xs, le))

Down-take : (n top : ℕ) (xs : List Message) → Down top xs → Down top (take n xs)
Down-take zero top xs d = tt
Down-take (suc n) top [] d = tt
Down-take (suc n) top (x ∷ xs) d = (d.0, Down-take n (top - 1) xs d.1)

pub Run-take : (n start : ℕ) (xs : List Message) → Run start xs → Run start (take n xs)
Run-take zero start xs d = tt
Run-take (suc n) start [] d = tt
Run-take (suc n) start (x ∷ xs) d = (d.0, Run-take n (start + 1) xs d.1)

pub take-more {ℓ} : {A : Type ℓ} (n : ℕ) (xs : List A) → take n (take (suc n) xs) ≡ take n xs
take-more zero xs = refl
take-more (suc n) [] = refl
take-more (suc n) (x ∷ xs) = ap (◌∷◌ x) (take-more n xs)

pub down-page :
    (limit top : ℕ) (xs : List Message)
    → Run 0 xs
    → length xs ≡ top
    → let page = reverse (take limit (take (suc limit) (reverse xs))) in
      (length page ≡ min limit top) × Run (top - length page) page
down-page limit top xs run size = rw (take-more limit (reverse xs)) (counted, placed)
  where
    rows : List Message
    rows = take limit (reverse xs)

    count : length rows ≡ min limit top
    count = omega (arith, length-take limit (reverse xs), length-reverse xs, size)

    counted : length (reverse rows) ≡ min limit top
    counted = length-reverse rows ∙ count

    down : Down top rows
    down =
        Down-take limit top (reverse xs)
          (subst (λ k. Down k (reverse xs)) (omega (arith, size)) (Down-reverse 0 xs run))

    placed : Run (top - length (reverse rows)) (reverse rows)
    placed =
        subst (λ k. Run (top - k) (reverse rows)) (sym (length-reverse rows))
          (Run-reverse top rows (omega (arith, count)) down)
