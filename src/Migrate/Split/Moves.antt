-- ===== src/Migrate/Split/Moves.antt =====
-- What the scanner of splitSQLStatements passes over without an end of a statement.
use im_backend.Prelude.{
  ℕ, zero, suc, ◌≤◌, ◌≡◌, refl, sym, ap, ◌∙◌, [], ◌∷◌, ◌++◌, arith, length, take, append_assoc,
  append-nil, All,
}
use im_backend.Message.{Text}
use im_backend.Migrate.Split.{Mode, move, pass, drop, scan}

length-drop : (n : ℕ) (t : Text) → length (drop n t) ≤ length t
length-drop zero t = omega arith
length-drop (suc n) [] = omega arith
length-drop (suc n) (c ∷ t) = omega (arith, length-drop n t)

-- From the mode `m` at the text `t` the scan comes to `m'` at `u`, with `p` added to the piece.
abbrev pub Passes : Mode → Text → Text → Mode → Text → Type 0
Passes m t p m' u =
    (fuel : ℕ) (since : Text)
    → length t ≤ fuel
    → (left : ℕ) × (length u ≤ left) × (scan fuel m since t ≡ scan left m' (since ++ p) u)

pub then-Passes :
    (m m' m'' : Mode) (t u v p q : Text)
    → Passes m t p m' u
    → Passes m' u q m'' v
    → Passes m t (p ++ q) m'' v
then-Passes m m' m'' t u v p q f g fuel since h =
    let (left, k, e) = f fuel since h in
    let (last, l, e') = g left (since ++ p) k in
    (last, l, e ∙ e' ∙ ap (λ s. scan last m'' s v) (append_assoc since p q))

pub move-Passes :
    (m m' : Mode) (n c : ℕ) (rest : Text)
    → move m c rest ≡ pass m' n
    → Passes m (c ∷ rest) (c ∷ take n rest) m' (drop n rest)
unfolding scan
move-Passes m m' n c rest e zero since h = absurd (omega arith)
move-Passes m m' n c rest e (suc fuel) since h =
    (fuel, omega (arith, length-drop n rest), rw e refl)

-- One byte in a mode that it does not change.
abbrev pub Stays : (m : Mode) (c : ℕ) → Type 0
Stays m c = (rest : Text) → move m c rest ≡ pass m 0

pub body-Passes : (m : Mode) (t rest : Text) → All (Stays m) t → Passes m (t ++ rest) t m rest
body-Passes m [] rest h =
    λ fuel since le. (fuel, le, ap (λ s. scan fuel m s rest) (sym (append-nil since)))
body-Passes m (c ∷ t) rest h =
    then-Passes m m m (c ∷ (t ++ rest)) (t ++ rest) rest (c ∷ []) t
      (move-Passes m m 0 c (t ++ rest) (h.0 (t ++ rest))) (body-Passes m t rest h.1)
