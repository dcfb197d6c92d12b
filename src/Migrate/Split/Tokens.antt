-- ===== src/Migrate/Split/Tokens.antt =====
-- The text of SQL scripts in tokens, and how splitSQLStatements cuts it.
use im_backend.Prelude.{
  ℕ, ◌+◌, ◌≡◌, refl, sym, ap, subst, ◌∙◌, true, false, List, [], ◌∷◌, ◌++◌, some, arith, ◌==◌,
  length, take, append_assoc, All,
}
use im_backend.Message.{Text}
use im_backend.Migrate.Split.{
  Mode, plain, dollar_quote, is_tag_byte, tag_bytes, open_dollar, starts_with, move, code_byte,
  pass, drop, next_is,
}
use im_backend.Migrate.Split.Moves.{Passes, then-Passes, move-Passes, Stays, body-Passes}

-- A byte of code, a text in single or double quotes, a comment to the end of the line or in
-- slashes and stars, and a text between two dollar quotes with a tag.
pub data Token : Type 0 where
  code : ℕ → Token
  quoted named line block : Text → Token
  dollar : Text → Text → Token

abbrev pub render : Token → Text
render (code c) = c ∷ []
render (quoted t) = 39 ∷ (t ++ (39 ∷ []))
render (named t) = 34 ∷ (t ++ (34 ∷ []))
render (line t) = 45 ∷ 45 ∷ (t ++ (10 ∷ []))
render (block t) = 47 ∷ 42 ∷ (t ++ (42 ∷ 47 ∷ []))
render (dollar tag t) = (36 ∷ (tag ++ (36 ∷ []))) ++ (t ++ (36 ∷ (tag ++ (36 ∷ []))))

abbrev pub render_all : List Token → Text
render_all [] = []
render_all (t ∷ ts) = render t ++ render_all ts

abbrev pub Without : ℕ → Text → Type 0
Without q = All (λ c. (c == q) ≡ false)

-- No byte of code opens a quote or a comment or ends a statement, and no inner text holds the byte
-- that its end begins with; the bytes of the other kinds may stand in it, semicolons too.
abbrev pub IsToken : Token → Type 0
IsToken (code c) = All (λ q. (c == q) ≡ false) (39 ∷ 34 ∷ 36 ∷ 59 ∷ 45 ∷ 47 ∷ [])
IsToken (quoted t) = Without 39 t
IsToken (named t) = Without 34 t
IsToken (line t) = Without 10 t
IsToken (block t) = Without 42 t
IsToken (dollar tag t) = All (λ c. is_tag_byte c ≡ true) tag × Without 36 t

-- A quote that is closed is not doubled.
abbrev pub IsClosedBy : Token → Text → Type 0
IsClosedBy (quoted t) rest = next_is 39 rest ≡ false
IsClosedBy (named t) rest = next_is 34 rest ≡ false
IsClosedBy _ rest = Unit

abbrev pub IsStatement : List Token → Type 0
IsStatement [] = Unit
IsStatement (t ∷ ts) = IsToken t × IsClosedBy t (render_all ts) × IsStatement ts

pub Without-Stays :
    (m : Mode) (q : ℕ) (t : Text)
    → ((c : ℕ) → (c == q) ≡ false → Stays m c)
    → Without q t
    → All (Stays m) t
Without-Stays m q [] f h = tt
Without-Stays m q (c ∷ t) f h = (f c h.0, Without-Stays m q t f h.1)

pub enclosed-Passes :
    (m : Mode) (open_text t close rest : Text)
    → Passes plain (open_text ++ (t ++ (close ++ rest))) open_text m (t ++ (close ++ rest))
    → All (Stays m) t
    → Passes m (close ++ rest) close plain rest
    → Passes plain ((open_text ++ (t ++ close)) ++ rest) (open_text ++ (t ++ close)) plain rest
enclosed-Passes m open_text t close rest first stays last =
    subst (λ s. Passes plain s (open_text ++ (t ++ close)) plain rest)
      (sym
        (append_assoc open_text (t ++ close) rest ∙ ap (open_text ++◌) (append_assoc t close rest)))
      (then-Passes plain m plain (open_text ++ (t ++ (close ++ rest))) (t ++ (close ++ rest)) rest
        open_text (t ++ close) first
        (then-Passes m m plain (t ++ (close ++ rest)) (close ++ rest) rest t close
          (body-Passes m t (close ++ rest) stays) last))

take-length : (p r : Text) → take (length p) (p ++ r) ≡ p
take-length [] r = refl
take-length (c ∷ p) r = ap (◌∷◌ c) (take-length p r)

drop-length : (p r : Text) → drop (length p) (p ++ r) ≡ r
drop-length [] r = refl
drop-length (c ∷ p) r = drop-length p r

-- A move that passes the text `p` behind its byte.
whole-Passes :
    (m m' : Mode) (c : ℕ) (p rest : Text)
    → move m c (p ++ rest) ≡ pass m' (length p)
    → Passes m (c ∷ (p ++ rest)) (c ∷ p) m' rest
whole-Passes m m' c p rest e =
    subst (λ q. Passes m (c ∷ (p ++ rest)) (c ∷ q) m' rest) (take-length p rest)
      (subst (λ u. Passes m (c ∷ (p ++ rest)) (c ∷ take (length p) (p ++ rest)) m' u)
        (drop-length p rest) (move-Passes m m' (length p) c (p ++ rest) e))

module _ (tag : Text) (h : All (λ c. is_tag_byte c ≡ true) tag) where
  mark : Text
  mark = tag ++ (36 ∷ [])

  tag_bytes-mark :
      (tag rest : Text)
      → All (λ c. is_tag_byte c ≡ true) tag
      → tag_bytes ((tag ++ (36 ∷ [])) ++ rest) ≡ some tag
  unfolding tag_bytes
  tag_bytes-mark [] rest h = refl
  tag_bytes-mark (c ∷ tag) rest h = rw (h.0, tag_bytes-mark tag rest h.1) refl

  length-mark : (tag : Text) → length tag + 1 ≡ length (tag ++ (36 ∷ []))
  length-mark [] = refl
  length-mark (c ∷ tag) = omega (arith, length-mark tag)

  starts-mark : (p rest : Text) → starts_with p (p ++ rest) ≡ true
  starts-mark [] rest = refl
  starts-mark (c ∷ p) rest = ground (arith, starts-mark p rest)

  opened :
      (rest : Text) → move plain 36 (mark ++ rest) ≡ pass (dollar_quote (36 ∷ mark)) (length mark)
  unfolding mark move code_byte open_dollar
  opened rest =
      rw (tag_bytes-mark tag rest h) (ap (pass (dollar_quote (36 ∷ mark))) (length-mark tag))

  closed :
      (rest : Text) → move (dollar_quote (36 ∷ mark)) 36 (mark ++ rest) ≡ pass plain (length mark)
  unfolding move
  closed rest = rw (starts-mark mark rest) refl

  pub dollar-Passes :
      (t rest : Text)
      → Without 36 t
      → Passes plain (render (dollar tag t) ++ rest) (render (dollar tag t)) plain rest
  unfolding mark move
  dollar-Passes t rest w =
      enclosed-Passes (dollar_quote (36 ∷ mark)) (36 ∷ mark) t (36 ∷ mark) rest
        (whole-Passes plain (dollar_quote (36 ∷ mark)) 36 mark (t ++ ((36 ∷ mark) ++ rest))
          (opened (t ++ ((36 ∷ mark) ++ rest))))
        (Without-Stays (dollar_quote (36 ∷ mark)) 36 t (λ c e r. ground (arith, e)) w)
        (whole-Passes (dollar_quote (36 ∷ mark)) plain 36 mark rest (closed rest))
