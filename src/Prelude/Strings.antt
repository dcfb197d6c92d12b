-- ===== src/Prelude/Strings.antt =====
-- The code points of a text literal, and strings.Split, strings.Join and strings.TrimSpace.
use Prim.Native.Nat.{ℕ}
use Prim.Native.Char.{code}
use Prim.Native.String.{String}
use mathlib.Core.Path.{◌≡◌, refl}
use mathlib.Core.Bool.{Bool, false, ◌&&◌, ◌||◌}
use mathlib.Core.List.{List, [], ◌∷◌, ◌++◌}
use native.Mathlib.Omega.{arith}
use im_backend.Prelude.Tests.{leb, ◌==◌, if◌then◌else◌, ==_refl}
use im_backend.Prelude.Lists.{All, reverse}

abbrev pub codes : String → List ℕ
codes String.[] = []
codes (String.◌∷◌ c s) = code c ∷ codes s

-- strings.Split by one rune: the first part and the others.
unfoldable pub split : ℕ → List ℕ → List ℕ × List (List ℕ)
split separator [] = ([], [])
split separator (r ∷ rest) =
    let (first, others) = split separator rest in
    if r == separator then ([], first ∷ others) else (r ∷ first, others)

unfoldable pub parts : ℕ → List ℕ → List (List ℕ)
unfolding split
parts separator text = let (first, others) = split separator text in first ∷ others

-- strings.Join by one rune.
unfoldable pub join : ℕ → List (List ℕ) → List ℕ
join separator [] = []
join separator (p ∷ []) = p
join separator (p ∷ q ∷ rest) = p ++ (separator ∷ join separator (q ∷ rest))

-- unicode.IsSpace
unfoldable pub is_space : ℕ → Bool
is_space r =
    (leb 9 r && leb r 13)
    || r == 32
    || r == 0x85
    || r == 0xA0
    || r == 0x1680
    || (leb 0x2000 r && leb r 0x200A)
    || r == 0x2028
    || r == 0x2029
    || r == 0x202F
    || r == 0x205F
    || r == 0x3000

unfoldable pub trim_left : List ℕ → List ℕ
unfolding is_space
trim_left [] = []
trim_left (r ∷ rest) = if is_space r then trim_left rest else r ∷ rest

unfoldable pub trim_space : List ℕ → List ℕ
unfolding trim_left
trim_space text = reverse (trim_left (reverse (trim_left text)))

-- A text is split on both sides of a separator as if the sides were apart.
pub parts-append :
    (separator : ℕ) (x y : List ℕ)
    → parts separator (x ++ (separator ∷ y)) ≡ parts separator x ++ parts separator y
unfolding parts
parts-append separator [] y = rw (==_refl separator) refl
parts-append separator (r ∷ x) y = ground (arith, parts-append separator x y)

-- A text without the separator is one part.
pub parts_single :
    (separator : ℕ) (x : List ℕ)
    → All (λ r. (r == separator) ≡ false) x
    → parts separator x ≡ x ∷ []
unfolding parts
parts_single separator [] h = refl
parts_single separator (r ∷ x) h = ground (arith, parts_single separator x h.1)
