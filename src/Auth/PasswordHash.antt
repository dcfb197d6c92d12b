-- ===== src/Auth/PasswordHash.antt =====
-- auth.go: hashPassword and verifyPassword, with what they use of fmt. Argon2 and the encoding of its
-- bytes are fields of Library. A stored hash of zero rounds or lanes, at which Argon2 panics, is read
-- as any other here; hashPassword writes none.
pub mod RoundTrip
use im_backend.Prelude.{
  ℕ, zero, suc, ◌+◌, ◌-◌, ◌*◌, ◌^◌, Bool, true, false, ◌&&◌, ◌||◌, not, List, [], ◌∷◌, ◌++◌, Option,
  none, some, leb, ltb, ◌==◌, if◌then◌else◌, codes, parts, is_space, length,
}
use im_backend.Message.{Text}
use im_backend.Messages.Store.{text_eq}
use im_backend.Auth.Cipher.{Library}

abbrev pub argon_version : ℕ
argon_version = 0x13

abbrev pub argon_memory : ℕ
argon_memory = 19 * 1024

abbrev pub argon_iterations : ℕ
argon_iterations = 2

abbrev pub argon_parallelism : ℕ
argon_parallelism = 1

abbrev pub argon_key_length : ℕ
argon_key_length = 32

-- The salt is what rand.Read draws.
unfoldable pub hash_password : Library → Text → Text → Text
hash_password lib salt password =
    codes "$argon2id$v=19$m=19456,t=2,p=1$"
    ++ (lib.raw_encode salt
        ++ (36
            ∷ lib.raw_encode (
                lib.argon2_key password salt argon_iterations argon_memory argon_parallelism
                  argon_key_length)))

-- The literal characters of a format of fmt.Sscanf.
unfoldable pub expect : Text → Text → Option Text
expect [] text = some text
expect (l ∷ literal) [] = none
expect (l ∷ literal) (c ∷ text) = let rest = expect literal text in if l == c then rest else none

-- Before a number fmt.Sscanf skips spaces, and refuses a line's end.
unfoldable pub skip_space : Text → Option Text
unfolding is_space
skip_space [] = some []
skip_space (c ∷ text) =
    let rest = skip_space text in
    if c == 10 then none else if is_space c then rest else some (c ∷ text)

abbrev pub is_digit : ℕ → Bool
is_digit c = leb 48 c && leb c 57

unfoldable pub scan_digits : ℕ → Text → ℕ × Text
scan_digits n [] = (n, [])
scan_digits n (c ∷ text) =
    let more = scan_digits (n * 10 + (c - 48)) text in if is_digit c then more else (n, c ∷ text)

-- A number needs a digit and lies below the bound of its type.
unfoldable pub scan_number : ℕ → Text → Option (ℕ × Text)
unfolding scan_digits
scan_number bound [] = none
scan_number bound (c ∷ text) =
    let (n, rest) = scan_digits 0 (c ∷ text) in
    if is_digit c && ltb n bound then some (n, rest) else none

unfoldable pub scan_uint : ℕ → Text → Option (ℕ × Text)
unfolding skip_space scan_number
scan_uint bound text = elim (skip_space text) [ none ↦ none | some rest ↦ scan_number bound rest ]

-- %d of an int may have a sign. A negative version is not the version of the library, and is refused
-- as a version that cannot be read is.
unfoldable pub scan_int : Text → Option (ℕ × Text)
unfolding skip_space scan_number
scan_int text = elim (skip_space text) [
  | none ↦ none
  | some [] ↦ none
  | some (c ∷ rest) ↦ scan_number (2 ^ 63) (if c == b'+' then rest else c ∷ rest)
]

unfoldable pub has_version : Text → Bool
unfolding expect scan_int
has_version text = elim (expect (codes "v=") text) [
  | none ↦ false
  | some rest ↦ elim (scan_int rest) [ none ↦ false | some (n, after) ↦ n == argon_version ]
]

unfoldable pub number_after : Text → ℕ → Text → Option (ℕ × Text)
unfolding expect scan_uint
number_after literal bound text = elim (expect literal text) [
  | none ↦ none
  | some rest ↦ scan_uint bound rest
]

-- m=%d,t=%d,p=%d into two uint32 and a uint8. What stands behind is not read.
unfoldable pub scan_parameters : Text → Option (ℕ × ℕ × ℕ)
unfolding number_after
scan_parameters text = elim (number_after (codes "m=") (2 ^ 32) text) [
  | none ↦ none
  | some (memory, behind_m) ↦ elim (number_after (codes ",t=") (2 ^ 32) behind_m) [
    | none ↦ none
    | some (iterations, behind_t) ↦ elim (number_after (codes ",p=") (2 ^ 8) behind_t) [
      | none ↦ none
      | some (parallelism, behind_p) ↦ some (memory, iterations, parallelism)
    ]
  ]
]

-- The two texts in base64 and the comparison of the keys.
unfoldable pub verify_key : Library → Text → ℕ × ℕ × ℕ → Text → Text → Option Bool
verify_key lib password (memory, iterations, parallelism) salt_text hash_text =
    elim (lib.raw_decode salt_text) [
      | none ↦ none
      | some salt ↦ elim (lib.raw_decode hash_text) [
        | none ↦ none
        | some expected ↦ some (
            text_eq (lib.argon2_key password salt iterations memory parallelism (length expected))
              expected)
      ]
    ]

unfoldable pub verify_parts : Library → Text → List Text → Option Bool
unfolding has_version scan_parameters
verify_parts lib password (before ∷ name ∷ version ∷ parameters ∷ salt ∷ hash ∷ []) =
    if not (text_eq name (codes "argon2id")) || not (has_version version)
    then none
    else elim (scan_parameters parameters) [
      | none ↦ none
      | some read ↦ verify_key lib password read salt hash
    ]
verify_parts lib password other = none

-- none is an error: the stored hash cannot be read.
unfoldable pub verify_password : Library → Text → Text → Option Bool
verify_password lib password encoded = verify_parts lib password (parts 36 encoded)
