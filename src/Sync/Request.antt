-- ===== src/Sync/Request.antt =====
-- conversation_sync.go: parseSnapshotPagination, validateSnapshotCursor and parseConversationID.
-- `parse_int` is strconv.ParseInt in base 10 with 64 bits, and strconv.Atoi on a 64-bit machine.
use im_backend.Prelude.{
  Result, ok, err, ◌>>=◌, ◌>>◌, ℕ, zero, suc, ◌+◌, ◌*◌, ◌-◌, Bool, true, false, ◌&&◌, ◌||◌, not,
  List, [], ◌∷◌, Option, none, some, leb, ltb, ◌==◌, if◌then◌else◌, length, String, str_eq,
}
use im_backend.Prelude.Int.{ℤ, pos, negsuc, positive, natural}
use im_backend.Message.{Text}

pub data ApiError : Type 0 where
  invalid_pagination invalid_conversation_id cursor_ahead conversation_not_found internal_error
        invalid_json invalid_ack :
      ApiError

abbrev pub Response {ℓ} : Type ℓ → Type ℓ
Response A = Result ApiError A

abbrev int64_limit : ℕ
int64_limit = 0x8000000000000000

-- The value of a text of decimal digits, from the left.
abbrev digits : ℕ → Text → Option ℕ
digits n [] = some n
digits n (c ∷ rest) =
    let more = digits (n * 10 + (c - 48)) rest in if leb 48 c && leb c 57 then more else none

abbrev unsigned : Text → Option ℕ
unsigned [] = none
unsigned (c ∷ rest) = digits 0 (c ∷ rest)

abbrev in_range : Bool → Option ℕ → Option ℤ
in_range negative none = none
in_range false (some n) = if ltb n int64_limit then some (pos n) else none
in_range true (some zero) = some (pos zero)
in_range true (some (suc n)) = if ltb n int64_limit then some (negsuc n) else none

abbrev pub parse_int : Text → Option ℤ
parse_int [] = none
parse_int (c ∷ rest) =
    if c == 45
    then in_range true (unsigned rest)
    else if c == 43
    then in_range false (unsigned rest)
    else in_range false (unsigned (c ∷ rest))

-- r.URL.Query(): the values of each key.
pub record Parameter : Type 0 where
  pub key : String
  pub values : List Text

abbrev pub default_conversation_page_limit : ℕ
default_conversation_page_limit = 100

abbrev pub max_conversation_page_limit : ℕ
max_conversation_page_limit = 200

-- One value for each key, and no other keys.
unfoldable pub check_keys : List Parameter → Response (Unit {0})
check_keys [] = ok tt
check_keys (p ∷ rest) =
    let later = check_keys rest in
    if not (str_eq p.key "after" || str_eq p.key "limit" || str_eq p.key "snapshotCursor")
    then err invalid_pagination
    else if not (length p.values == 1)
    then err invalid_pagination
    else later

-- The first value of a key, where the key is given.
unfoldable pub query_value : String → List Parameter → Option Text
query_value k [] = none
query_value k (p ∷ rest) =
    let later = query_value k rest in
    if str_eq p.key k then elim p.values [ [] ↦ none | (v ∷ _) ↦ some v ] else later

abbrev and_then {ℓ κ} : {A : Type ℓ} {B : Type κ} → Option A → (A → Option B) → Option B
and_then none f = none
and_then (some a) f = f a

abbrev or_refuse {ℓ} : {A : Type ℓ} → Option A → ApiError → Response A
or_refuse none e = err e
or_refuse (some a) e = ok a

unfoldable pub parse_after : Option Text → Response ℕ
parse_after none = ok 0
parse_after (some v) = or_refuse (and_then (parse_int v) natural) invalid_pagination

abbrev up_to_max : ℕ → Response ℕ
up_to_max n = if ltb max_conversation_page_limit n then err invalid_pagination else ok n

unfoldable pub parse_limit : Option Text → Response ℕ
parse_limit none = ok default_conversation_page_limit
parse_limit (some v) = or_refuse (and_then (parse_int v) positive) invalid_pagination >>= up_to_max

unfoldable pub parse_snapshot : Option Text → Response (Option ℕ)
parse_snapshot none = ok none
parse_snapshot (some v) =
    or_refuse (and_then (parse_int v) natural) invalid_pagination >>= λ n. ok (some n)

pub record Pagination : Type 0 where
  pub after : ℕ
  pub limit : ℕ
  pub snapshot : Option ℕ

unfoldable pub parse_snapshot_pagination : List Parameter → Response Pagination
unfolding parse_after parse_limit parse_snapshot
parse_snapshot_pagination query = do
  check_keys query
  after ← parse_after (query_value "after" query)
  limit ← parse_limit (query_value "limit" query)
  snapshot ← parse_snapshot (query_value "snapshotCursor" query)
  ok (record { after = after; limit = limit; snapshot = snapshot })

unfoldable pub validate_snapshot_cursor : Option ℕ → ℕ → ℕ → Response ℕ
validate_snapshot_cursor none after current = ok current
validate_snapshot_cursor (some snapshot) after current =
    if ltb snapshot after
    then err invalid_pagination
    else if ltb current snapshot
    then err cursor_ahead
    else ok snapshot

unfoldable pub parse_conversation_id : Text → Response ℕ
parse_conversation_id value =
    or_refuse (and_then (parse_int value) positive) invalid_conversation_id
