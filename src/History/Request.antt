-- ===== src/History/Request.antt =====
-- message_history.go: the query parameters of listMessages and the cursor. `decode` is the reading of a
-- cursor as JSON in base64.
use im_backend.Prelude.{
  Result, ok, err, ◌>>=◌, ℕ, ◌||◌, not, List, [], ◌∷◌, Option, none, some, ltb, ◌==◌, if◌then◌else◌,
  length, str_eq,
}
use im_backend.Prelude.Int.{positive}
use im_backend.Message.{Text}
use im_backend.Messages.Command.{byte_length}
use im_backend.Sync.Request.{Parameter, parse_int}

pub record HistoryCursor : Type 0 where
  pub version : ℕ
  pub conversation_id : ℕ
  pub sequence : ℕ

pub data Direction : Type 0 where
  latest : Direction
  before after : HistoryCursor → Direction

pub data HistoryError : Type 0 where
  invalid_query invalid_peer_id invalid_limit invalid_cursor internal_error : HistoryError

abbrev pub Response {ℓ} : Type ℓ → Type ℓ
Response A = Result HistoryError A

abbrev pub message_history_cursor_version : ℕ
message_history_cursor_version = 2

abbrev max_message_history_cursor_size : ℕ
max_message_history_cursor_size = 512

unfoldable pub check_keys : List Parameter → Response (Unit {0})
check_keys [] = ok tt
check_keys (p ∷ rest) =
    let later = check_keys rest in
    if not (
      str_eq p.key "peerId"
      || str_eq p.key "before"
      || str_eq p.key "after"
      || str_eq p.key "limit")
    then err invalid_query
    else if not (length p.values == 1)
    then err invalid_query
    else later

abbrev positive_or : HistoryError → Text → Response ℕ
positive_or e v = elim (parse_int v) [
  | none ↦ err e
  | some n ↦ elim (positive n) [ none ↦ err e | some k ↦ ok k ]
]

unfoldable pub parse_peer : Option Text → Response ℕ
parse_peer none = err invalid_query
parse_peer (some v) = positive_or invalid_peer_id v

abbrev up_to_200 : ℕ → Response ℕ
up_to_200 n = if ltb 200 n then err invalid_limit else ok n

unfoldable pub parse_limit : Option Text → Response ℕ
parse_limit none = ok 50
parse_limit (some v) = positive_or invalid_limit v >>= up_to_200

unfoldable pub check_cursor : Option HistoryCursor → Response HistoryCursor
check_cursor none = err invalid_cursor
check_cursor (some c) =
    if not (c.version == message_history_cursor_version)
      || (c.conversation_id == 0)
      || (c.sequence == 0)
    then err invalid_cursor
    else ok c

unfoldable pub decode_message_history_cursor :
    (Text → Option HistoryCursor) → Text → Response HistoryCursor
unfolding check_cursor
decode_message_history_cursor decode raw =
    if (length raw == 0) || ltb max_message_history_cursor_size (byte_length raw)
    then err invalid_cursor
    else check_cursor (decode raw)

unfoldable pub parse_direction :
    (Text → Option HistoryCursor) → Option Text → Option Text → Response Direction
parse_direction decode none none = ok latest
parse_direction decode (some raw) none =
    decode_message_history_cursor decode raw >>= λ c. ok (before c)
parse_direction decode none (some raw) =
    decode_message_history_cursor decode raw >>= λ c. ok (after c)
parse_direction decode (some _) (some _) = err invalid_query
