-- ===== src/History.antt =====
-- message_history.go: listMessages, the pages of a conversation in both directions. `decode` and
-- `encode` are the reading and the writing of a cursor as JSON in base64.
pub mod Request
pub mod Order
pub mod Pages
mod Tests
use im_backend.Prelude.{
  ok, err, ◌>>=◌, ◌>>◌, refuse_if, ℕ, suc, ◌+◌, Bool, true, false, ◌&&◌, ◌||◌, not, List, [], ◌∷◌,
  ◌++◌, Option, none, some, ltb, ◌==◌, if◌then◌else◌, length, take, keep, find, any, reverse,
  sort_by, String, str_eq,
}
use im_backend.Prelude.Int.{positive}
use im_backend.Message.{Text, Message}
use im_backend.Messages.Command.{byte_length}
use im_backend.Messages.Database.{Conversation, Database}
use im_backend.Messages.Store.{is_direct}
use im_backend.Sync.Request.{Parameter, parse_int, query_value}
use im_backend.Sync.Page.{is_member, by_seq, last_key}
use im_backend.History.Request.{
  HistoryCursor, message_history_cursor_version, Direction, latest, before, after, Response,
  invalid_query, invalid_cursor, internal_error, check_keys, parse_peer, parse_limit,
  parse_direction,
}

-- resolveDirectConversation: the direct conversation of the two users, as the user's.
unfoldable pub resolve : ℕ → ℕ → Database → Option Conversation
resolve user peer db =
    let low = if ltb peer user then peer else user in
    let high = if ltb peer user then user else peer in
    find (λ c. is_direct low high c && is_member user c.id db) db.conversations

unfoldable pub of_conversation : ℕ → Message → Bool
of_conversation id m = m.conversation_id == id

-- The rows of each query in the order of the sequence; a descending order is the reverse.
unfoldable pub history_rows : Direction → ℕ → ℕ → Database → List Message
history_rows latest id limit db =
    take (suc limit) (reverse (sort_by by_seq (keep (of_conversation id) db.messages)))
history_rows (before c) id limit db = take (suc limit) (
    reverse (
      sort_by by_seq
        (keep (λ m. of_conversation id m && ltb m.conversation_seq c.sequence) db.messages)))
history_rows (after c) id limit db = take (suc limit) (
    sort_by by_seq
      (keep (λ m. of_conversation id m && ltb c.sequence m.conversation_seq) db.messages))

pub record HistoryPage : Type 0 where
  pub conversation_id : ℕ
  pub messages : List Message
  pub before_cursor : Option Text
  pub after_cursor : Option Text
  pub has_more_before : Bool
  pub has_more_after : Bool

unfoldable pub in_order : Direction → List Message → List Message
in_order latest xs = reverse xs
in_order (before c) xs = reverse xs
in_order (after c) xs = xs

unfoldable pub more_before : Direction → Bool → Bool
more_before latest more = more
more_before (before c) more = more
more_before (after c) more = true

unfoldable pub more_after : Direction → Bool → Bool
more_after latest more = false
more_after (before c) more = true
more_after (after c) more = more

abbrev cursor_of : ℕ → ℕ → HistoryCursor
cursor_of id n = record {
  version = message_history_cursor_version;
  conversation_id = id;
  sequence = n;
}

abbrev first_cursor : (HistoryCursor → Text) → List Message → Option Text
first_cursor encode [] = none
first_cursor encode (m ∷ rest) = some (encode (cursor_of m.conversation_id m.conversation_seq))

abbrev last_cursor : (HistoryCursor → Text) → List Message → Option Text
last_cursor encode [] = none
last_cursor encode (m ∷ rest) = some (
    encode (
      cursor_of (last_key (λ m. m.conversation_id) m.conversation_id rest)
        (last_key (λ m. m.conversation_seq) m.conversation_seq rest)))

unfoldable pub history_page :
    (HistoryCursor → Text) → Direction → ℕ → ℕ → List Message → HistoryPage
unfolding in_order more_before more_after
history_page encode direction id limit rows =
    let more = ltb limit (length rows) in
    let messages = in_order direction (take limit rows) in
    record {
      conversation_id = id;
      messages = messages;
      before_cursor = first_cursor encode messages;
      after_cursor = last_cursor encode messages;
      has_more_before = more_before direction more;
      has_more_after = more_after direction more;
    }

abbrev empty_page : HistoryPage
empty_page = record {
  conversation_id = 0;
  messages = [];
  before_cursor = none;
  after_cursor = none;
  has_more_before = false;
  has_more_after = false;
}

abbrev is_other : Direction → ℕ → Bool
is_other latest id = false
is_other (before c) id = not (c.conversation_id == id)
is_other (after c) id = not (c.conversation_id == id)

unfoldable pub page_in :
    (HistoryCursor → Text)
    → Direction
    → ℕ
    → Option Conversation
    → Option Database
    → Response HistoryPage
unfolding history_page history_rows
page_in encode latest limit none db = ok empty_page
page_in encode (before c) limit none db = err invalid_cursor
page_in encode (after c) limit none db = err invalid_cursor
page_in encode direction limit (some c) none =
    if is_other direction c.id then err invalid_cursor else err internal_error
page_in encode direction limit (some c) (some db) =
    if is_other direction c.id
    then err invalid_cursor
    else ok (history_page encode direction c.id limit (history_rows direction c.id limit db))

unfoldable pub resolved : ℕ → ℕ → Option Database → Response (Option Conversation)
unfolding resolve
resolved user peer none = err internal_error
resolved user peer (some db) = ok (resolve user peer db)

-- The two statements see `first` and `second`; `none` is a statement that fails.
unfoldable pub list_messages :
    (Text → Option HistoryCursor)
    → (HistoryCursor → Text)
    → ℕ
    → List Parameter
    → Option Database
    → Option Database
    → Response HistoryPage
unfolding parse_peer parse_limit parse_direction resolved page_in
list_messages decode encode user query first second = do
  check_keys query
  peer ← parse_peer (query_value "peerId" query)
  refuse_if (both (query_value "before" query) (query_value "after" query)) invalid_query
  limit ← parse_limit (query_value "limit" query)
  direction ← parse_direction decode (query_value "before" query) (query_value "after" query)
  conversation ← resolved user peer first
  page_in encode direction limit conversation second
  where
    both : Option Text → Option Text → Bool
    both (some _) (some _) = true
    both (some _) none = false
    both none b = false
