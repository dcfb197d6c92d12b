-- ===== src/Sync/Page.antt =====
-- conversation_sync.go: syncConversationMessages and listConversations. A statement that fails is
-- `none`; each statement has the database that it sees, since others may commit in between.
use im_backend.Prelude.{
  ok, err, refuse_if, ◌>>=◌, ◌>>◌, ℕ, suc, zero, Bool, true, false, ◌&&◌, List, [], ◌∷◌, Option,
  none, some, leb, ltb, ◌==◌, if◌then◌else◌, any, keep, take, sort_by, max,
}
use im_backend.Message.{Text, Message}
use im_backend.Messages.Database.{Conversation, Database}
use im_backend.Messages.Store.{find_conversation}
use im_backend.Sync.Request.{
  Response, internal_error, conversation_not_found, cursor_ahead, Parameter, Pagination,
  parse_snapshot_pagination, validate_snapshot_cursor, parse_conversation_id,
}

pub record ConversationMessagePage : Type 0 where
  pub conversation_id : ℕ
  pub messages : List Message
  pub next_cursor : ℕ
  pub snapshot_cursor : ℕ
  pub has_more : Bool

unfoldable pub is_member : ℕ → ℕ → Database → Bool
is_member user conversation db =
    any (λ m. (m.user_id == user) && (m.conversation_id == conversation)) db.members

-- SELECT conversation.last_seq … WHERE member.user_id = $1 AND conversation.id = $2
unfoldable pub current_cursor : ℕ → ℕ → Database → Option ℕ
unfolding is_member
current_cursor user conversation db =
    if is_member user conversation db
    then elim (find_conversation conversation db) [ none ↦ none | some c ↦ some c.last_seq ]
    else none

-- What the two statements of a request see; a statement that fails sees nothing.
pub record Reads : Type 0 where
  pub first : Option Database
  pub second : Option Database

unfoldable pub found_cursor : Option ℕ → Response ℕ
found_cursor none = err conversation_not_found
found_cursor (some n) = ok n

unfoldable pub read_cursor : ℕ → ℕ → Option Database → Response ℕ
unfolding found_cursor
read_cursor user conversation none = err internal_error
read_cursor user conversation (some db) = found_cursor (current_cursor user conversation db)

unfoldable pub in_window : ℕ → ℕ → ℕ → Message → Bool
in_window conversation after snapshot m =
    (m.conversation_id == conversation)
    && ltb after m.conversation_seq
    && leb m.conversation_seq snapshot

abbrev pub by_seq : Message → Message → Bool
by_seq a b = ltb a.conversation_seq b.conversation_seq

-- The rows of the window in the order of the sequence, with one row more than the limit.
unfoldable pub page_rows : ℕ → ℕ → ℕ → ℕ → Database → List Message
unfolding in_window
page_rows conversation after snapshot limit db =
    take (suc limit) (sort_by by_seq (keep (in_window conversation after snapshot) db.messages))

-- The loop over the rows: it stops at the first row behind a full page.
unfoldable pub collect {ℓ} : {A : Type ℓ} → ℕ → List A → List A × Bool
collect limit [] = ([], false)
collect zero (x ∷ rest) = ([], true)
collect (suc limit) (x ∷ rest) = let (page, more) = collect limit rest in (x ∷ page, more)

abbrev pub last_key {ℓ} : {A : Type ℓ} → (A → ℕ) → ℕ → List A → ℕ
last_key key default [] = default
last_key key default (x ∷ rest) = last_key key (key x) rest

unfoldable pub page_of : ℕ → ℕ → ℕ → List Message × Bool → ConversationMessagePage
page_of conversation after snapshot p = record {
  conversation_id = conversation;
  messages = p.0;
  next_cursor = last_key (λ m. m.conversation_seq) after p.0;
  snapshot_cursor = snapshot;
  has_more = p.1;
}

unfoldable pub read_page : ℕ → ℕ → ℕ → ℕ → Option Database → Response ConversationMessagePage
unfolding page_rows page_of collect
read_page conversation after snapshot limit none = err internal_error
read_page conversation after snapshot limit (some db) = ok (
    page_of conversation after snapshot
      (collect limit (page_rows conversation after snapshot limit db)))

-- The request behind its parsing.
unfoldable pub sync_page : ℕ → ℕ → Pagination → Reads → Response ConversationMessagePage
unfolding read_cursor read_page validate_snapshot_cursor
sync_page user conversation p reads = do
  current ← read_cursor user conversation reads.first
  refuse_if (ltb current p.after) cursor_ahead
  snapshot ← validate_snapshot_cursor p.snapshot p.after current
  read_page conversation p.after snapshot p.limit reads.second

unfoldable pub sync_conversation_messages :
    ℕ → Text → List Parameter → Reads → Response ConversationMessagePage
unfolding sync_page parse_conversation_id parse_snapshot_pagination
sync_conversation_messages user path query reads = do
  conversation ← parse_conversation_id path
  pagination ← parse_snapshot_pagination query
  sync_page user conversation pagination reads

pub record ConversationListResponse : Type 0 where
  pub conversations : List Conversation
  pub next_cursor : ℕ
  pub snapshot_cursor : ℕ
  pub has_more : Bool

abbrev is_direct_conversation : Conversation → Bool
is_direct_conversation c = elim c.direct_users [ none ↦ false | some _ ↦ true ]

unfoldable pub is_listed : ℕ → Database → Conversation → Bool
is_listed user db c = is_member user c.id db && is_direct_conversation c

abbrev largest_id : List Conversation → ℕ
largest_id [] = 0
largest_id (c ∷ rest) = max c.id (largest_id rest)

-- SELECT COALESCE(max(conversation.id), 0)
unfoldable pub list_cursor : ℕ → Option Database → Response ℕ
list_cursor user none = err internal_error
list_cursor user (some db) = ok (largest_id (keep (is_listed user db) db.conversations))

unfoldable pub list_rows : ℕ → ℕ → ℕ → ℕ → Database → List Conversation
list_rows user after snapshot limit db = take (suc limit) (
    sort_by (λ a b. ltb a.id b.id)
      (keep (λ c. is_listed user db c && ltb after c.id && leb c.id snapshot) db.conversations))

unfoldable pub list_page_of : ℕ → ℕ → List Conversation × Bool → ConversationListResponse
list_page_of after snapshot p = record {
  conversations = p.0;
  next_cursor = last_key (λ c. c.id) after p.0;
  snapshot_cursor = snapshot;
  has_more = p.1;
}

unfoldable pub read_list : ℕ → ℕ → ℕ → ℕ → Option Database → Response ConversationListResponse
unfolding list_rows list_page_of
read_list user after snapshot limit none = err internal_error
read_list user after snapshot limit (some db) =
    ok (list_page_of after snapshot (collect limit (list_rows user after snapshot limit db)))

unfoldable pub list_conversations : ℕ → List Parameter → Reads → Response ConversationListResponse
unfolding list_cursor read_list
list_conversations user query reads = do
  p ← parse_snapshot_pagination query
  current ← list_cursor user reads.first
  refuse_if (ltb current p.after) cursor_ahead
  snapshot ← validate_snapshot_cursor p.snapshot p.after current
  read_list user p.after snapshot p.limit reads.second
