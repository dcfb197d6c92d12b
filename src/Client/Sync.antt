-- ===== src/Client/Sync.antt =====
-- internal/headlessclient/client.go: SyncConversation. The pages come from the server, a parameter;
-- `fuel` bounds the pages.
pub mod Pages
pub mod History
pub mod Rounds
pub mod Converge
use im_backend.Prelude.{
  ok, err, ℕ, zero, suc, Bool, true, false, ◌||◌, not, List, [], ◌∷◌, Option, none, some, ltb, ◌==◌,
  if◌then◌else◌,
}
use im_backend.Message.{Message}
use im_backend.Sync.Request.{max_conversation_page_limit}
use im_backend.Sync.Page.{ConversationMessagePage}
use im_backend.Client.State.{
  AuthState, ConversationState, State, invalid_argument, not_authenticated, invalid_page,
  snapshot_changed, page_not_applied, too_many_pages, Answer, Storage, load,
}
use im_backend.Client.Apply.{ApplyResult, conversation_of, apply_message}

-- The accesses to the file in one round of the loop.
pub data Access : Type 0 where
  before_page after_page : Access
  at_message : ℕ → Access

-- The n-th round's answer to a request with `after`, `limit` and `snapshotCursor`, and the fates of
-- its accesses to the file.
pub record World : Type 0 where
  pub serve : ℕ → ℕ → ℕ → Option ℕ → Answer ConversationMessagePage
  pub storage : ℕ → Access → Storage

unfoldable pub apply_page : (ℕ → Storage) → ℕ → List Message → State → State × Answer (Unit {0})
apply_page disk i [] s = (s, ok tt)
apply_page disk i (m ∷ rest) s =
    let (t, result) = apply_message (disk i) m s in
    elim result [ err e ↦ (t, err e) | ok _ ↦ apply_page disk (suc i) rest t ]

-- The snapshot that the round goes on with; 0 where none is known yet.
unfoldable pub check_page : ℕ → ℕ → ℕ → ConversationMessagePage → Answer ℕ
check_page conversation after snapshot page =
    if not (page.conversation_id == conversation) || ltb page.next_cursor after
    then err invalid_page
    else if snapshot == 0
    then ok page.snapshot_cursor
    else if not (page.snapshot_cursor == snapshot)
    then err snapshot_changed
    else ok snapshot

unfoldable pub reached : ℕ → ConversationMessagePage → State → Bool
reached conversation page s = elim (s.conversations conversation) [
  | none ↦ false
  | some c ↦ c.applied_cursor == page.next_cursor
]

unfoldable pub check_reached :
    ℕ → ConversationMessagePage → ℕ → State → Answer State → State × Answer (ℕ × Bool)
unfolding reached
check_reached conversation page snapshot s (err e) = (s, err e)
check_reached conversation page snapshot s (ok state) =
    if reached conversation page state
    then (s, ok (snapshot, page.has_more))
    else (s, err page_not_applied)

unfoldable pub after_messages :
    Storage
    → ℕ
    → ConversationMessagePage
    → ℕ
    → State × Answer (Unit {0})
    → State × Answer (ℕ × Bool)
unfolding check_reached load
after_messages storage conversation page snapshot (s, err e) = (s, err e)
after_messages storage conversation page snapshot (s, ok _) =
    check_reached conversation page snapshot s (load storage s)

unfoldable pub use_page :
    (Access → Storage) → ℕ → ConversationMessagePage → State → Answer ℕ → State × Answer (ℕ × Bool)
unfolding after_messages apply_page
use_page storage conversation page s (err e) = (s, err e)
use_page storage conversation page s (ok snapshot) =
    after_messages (storage after_page) conversation page snapshot
      (apply_page (λ i. storage (at_message i)) 0 page.messages s)

unfoldable pub receive_page :
    (Access → Storage)
    → ℕ
    → ℕ
    → ℕ
    → State
    → Answer ConversationMessagePage
    → State × Answer (ℕ × Bool)
unfolding use_page check_page
receive_page storage conversation after snapshot s (err e) = (s, err e)
receive_page storage conversation after snapshot s (ok page) =
    use_page storage conversation page s (check_page conversation after snapshot page)

abbrev pub request_snapshot : ℕ → Option ℕ
request_snapshot zero = none
request_snapshot (suc n) = some (suc n)

-- The request of a client that is signed in.
unfoldable pub request_signed_in :
    World → ℕ → ℕ → ℕ → ℕ → State → Option AuthState → State × Answer (ℕ × Bool)
unfolding receive_page
request_signed_in w conversation limit n snapshot s none = (s, err not_authenticated)
request_signed_in w conversation limit n snapshot s (some _) =
    let after = (conversation_of s conversation).applied_cursor in
    receive_page (w.storage n) conversation after snapshot s
      (w.serve n after limit (request_snapshot snapshot))

unfoldable pub request_page :
    World → ℕ → ℕ → ℕ → ℕ → State → Answer State → State × Answer (ℕ × Bool)
unfolding request_signed_in
request_page w conversation limit n snapshot s (err e) = (s, err e)
request_page w conversation limit n snapshot s (ok state) =
    request_signed_in w conversation limit n snapshot state state.auth

-- One round: the snapshot to go on with, and whether there is more.
unfoldable pub sync_round : World → ℕ → ℕ → ℕ → ℕ → State → State × Answer (ℕ × Bool)
unfolding request_page load
sync_round w conversation limit n snapshot s =
    request_page w conversation limit n snapshot s (load (w.storage n before_page) s)

unfoldable pub sync_loop : World → ℕ → ℕ → ℕ → ℕ → ℕ → State → State × Answer (Unit {0})
unfolding sync_round
sync_loop w conversation limit zero n snapshot s = (s, err too_many_pages)
sync_loop w conversation limit (suc fuel) n snapshot s =
    let (t, result) = sync_round w conversation limit n snapshot s in
    elim result [
      | err e ↦ (t, err e)
      | ok (next, false) ↦ (t, ok tt)
      | ok (next, true) ↦ sync_loop w conversation limit fuel (suc n) next t
    ]

unfoldable pub sync_conversation : World → ℕ → ℕ → ℕ → State → State × Answer (Unit {0})
unfolding sync_loop
sync_conversation w fuel conversation limit s =
    if (conversation == 0) || (limit == 0) || ltb max_conversation_page_limit limit
    then (s, err invalid_argument)
    else sync_loop w conversation limit fuel 0 0 s
