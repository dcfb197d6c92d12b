-- ===== src/History/Tests.antt =====
-- Runs of the history, and the theorem at them.
use im_backend.Prelude.{ok, ◌-◌, ◌≡◌, min, refl, inl, [], ◌∷◌, some, none, arith, length}
use im_backend.Message.{Text}
use im_backend.Messages.Database.{Conversation}
use im_backend.Messages.Store.{
  insert_conversation, insert_conversation_members, insert_message_and_outbox, insert_in,
  passes_checks, write_or_conflict, find_idempotent_message, created_message, write_message,
  allocate_in, allocate, has_key, text_eq, find_direct, new_conversation,
}
use im_backend.Messages.Samples.{with_two, with_members, after_sending, with_two-IsConsistent}
use im_backend.Sync.Window.{Run}
use im_backend.History.Request.{HistoryCursor, before, parse_limit}
use im_backend.History.{history_page, history_rows}
use im_backend.History.Pages.{start_of, history_page_is_contiguous}

abbrev plain : HistoryCursor → Text
plain c = c.version ∷ c.conversation_id ∷ c.sequence ∷ []

abbrev second : HistoryCursor
second = record { version = 2; conversation_id = 1; sequence = 2 }

abbrev conversation_one : Conversation
conversation_one = record { id = 1; direct_users = some (1, 2); last_seq = 2; updated_at = 11 }

parse_limit-default : parse_limit none ≡ ok 50
unfolding parse_limit
parse_limit-default = refl

history_page_is_contiguous_example :
    let page = history_page plain (before second) 1 5 (history_rows (before second) 1 5 with_two) in
    (length page.messages ≡ min 5 (1 - 0))
    × Run (start_of (before second) 2 (length page.messages)) page.messages
unfolding with_two after_sending with_members insert_message_and_outbox insert_in passes_checks
    write_or_conflict find_idempotent_message created_message write_message allocate_in allocate
    has_key text_eq find_direct insert_conversation insert_conversation_members new_conversation
history_page_is_contiguous_example =
    history_page_is_contiguous plain (before second) 5 with_two conversation_one
      with_two-IsConsistent (inl refl) (omega arith)
