-- ===== src/Sync/Tests.antt =====
-- Runs of the pages and acknowledgements, and the theorems at them.
use im_backend.Prelude.{
  All-In, inl, refuse_if, ◌>>◌, ◌>>=◌, ok, err, ℕ, ◌≤◌, ◌≡◌, refl, inr, false, List, [], ◌∷◌, some,
  none, arith, max, codes,
}
use im_backend.Prelude.Int.{pos}
use im_backend.Messages.Database.{Conversation}
use im_backend.Messages.Store.{
  insert_conversation, insert_conversation_members, insert_message_and_outbox, insert_in,
  passes_checks, write_or_conflict, find_idempotent_message, created_message, write_message,
  allocate_in, allocate, has_key, text_eq, find_direct, new_conversation,
}
use im_backend.Messages.Samples.{with_two, with_members, after_sending, with_two-IsConsistent}
use im_backend.Sync.Request.{
  Pagination, parse_int, parse_snapshot_pagination, invalid_pagination, check_keys, query_value,
  parse_after, parse_limit, parse_snapshot, parse_conversation_id,
}
use im_backend.Sync.Page.{
  ConversationMessagePage, sync_page, is_member, current_cursor, found_cursor, read_cursor,
}
use im_backend.Sync.Contiguous.{IsPage, sync_page_is_contiguous}
use im_backend.Sync.Ack.{SyncState, checked_ack, acknowledge_conversation, read_body}
use im_backend.Sync.Ack.Bound.{IsReached, AllReached, acked_cursor_is_reached}
use im_backend.Sync.Ack.Cursor.{applied, same_device, ack_raises_own_cursor, ack_never_regresses}

parse_int-largest : parse_int (codes "9223372036854775807") ≡ some (pos 0x7fffffffffffffff)
parse_int-largest = refl

parse_int-too_large : parse_int (codes "9223372036854775808") ≡ none
parse_int-too_large = refl

parse-defaults :
    parse_snapshot_pagination [] ≡ ok (record { after = 0; limit = 100; snapshot = none })
unfolding ◌>>=◌ ◌>>◌ refuse_if parse_snapshot_pagination check_keys query_value parse_after
    parse_limit parse_snapshot
parse-defaults = refl

parse-large_limit :
    parse_snapshot_pagination (record { key = "limit"; values = codes "201" ∷ [] } ∷ [])
    ≡ err invalid_pagination
unfolding ◌>>=◌ ◌>>◌ refuse_if parse_snapshot_pagination check_keys query_value parse_after
    parse_limit parse_snapshot
parse-large_limit = refl

abbrev second_page : Pagination
second_page = record { after = 1; limit = 1; snapshot = some 2 }

abbrev conversation_one : Conversation
conversation_one = record { id = 1; direct_users = some (1, 2); last_seq = 2; updated_at = 11 }

sync_page_is_contiguous_example :
    (page : ConversationMessagePage) × (sync_page 1 1 second_page
        (record { first = some with_two; second = some with_two })
      ≡ ok page)
    × IsPage with_two 1 1 2 1 page
unfolding with_two after_sending with_members insert_message_and_outbox insert_in passes_checks
    write_or_conflict find_idempotent_message created_message write_message allocate_in allocate
    has_key text_eq find_direct insert_conversation insert_conversation_members new_conversation
    is_member
sync_page_is_contiguous_example =
    sync_page_is_contiguous 1 1 second_page with_two with_two conversation_one with_two-IsConsistent
      (λ c i. (c, i, refl, omega arith)) refl refl (omega arith)
      (inr (2, refl, omega arith, omega arith)) (omega arith)

abbrev one_state : List SyncState
one_state =
    record { user_id = 1; device_id = 7; conversation_id = 1; applied_seq = 1; updated_at = 3 } ∷ []

ack_raises_own_cursor_example :
    let (later, answer) =
      acknowledge_conversation 1 7
        (codes "1")
        (some (some (pos 2)))
        (some with_two)
        false
        5
        one_state in
    ((s : SyncState) × (answer ≡ ok s) × (s.applied_seq ≡ max (applied 1 7 1 one_state) 2))
    × (applied 1 7 1 later ≡ max (applied 1 7 1 one_state) 2)
    × ((u d c : ℕ)
        → same_device 1 7 1 u d c ≡ false
        → applied u d c later ≡ applied u d c one_state)
unfolding ◌>>=◌ ◌>>◌ refuse_if with_two after_sending with_members insert_message_and_outbox
    insert_in passes_checks write_or_conflict find_idempotent_message created_message write_message
    allocate_in allocate has_key text_eq find_direct insert_conversation insert_conversation_members
    new_conversation is_member checked_ack read_body read_cursor found_cursor current_cursor
    parse_conversation_id
ack_raises_own_cursor_example =
    ack_raises_own_cursor 1 7 5 (codes "1") (some (some (pos 2))) (some with_two) one_state 1 2 refl

ack_never_regresses_example :
    applied 1 7 1 one_state
    ≤ applied 1 7 1
        (acknowledge_conversation 1 7
          (codes "1")
          (some (some (pos 0)))
          (some with_two)
          false
          5
          one_state).0
ack_never_regresses_example =
    ack_never_regresses 1 7 5 (codes "1") (some (some (pos 0))) (some with_two) false one_state 1 7
      1

acked_cursor_is_reached_example :
    AllReached with_two
      (acknowledge_conversation 1 7
        (codes "1")
        (some (some (pos 2)))
        (some with_two)
        false
        5
        one_state).0
unfolding with_two after_sending with_members insert_message_and_outbox insert_in passes_checks
    write_or_conflict find_idempotent_message created_message write_message allocate_in allocate
    has_key text_eq find_direct insert_conversation insert_conversation_members new_conversation
acked_cursor_is_reached_example =
    acked_cursor_is_reached 1 7 5 with_two one_state with_two-IsConsistent.conversation_ids
      (λ s m.
        All-In (λ (s : SyncState). IsReached with_two s.user_id s.conversation_id s.applied_seq)
          one_state
          (
            (
              (record { conversation_id = 1; user_id = 1 }, inl refl, refl, refl),
              (conversation_one, inl refl, refl, omega arith),
            ),
            tt,
          )
          m)
      (codes "1") (some (some (pos 2))) false
