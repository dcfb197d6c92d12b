-- ===== src/Messages/Consistency/Conversations.antt =====
-- The other writes of message_store.go keep the invariant: a new conversation is empty, and its
-- members are no part of it.
use im_backend.Prelude.{
  ℕ, suc, ◌≤◌, ◌<◌, ◌≡◌, ap, ◌⊎◌, inl, inr, false, ◌∷◌, arith, ◌==◌, Bool-cases, any, above-fresh,
  In, Option-cases, ◌&&◌,
}
use im_backend.Message.{Message}
use im_backend.Messages.Database.{Conversation, Database}
use im_backend.Messages.Store.{
  find_direct, insert_conversation, insert_conversation_members, new_conversation, is_user,
}
use im_backend.Messages.Consistency.{IsConsistent}

-- No conversation has the next id.
fresh_id :
    (db : Database)
    → IsConsistent db
    → any (λ c. c.id == db.next_conversation_id) db.conversations ≡ false
fresh_id db s = above-fresh (λ c. c.id) db.next_conversation_id db.conversations s.ids_below

add_conversation-IsConsistent :
    (low high : ℕ) (db : Database)
    → IsConsistent db
    → IsConsistent (record db {
      conversations = new_conversation low high db ∷ db.conversations;
      next_conversation_id = suc db.next_conversation_id;
    })
unfolding new_conversation
add_conversation-IsConsistent low high db s = record {
  no_gaps = no_gaps;
  placed = λ m i. let (c, j, same, lo, hi) = s.placed m i in (c, inr j, same, lo, hi);
  one_per_seq = s.one_per_seq;
  one_per_key = s.one_per_key;
  conversation_ids = (fresh_id db s, s.conversation_ids);
  ids_below = below;
  message_ids = s.message_ids;
  message_ids_below = s.message_ids_below;
  message_ids_from_one = s.message_ids_from_one;
  next_from_one = s.next_from_one;
}
  where
    added : Conversation
    added = new_conversation low high db

    no_gaps :
        (c : Conversation) (k : ℕ)
        → (added ≡ c) ⊎ In c db.conversations
        → 1 ≤ k
        → k ≤ c.last_seq
        → (m : Message) × In m db.messages × (m.conversation_id ≡ c.id) × (m.conversation_seq ≡ k)
    no_gaps c k (inl e) lo hi = absurd (omega (arith, ap (λ (z : Conversation). z.last_seq) e))
    no_gaps c k (inr i) lo hi = s.no_gaps c k i lo hi

    below :
        (c : Conversation)
        → (added ≡ c) ⊎ In c db.conversations
        → c.id < suc db.next_conversation_id
    below c (inl e) = omega (arith, ap (λ (z : Conversation). z.id) e)
    below c (inr i) = omega (arith, s.ids_below c i)

pub insert_conversation-IsConsistent :
    (low high : ℕ) (db : Database)
    → IsConsistent db
    → IsConsistent (insert_conversation low high db).1
unfolding insert_conversation
insert_conversation-IsConsistent low high db s = elim (Option-cases (find_direct low high db)) [
  | inr (c, e) ↦ rw (e, insert_conversation) s
  | inl e ↦
      rw (e, insert_conversation)
        (elim (Bool-cases (is_user db low && is_user db high)) [
          | inl t ↦ rw t (add_conversation-IsConsistent low high db s)
          | inr t ↦ rw t s
        ])
]

pub insert_members-IsConsistent :
    (conversation sender receiver : ℕ) (db : Database)
    → IsConsistent db
    → IsConsistent (insert_conversation_members conversation sender receiver db).1
unfolding insert_conversation_members
insert_members-IsConsistent conversation sender receiver db s =
    elim (Bool-cases (is_user db sender && is_user db receiver)) [
      | inl t ↦ rw t (record {
        no_gaps = s.no_gaps;
        placed = s.placed;
        one_per_seq = s.one_per_seq;
        one_per_key = s.one_per_key;
        conversation_ids = s.conversation_ids;
        ids_below = s.ids_below;
        message_ids = s.message_ids;
        message_ids_below = s.message_ids_below;
        message_ids_from_one = s.message_ids_from_one;
        next_from_one = s.next_from_one;
      })
      | inr t ↦ rw t s
    ]
