-- ===== src/Messages/Consistency.antt =====
-- The invariant of the tables messages and conversations of message_store.go.
pub mod Write
pub mod Conversations
use im_backend.Prelude.{
  ℕ, suc, ◌+◌, ◌≤◌, ◌<◌, ◌≡◌, ◌≢◌, refl, sym, ap, subst, ◌∙◌, ◌⊎◌, inl, inr, Bool, true, false,
  ◌&&◌, max, List, [], ◌∷◌, map, Option, none, some, arith, leb, ltb, ◌==◌, if◌then◌else◌,
  Bool-cases, find, In, In-map, map-In, DistinctBy, DistinctBy-eq, DistinctBy-map, find-In, In-find,
  any, any-In, length,
}
use im_backend.Message.{Text, Message}
use im_backend.Messages.Database.{Conversation, Database}
use im_backend.Messages.Store.{
  text_eq, has_key, find_idempotent_message, allocate, allocate_in, created_message, write_message,
  new_conversation,
}

-- The sequences of a conversation are 1, 2, …, last_seq, each once, and no two messages share a
-- sender and a client id.
pub record IsConsistent (db : Database) : Type 0 where
  pub no_gaps :
      (c : Conversation) (k : ℕ)
      → In c db.conversations
      → 1 ≤ k
      → k ≤ c.last_seq
      → (m : Message) × In m db.messages × (m.conversation_id ≡ c.id) × (m.conversation_seq ≡ k)
  pub placed :
      (m : Message)
      → In m db.messages
      → (c : Conversation) × In c db.conversations
        × (c.id ≡ m.conversation_id)
        × (1 ≤ m.conversation_seq)
        × (m.conversation_seq ≤ c.last_seq)
  pub one_per_seq :
      (m n : Message)
      → In m db.messages
      → In n db.messages
      → m.conversation_id ≡ n.conversation_id
      → m.conversation_seq ≡ n.conversation_seq
      → m ≡ n
  pub one_per_key :
      (m n : Message)
      → In m db.messages
      → In n db.messages
      → m.sender_id ≡ n.sender_id
      → m.client_message_id ≡ n.client_message_id
      → m ≡ n
  pub conversation_ids : DistinctBy (λ c. c.id) db.conversations
  pub ids_below : (c : Conversation) → In c db.conversations → c.id < db.next_conversation_id
  pub message_ids : DistinctBy (λ m. m.id) db.messages
  pub message_ids_below : (m : Message) → In m db.messages → m.id < db.next_message_id
  pub message_ids_from_one : (m : Message) → In m db.messages → 1 ≤ m.id
  pub next_from_one : 1 ≤ db.next_message_id

pub text_eq_refl : (s : Text) → text_eq s s ≡ true
unfolding text_eq
text_eq_refl [] = refl
text_eq_refl (a ∷ s) = ground (arith, text_eq_refl s)

pub text_eq_sound : (s t : Text) → text_eq s t ≡ true → s ≡ t
unfolding text_eq
text_eq_sound [] [] h = refl
text_eq_sound [] (b ∷ t) h = cc
text_eq_sound (a ∷ s) [] h = cc
text_eq_sound (a ∷ s) (b ∷ t) h = ground (arith, text_eq_sound s t)

pub has_key-intro :
    (sender : ℕ) (client_id : Text) (m : Message)
    → m.sender_id ≡ sender
    → m.client_message_id ≡ client_id
    → has_key sender client_id m ≡ true
unfolding has_key
has_key-intro sender client_id m p q =
    ground (
      arith,
      subst (λ t. text_eq m.client_message_id t ≡ true) q (text_eq_refl m.client_message_id),
    )

-- Where the search for a key fails no message has it.
pub unkeyed :
    (sender : ℕ) (client_id : Text) (db : Database) (m : Message)
    → find_idempotent_message sender client_id db ≡ none
    → In m db.messages
    → m.sender_id ≡ sender
    → m.client_message_id ≡ client_id
    → ⊥
unfolding find_idempotent_message
unkeyed sender client_id db m none_found i p q =
    let (b, found) =
      In-find (has_key sender client_id) db.messages m i (has_key-intro sender client_id m p q) in
    cc
