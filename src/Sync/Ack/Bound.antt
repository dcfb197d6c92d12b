-- ===== src/Sync/Ack/Bound.antt =====
-- The cursors that acknowledgeConversation of sync_ack.go stores, against the conversations.
use im_backend.Prelude.{
  err, refl, inl, inr, true, Bool, Bool-cases, List, [], ◌∷◌, In, any, any-In, find-In,
  some-injective, ◌&&◌, ◌==◌, DistinctBy, DistinctBy-eq, ok-injective, err-ok, bound, passed, ok, ℕ,
  ◌≤◌, ◌≡◌, ap, subst, false, Option, none, some, arith, ltb,
}
use im_backend.Message.{Text}
use im_backend.Messages.Database.{Database, Conversation, Member}
use im_backend.Messages.Store.{find_conversation}
use im_backend.Sync.Request.{Response, cursor_ahead, parse_conversation_id}
use im_backend.Sync.Page.{is_member, current_cursor, found_cursor, read_cursor}
use im_backend.Sync.Ack.{
  SyncState, is_state_of, raise, first_state, upsert, Body, read_body, checked_ack, write_ack,
  acknowledge_conversation,
}

found-some : (o : Option ℕ) (n : ℕ) → found_cursor o ≡ ok n → o ≡ some n
unfolding found_cursor
found-some none n h = absurd (err-ok _ n h)
found-some (some k) n h = ap some (ok-injective k n h)

within : (last cursor : ℕ) → ltb last cursor ≡ false → cursor ≤ last
within last cursor h = ground arith

checked-reached :
    (user : ℕ) (path : Text) (body : Body) (db : Database) (conversation cursor : ℕ)
    → checked_ack user path body (some db) ≡ ok (conversation, cursor)
    → (last : ℕ) × (current_cursor user conversation db ≡ some last) × (cursor ≤ last)
unfolding checked_ack read_cursor
checked-reached user path body db conversation cursor h =
    let (id, _, first) = bound (parse_conversation_id path) _ (conversation, cursor) h in
    let (n, _, second) = bound (read_body body) _ (conversation, cursor) first in
    let (last, read, third) =
      bound (found_cursor (current_cursor user id db)) _ (conversation, cursor) second in
    let (reached, q) = passed (ltb last n) cursor_ahead (ok (id, n)) (conversation, cursor) third in
    let same = ok-injective (id, n) (conversation, cursor) q in
    (
      last,
      subst (λ k. current_cursor user k db ≡ some last) (ap (λ p. p.0) same)
          (found-some (current_cursor user id db) last read),
      subst (λ k. k ≤ last) (ap (λ p. p.1) same) (within last n reached),
    )

-- The user is a member of the conversation, and the conversation has a sequence that is no smaller
-- than the cursor.
abbrev pub IsReached : Database → ℕ → ℕ → ℕ → Type 0
IsReached db user conversation cursor =
    ((m : Member) × In m db.members × (m.user_id ≡ user) × (m.conversation_id ≡ conversation))
    × ((c : Conversation) × In c db.conversations × (c.id ≡ conversation) × (cursor ≤ c.last_seq))

abbrev pub AllReached : Database → List SyncState → Type 0
AllReached db table =
    (s : SyncState) → In s table → IsReached db s.user_id s.conversation_id s.applied_seq

current_cursor-IsReached :
    (user conversation last : ℕ) (db : Database)
    → current_cursor user conversation db ≡ some last
    → IsReached db user conversation last
unfolding current_cursor is_member
current_cursor-IsReached user conversation last db h =
    elim (Bool-cases
      (any (λ m. (m.user_id == user) && (m.conversation_id == conversation)) db.members)) [
        | inr e ↦ absurd (cc (rw e at h))
        | inl e ↦ (member e, found (find_conversation conversation db) refl (rw e at h))
      ]
  where
    member :
        any (λ m. (m.user_id == user) && (m.conversation_id == conversation)) db.members ≡ true
        → (m : Member) × In m db.members × (m.user_id ≡ user) × (m.conversation_id ≡ conversation)
    member e =
        let (m, i, same) =
          any-In (λ m. (m.user_id == user) && (m.conversation_id == conversation)) db.members e in
        (m, i, ground arith, ground arith)

    found :
        (o : Option Conversation)
        → find_conversation conversation db ≡ o
        → (elim o [ none ↦ none | some c ↦ some c.last_seq ]) ≡ some last
        → (c : Conversation) × In c db.conversations × (c.id ≡ conversation) × (last ≤ c.last_seq)
    found none e q = absurd (cc)
    found (some c) e q =
        let (i, same) = find-In (λ c. c.id == conversation) db.conversations c e in
        (c, i, ground arith, omega (arith, some-injective c.last_seq last q))

-- What holds of a new state, and of one that is raised, holds of the states after the statement.
upsert-In :
    (user device conversation cursor now : ℕ) (P : SyncState → Type 0) (table : List SyncState)
    → ((s : SyncState) → In s table → P s)
    → P (first_state user device conversation cursor now)
    → ((s : SyncState)
        → In s table
        → is_state_of user device conversation s ≡ true
        → P (raise cursor now s))
    → (s : SyncState) → In s (upsert user device conversation cursor now table).0
    → P s
unfolding upsert
upsert-In user device conversation cursor now P [] old new up s m = elim m [
  | inl e ↦ subst P e new
  | inr e ↦ absurd e.1
]
upsert-In user device conversation cursor now P (x ∷ rest) old new up s m =
    elim (Bool-cases (is_state_of user device conversation x)) [
      | inl e ↦ elim (subst (λ l. In s l) (raised e) m) [
        | inl q ↦ subst P q (up x (inl refl) e)
        | inr i ↦ old s (inr i)
      ]
      | inr e ↦ elim (subst (λ l. In s l) (passed_over e) m) [
        | inl q ↦ old s (inl q)
        | inr i ↦
            upsert-In user device conversation cursor now P rest (λ z k. old z (inr k)) new
              (λ z k. up z (inr k)) s i
      ]
    ]
  where
    raised :
        is_state_of user device conversation x ≡ true
        → (upsert user device conversation cursor now (x ∷ rest)).0 ≡ raise cursor now x ∷ rest
    raised e = rw e refl

    passed_over :
        is_state_of user device conversation x ≡ false
        → (upsert user device conversation cursor now (x ∷ rest)).0
          ≡ x ∷ (upsert user device conversation cursor now rest).0
    passed_over e = rw e refl

module _ (user device now : ℕ) (db : Database) (table : List SyncState)
    (unique : DistinctBy (λ c. c.id) db.conversations) (old : AllReached db table) where
  upsert-AllReached :
      (conversation cursor : ℕ)
      → IsReached db user conversation cursor
      → AllReached db (upsert user device conversation cursor now table).0
  unfolding is_state_of raise
  upsert-AllReached conversation cursor (member, (c, i, same, bound_c)) s m =
      upsert-In user device conversation cursor now
        (λ s. IsReached db s.user_id s.conversation_id s.applied_seq) table old
        (member, (c, i, same, bound_c)) raised s m
    where
      raised :
          (s : SyncState)
          → In s table
          → is_state_of user device conversation s ≡ true
          → IsReached db s.user_id s.conversation_id (raise cursor now s).applied_seq
      raised s k own =
          let (mine, (d, j, at, bound_d)) = old s k in
          let one =
            DistinctBy-eq (λ (c : Conversation). c.id) db.conversations d c unique j i
              (ground arith) in
          let below = ap (λ (c : Conversation). c.last_seq) one in
          (mine, (d, j, at, omega (arith, below, bound_d, bound_c)))

  write_ack-AllReached :
      (write_fails : Bool) (r : Response (ℕ × ℕ))
      → ((conversation cursor : ℕ)
          → r ≡ ok (conversation, cursor)
          → IsReached db user conversation cursor)
      → AllReached db (write_ack user device write_fails now table r).0
  unfolding write_ack
  write_ack-AllReached write_fails (err e) h = old
  write_ack-AllReached true (ok (conversation, cursor)) h = old
  write_ack-AllReached false (ok (conversation, cursor)) h =
      upsert-AllReached conversation cursor (h conversation cursor refl)

  -- While every stored cursor is one of a member of the conversation and no larger than the last
  -- sequence of the conversation, this is so after any acknowledgement, whatever its user, device,
  -- path and body, and whether or not the write fails.
  pub acked_cursor_is_reached :
      (path : Text) (body : Body) (write_fails : Bool)
      → AllReached db
          (acknowledge_conversation user device path body (some db) write_fails now table).0
  unfolding acknowledge_conversation
  acked_cursor_is_reached path body write_fails =
      write_ack-AllReached write_fails (checked_ack user path body (some db))
        (λ conversation cursor h.
          let (last, e, le) = checked-reached user path body db conversation cursor h in
          let (member, (c, i, same, up)) = current_cursor-IsReached user conversation last db e in
          (member, (c, i, same, omega (arith, le, up))))
