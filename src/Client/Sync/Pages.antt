-- ===== src/Client/Sync/Pages.antt =====
-- One round of SyncConversation in internal/headlessclient/client.go at a page without gaps.
use im_backend.Prelude.{
  ok, err, ℕ, suc, ◌+◌, ◌≤◌, ◌≡◌, refl, sym, ap, subst, ◌∙◌, ◌⊎◌, inl, inr, true, false, ◌||◌, List,
  [], ◌∷◌, Option, none, some, arith, leb, ◌==◌, ==_refl, length, All,
}
use im_backend.Message.{Message}
use im_backend.Sync.Page.{ConversationMessagePage}
use im_backend.Sync.Window.{Run}
use im_backend.Client.State.{
  AuthState, ConversationState, State, Answer, put, Storage, intact, load, update, persist,
}
use im_backend.Client.Apply.{
  ApplyResult, applied, or_empty, conversation_of, append_message, apply_step, store_conversation,
  apply_to, apply_message,
}
use im_backend.Client.Apply.Sound.{IsSound, apply_message-IsAdvance}
use im_backend.Client.Sync.{
  World, Access, before_page, after_page, at_message, apply_page, check_page, reached,
  check_reached, after_messages, use_page, receive_page, request_signed_in, request_snapshot,
  request_page, sync_round,
}

abbrev pub cursor_of : State → ℕ → ℕ
cursor_of s id = (conversation_of s id).applied_cursor

-- The state with the next message of its conversation.
abbrev pub with_message : Message → State → State
with_message m s = record s {
  conversations =
      put m.conversation_id (append_message m (conversation_of s m.conversation_id))
        s.conversations;
}

apply_next :
    (m : Message) (s : State)
    → 1 ≤ m.id
    → 1 ≤ m.conversation_id
    → m.conversation_seq ≡ cursor_of s m.conversation_id + 1
    → apply_message intact m s ≡ (with_message m s, ok applied)
unfolding apply_message apply_to apply_step store_conversation update persist
apply_next m s a b e = rw (positive, fresh, next) refl
  where
    positive : ((m.id == 0) || (m.conversation_id == 0) || (m.conversation_seq == 0)) ≡ false
    positive = ground arith

    fresh : leb m.conversation_seq (cursor_of s m.conversation_id) ≡ false
    fresh = ground arith

    next : (m.conversation_seq == cursor_of s m.conversation_id + 1) ≡ true
    next = ground arith

with_message-cursor :
    (m : Message) (s : State) → cursor_of (with_message m s) m.conversation_id ≡ m.conversation_seq
unfolding append_message
with_message-cursor m s = rw (==_refl m.conversation_id, cursor_of, conversation_of, or_empty) refl

apply_page-accepted :
    (disk : ℕ → Storage) (i : ℕ) (m : Message) (rest : List Message) (s t : State) (r : ApplyResult)
    → apply_message (disk i) m s ≡ (t, ok r)
    → apply_page disk i (m ∷ rest) s ≡ apply_page disk (suc i) rest t
unfolding apply_page
apply_page-accepted disk i m rest s t r e = ap proceed e
  where
    proceed : State × Answer ApplyResult → State × Answer (Unit {0})
    proceed z = elim z.1 [ err x ↦ (z.0, err x) | ok _ ↦ apply_page disk (suc i) rest z.0 ]

module _ (P : ℕ → Message → Type 0) (id : ℕ) (known : 1 ≤ id) where
  -- A message of the conversation that the server holds.
  abbrev pub IsServed : Message → Type 0
  IsServed m = (m.conversation_id ≡ id) × (1 ≤ m.id) × P id m

  -- After some messages: signed in as before, sound, and with the cursor.
  pub record Reaches (s : State) (end : ℕ) (t : State) : Type 0 where
    pub auth : t.auth ≡ s.auth
    pub sound : IsSound P t
    pub cursor : cursor_of t id ≡ end

  pub apply_page-Reaches :
      (disk : ℕ → Storage)
      → ((i : ℕ) → disk i ≡ intact)
      → (i start : ℕ) (xs : List Message) (s : State) → IsSound P s
      → cursor_of s id ≡ start
      → Run start xs
      → All IsServed xs
      → (t : State) × (apply_page disk i xs s ≡ (t, ok tt)) × Reaches s (start + length xs) t
  unfolding apply_page
  apply_page-Reaches disk good i start [] s sound e run served =
      (s, refl, record { auth = refl; sound = sound; cursor = omega (arith, e) })
  apply_page-Reaches disk good i start (m ∷ xs) s sound e run served =
      let (here, positive, p) = served.0 in
      let next =
        apply_next m s positive (omega (arith, here, known))
          (omega (arith, run.0, e, ap (cursor_of s) here)) in
      let (t, q, r) =
        apply_page-Reaches disk good (suc i) (start + 1) xs (with_message m s)
          (subst (IsSound P) (ap (λ z. z.0) next)
            (apply_message-IsAdvance P intact m s sound (subst (λ k. P k m) (sym here) p)).0)
          (ap (cursor_of (with_message m s)) (sym here) ∙ with_message-cursor m s ∙ run.0) run.1
          served.1 in
      (
        t,
        apply_page-accepted disk i m xs s (with_message m s) applied
              (ap (λ d. apply_message d m s) (good i) ∙ next)
            ∙ q,
        record { auth = r.auth; sound = r.sound; cursor = omega (arith, r.cursor) },
      )

  -- The round at a page up to the snapshot `last`.
  module _ (w : World) (n limit last : ℕ) (s : State) (auth : AuthState)
      (page : ConversationMessagePage) (good : (a : Access) → w.storage n a ≡ intact)
      (signed_in : s.auth ≡ some auth) (sound : IsSound P s) (named : page.conversation_id ≡ id)
      (kept : page.snapshot_cursor ≡ last) (run : Run (cursor_of s id) page.messages)
      (served : All IsServed page.messages)
      (next : page.next_cursor ≡ cursor_of s id + length page.messages)
      (some_reached : 1 ≤ page.next_cursor) where
    check_page-ok :
        (snapshot : ℕ)
        → (snapshot ≡ 0) ⊎ (snapshot ≡ last)
        → check_page id (cursor_of s id) snapshot page ≡ ok last
    unfolding check_page
    check_page-ok snapshot (inl e) = rw (named, ==_refl id, kept, e) ground arith
    check_page-ok snapshot (inr e) = rw (named, ==_refl id, kept, e) ground arith

    reached-stored :
        (t : State) (o : Option ConversationState)
        → t.conversations id ≡ o
        → (or_empty o).applied_cursor ≡ page.next_cursor
        → reached id page t ≡ true
    unfolding reached
    reached-stored t none e q = absurd (omega (arith, q, some_reached))
    reached-stored t (some c) e q = rw (e, reached) (ground (arith, q))

    request_signed_in-ok :
        (snapshot : ℕ) (o : Option AuthState)
        → o ≡ some auth
        → w.serve n (cursor_of s id) limit (request_snapshot snapshot) ≡ ok page
        → request_signed_in w id limit n snapshot s o
          ≡ use_page (w.storage n) id page s (check_page id (cursor_of s id) snapshot page)
    unfolding request_signed_in receive_page
    request_signed_in-ok snapshot none e answer = absurd (cc)
    request_signed_in-ok snapshot (some a) e answer = rw (answer, receive_page) refl

    check_reached-ok :
        (t : State)
        → cursor_of t id ≡ page.next_cursor
        → check_reached id page last t (ok t) ≡ (t, ok (last, page.has_more))
    unfolding check_reached
    check_reached-ok t at = rw (reached-stored t _ refl at) refl

    use_page-ok :
        (t : State)
        → apply_page (λ i. w.storage n (at_message i)) 0 page.messages s ≡ (t, ok tt)
        → cursor_of t id ≡ page.next_cursor
        → use_page (w.storage n) id page s (ok last) ≡ (t, ok (last, page.has_more))
    unfolding use_page after_messages load
    use_page-ok t done at =
        ap (after_messages (w.storage n after_page) id page last) done
        ∙ ap (λ a. after_messages a id page last (t, ok tt)) (good after_page)
        ∙ check_reached-ok t at

    pub sync_round-Reaches :
        (snapshot : ℕ)
        → (snapshot ≡ 0) ⊎ (snapshot ≡ last)
        → w.serve n (cursor_of s id) limit (request_snapshot snapshot) ≡ ok page
        → (t : State) × (sync_round w id limit n snapshot s ≡ (t, ok (last, page.has_more)))
          × Reaches s page.next_cursor t
    unfolding sync_round load request_page
    sync_round-Reaches snapshot either answer =
        let (t, q, r) =
          apply_page-Reaches (λ i. w.storage n (at_message i)) (λ i. good (at_message i)) 0
            (cursor_of s id) page.messages s sound refl run served in
        let at = r.cursor ∙ sym next in
        (
          t,
          rw (good before_page, load, request_page)
              (request_signed_in-ok snapshot s.auth signed_in answer
                ∙ ap (use_page (w.storage n) id page s) (check_page-ok snapshot either)
                ∙ use_page-ok t q at),
          record { auth = r.auth; sound = r.sound; cursor = at },
        )
