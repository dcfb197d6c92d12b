-- ===== src/Client/Apply/Sound.antt =====
-- applyMessage and ApplyRealtime of internal/headlessclient/client.go keep every log of the stored
-- state, whatever happens to the file.
use im_backend.Prelude.{
  err-ok, ok, err, ok-injective, ℕ, ◌≤◌, ◌≡◌, refl, sym, ap, subst, ◌⊎◌, inl, inr, ◌||◌, not,
  Option, none, some, arith, ◌==◌, Bool-cases, str_eq,
}
use im_backend.Message.{Message}
use im_backend.Client.State.{
  ConversationState, State, Answer, put, Storage, intact, unreadable, not_replaced, not_synced,
  update, persist,
}
use im_backend.Client.Apply.{
  ApplyResult, or_empty, conversation_of, apply_step, store_conversation, apply_to, apply_message,
  RealtimeEnvelope, apply_realtime,
}
use im_backend.Client.Apply.Log.{IsLog, empty-IsLog, apply_step-IsLog}

persist-cases {ℓ} :
    {A : Type ℓ} (storage : Storage) (s : State) (x : Answer (A × State))
    → ((persist storage s x).0 ≡ s) ⊎ ((a : A) × (x ≡ ok (a, (persist storage s x).0)))
unfolding persist
persist-cases storage s (err e) = inl refl
persist-cases intact s (ok (a, t)) = inr (a, refl)
persist-cases unreadable s (ok (a, t)) = inl refl
persist-cases not_replaced s (ok (a, t)) = inl refl
persist-cases not_synced s (ok (a, t)) = inr (a, refl)

-- The stored state is the old one, or what the change made of it.
pub update-cases {ℓ} :
    {A : Type ℓ} (storage : Storage) (f : State → Answer (A × State)) (s : State)
    → ((update storage f s).0 ≡ s) ⊎ ((a : A) × (f s ≡ ok (a, (update storage f s).0)))
unfolding update
update-cases unreadable f s = inl refl
update-cases intact f s = persist-cases intact s (f s)
update-cases not_replaced f s = persist-cases not_replaced s (f s)
update-cases not_synced f s = persist-cases not_synced s (f s)

module _ (P : ℕ → Message → Type 0) where
  -- Every conversation has a log of messages that satisfy `P` of it.
  abbrev pub IsSound : State → Type 0
  IsSound s = (id : ℕ) (c : ConversationState) → s.conversations id ≡ some c → IsLog (P id) c

  -- Sound, and no cursor behind that of the earlier state.
  abbrev pub IsAdvance : State → State → Type 0
  IsAdvance s t =
      IsSound t
      × ((id : ℕ) → (conversation_of s id).applied_cursor ≤ (conversation_of t id).applied_cursor)

  or_empty-IsLog :
      (id : ℕ) (o : Option ConversationState)
      → ((c : ConversationState) → o ≡ some c → IsLog (P id) c)
      → IsLog (P id) (or_empty o)
  or_empty-IsLog id none h = empty-IsLog (P id)
  or_empty-IsLog id (some c) h = h c refl

  pub conversation_of-IsLog : (s : State) (id : ℕ) → IsSound s → IsLog (P id) (conversation_of s id)
  conversation_of-IsLog s id sound = or_empty-IsLog id (s.conversations id) (sound id)

  put-IsAdvance :
      (id : ℕ) (s : State) (c : ConversationState)
      → IsSound s
      → IsLog (P id) c
      → (conversation_of s id).applied_cursor ≤ c.applied_cursor
      → IsAdvance s (record s { conversations = put id c s.conversations })
  put-IsAdvance id s c sound log le = (
    λ j d e. elim (Bool-cases (id == j)) [
      | inl q ↦
          subst (λ k. IsLog (P k) d) (ground arith)
            (subst (IsLog (P id)) (inner c d (rw q at e)) log)
      | inr q ↦ sound j d (rw q at e)
    ],
    λ j. elim (Bool-cases (id == j)) [
      | inl q ↦
          rw q
            (subst (λ k. (conversation_of s k).applied_cursor ≤ c.applied_cursor) (ground arith) le)
      | inr q ↦ rw q (omega arith)
    ],
  )
    where
      inner : (c d : ConversationState) → some c ≡ some d → c ≡ d
      inner c d e = cc

  store-IsAdvance :
      (m : Message) (s t : State) (r : ApplyResult) (x : Answer (ApplyResult × ConversationState))
      → x ≡ apply_step m (conversation_of s m.conversation_id)
      → IsSound s
      → P m.conversation_id m
      → store_conversation m.conversation_id s x ≡ ok (r, t)
      → IsAdvance s t
  unfolding store_conversation
  store-IsAdvance m s t r (err e) q sound p h = absurd (err-ok e (r, t) h)
  store-IsAdvance m s t r (ok (result, c)) q sound p h =
      let (log, le) =
        apply_step-IsLog (P m.conversation_id) m (conversation_of s m.conversation_id) c result
          (conversation_of-IsLog s m.conversation_id sound) p (sym q) in
      subst (IsAdvance s)
        (ap (λ z. z.1)
          (ok-injective
            (result, record s { conversations = put m.conversation_id c s.conversations }) (r, t)
            h))
        (put-IsAdvance m.conversation_id s c sound log le)

  -- Whatever happens to the file and whatever the message, every conversation keeps a log without
  -- gaps, holds only messages that belong there, and no cursor goes back.
  pub apply_message-IsAdvance :
      (storage : Storage) (m : Message) (s : State)
      → IsSound s
      → P m.conversation_id m
      → IsAdvance s (apply_message storage m s).0
  unfolding apply_message apply_to
  apply_message-IsAdvance storage m s sound p =
      elim (Bool-cases ((m.id == 0) || (m.conversation_id == 0) || (m.conversation_seq == 0))) [
        | inl e ↦ rw e (sound, λ id. omega arith)
        | inr e ↦ rw e (elim (update-cases storage (apply_to m) s) [
          | inl q ↦ subst (IsAdvance s) (sym q) (sound, λ id. omega arith)
          | inr (r, q) ↦ store-IsAdvance m s _ r _ refl sound p q
        ])
      ]

-- Whatever an envelope of the realtime channel says and whatever happens to the file, the stored
-- state keeps a log of each conversation: exactly the messages of the sequences 1, 2, …, up to its
-- cursor, each in its own conversation and place, and no cursor goes back.
pub realtime_keeps_logs :
    (storage : Storage) (e : RealtimeEnvelope) (s : State)
    → IsSound (λ id m. m.conversation_id ≡ id) s
    → IsAdvance (λ id m. m.conversation_id ≡ id) s (apply_realtime storage e s).0
unfolding apply_realtime
realtime_keeps_logs storage e s sound =
    elim (Bool-cases (not (str_eq e.event_type "message.created") || (e.conversation_id == 0))) [
      | inl p ↦ rw p (sound, λ id. omega arith)
      | inr p ↦
          rw p
            (elim (Bool-cases (
              not (e.message.conversation_id == e.conversation_id)
              || not (e.message.conversation_seq == e.conversation_seq))) [
                | inl q ↦ rw q (sound, λ id. omega arith)
                | inr q ↦ rw q (
                    apply_message-IsAdvance (λ id m. m.conversation_id ≡ id) storage e.message s
                      sound refl)
              ])
    ]
