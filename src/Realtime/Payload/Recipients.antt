-- ===== src/Realtime/Payload/Recipients.antt =====
-- The recipients that decodeMessageCreatedEvent of websocket.go lets through.
use im_backend.Prelude.{
  ok-injective, err-ok, bound, passed, ok, ℕ, ◌+◌, ◌≡◌, refl, ap, inl, inr, true, false, ◌||◌, not,
  List, [], ◌∷◌, arith, ◌==◌, Bool-cases, any, length, All, DistinctBy,
}
use im_backend.Message.{Message, MessageEventRecipient, MessageCreatedEventPayload}
use im_backend.Realtime.Payload.{
  no_conversation, user_cursor, expected_count, is_participant, check_recipients, decode_payload,
}

abbrev pub recipient_user : MessageEventRecipient → ℕ
recipient_user r = r.user_id

-- What the loop over the recipients has checked.
abbrev Checked : Message → List ℕ → List MessageEventRecipient → List ℕ → Type 0
Checked m seen rs found =
    All (λ r. is_participant m r.user_id ≡ true) rs
    × All (λ r. any (λ s. s == r.user_id) seen ≡ false) rs
    × DistinctBy recipient_user rs
    × (length found ≡ length seen + length rs)

-- One more seen id: the later recipients are none of the earlier ones.
unseen-rest :
    (u : ℕ) (seen : List ℕ) (rs : List MessageEventRecipient)
    → All (λ r. any (λ s. s == r.user_id) (u ∷ seen) ≡ false) rs
    → All (λ r. any (λ s. s == r.user_id) seen ≡ false) rs
      × (any (λ r. recipient_user r == u) rs ≡ false)
unseen-rest u seen [] h = (tt, refl)
unseen-rest u seen (r ∷ rs) h = ground (arith, unseen-rest u seen rs h.1)

check_recipients-Checked :
    (m : Message) (seen : List ℕ) (rs : List MessageEventRecipient) (found : List ℕ)
    → check_recipients m seen rs ≡ ok found
    → Checked m seen rs found
unfolding check_recipients
check_recipients-Checked m seen [] found e =
    (tt, tt, tt, omega (arith, ap length (ok-injective seen found e)))
check_recipients-Checked m seen (r ∷ rs) found e = elim (Bool-cases (r.user_id == 0)) [
  | inl a ↦ absurd (err-ok _ found (rw a at e))
  | inr a ↦ elim (Bool-cases (is_participant m r.user_id)) [
    | inr b ↦ absurd (err-ok _ found (rw (a, b) at e))
    | inl b ↦ elim (Bool-cases (any (λ s. s == r.user_id) seen)) [
      | inl c ↦ absurd (err-ok _ found (rw (a, b, c) at e))
      | inr c ↦
          let (each, new, distinct, size) =
            check_recipients-Checked m (r.user_id ∷ seen) rs found (rw (a, b, c) at e) in
          let (unseen, alone) = unseen-rest r.user_id seen rs new in
          ((b, each), (c, unseen), (alone, distinct), omega (arith, size))
    ]
  ]
]

-- As many distinct participants as there are: all of them.
complete :
    (m : Message) (rs : List MessageEventRecipient) (u : ℕ)
    → All (λ r. is_participant m r.user_id ≡ true) rs
    → DistinctBy recipient_user rs
    → length rs ≡ expected_count m
    → is_participant m u ≡ true
    → any (λ r. recipient_user r == u) rs ≡ true
unfolding is_participant
complete m [] u each distinct size p = absurd (ground arith)
complete m (a ∷ []) u each distinct size p = ground arith
complete m (a ∷ b ∷ []) u each distinct size p = ground arith
complete m (a ∷ b ∷ c ∷ rs) u each distinct size p = absurd (ground arith)

-- Where a payload is let through, it is passed on as it is, every recipient is a participant of the
-- message, none comes twice, and every participant comes.
pub decoded_recipients :
    (id : ℕ) (payload decoded : MessageCreatedEventPayload)
    → decode_payload id payload ≡ ok decoded
    → (payload ≡ decoded)
      × All (λ r. is_participant payload.message r.user_id ≡ true) payload.recipients
      × DistinctBy recipient_user payload.recipients
      × ((u : ℕ)
          → is_participant payload.message u ≡ true
          → any (λ r. recipient_user r == u) payload.recipients ≡ true)
unfolding decode_payload
decoded_recipients id payload decoded e =
    let (_, first) = passed _ _ _ decoded e in
    let (seen, checked, second) =
      bound (check_recipients m [] payload.recipients) _ decoded first in
    let (counted, third) = passed _ _ _ decoded second in
    let (_, fourth) =
      passed ((m.conversation_id == 0) || (m.conversation_seq == 0)) no_conversation _ decoded
        third in
    let (_, last) =
      passed (any (λ r. not (r.cursor == 0)) payload.recipients) user_cursor (ok payload) decoded
        fourth in
    let (each, _, distinct, size) = check_recipients-Checked m [] payload.recipients seen checked in
    (
      ok-injective payload decoded last,
      each,
      distinct,
      λ u p. complete m payload.recipients u each distinct (everyone _ size counted) p,
    )
  where
    m : Message
    m = payload.message

    everyone :
        (n : ℕ)
        → n ≡ length {A = ℕ} [] + length payload.recipients
        → not (n == expected_count m) ≡ false
        → length payload.recipients ≡ expected_count m
    everyone n size counted = ground arith
