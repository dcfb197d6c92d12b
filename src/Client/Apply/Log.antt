-- ===== src/Client/Apply/Log.antt =====
-- The log that applyMessage of internal/headlessclient/client.go keeps.
use im_backend.Prelude.{
  ok, ok-injective, err-ok, ℕ, ◌+◌, ◌≤◌, ◌<◌, ◌≡◌, refl, ap, subst, inl, inr, Option, none, some,
  arith, leb, ◌==◌, Bool-cases,
}
use im_backend.Message.{Message}
use im_backend.Client.State.{ConversationState}
use im_backend.Client.Apply.{
  ApplyResult, applied, duplicate, empty_conversation, append_message, check_duplicate, apply_step,
}

-- The log holds exactly the messages of the sequences 1, 2, …, applied_cursor, each under its own,
-- all of them satisfy `P`, and no acknowledgement of more is pending.
pub record IsLog (P : Message → Type 0) (c : ConversationState) : Type 0 where
  pub full :
      (k : ℕ)
      → 1 ≤ k
      → k ≤ c.applied_cursor
      → (m : Message) × (c.messages k ≡ some m) × (m.conversation_seq ≡ k) × P m
  pub beyond : (k : ℕ) → c.applied_cursor < k → c.messages k ≡ none
  pub pending : c.pending_ack ≤ c.applied_cursor

pub empty-IsLog : (P : Message → Type 0) → IsLog P empty_conversation
empty-IsLog P = record {
  full = λ k lo hi. absurd (omega arith);
  beyond = λ k h. refl;
  pending = omega arith;
}

pub append-IsLog :
    (P : Message → Type 0) (m : Message) (c : ConversationState)
    → IsLog P c
    → P m
    → m.conversation_seq ≡ c.applied_cursor + 1
    → IsLog P (append_message m c)
unfolding append_message
append-IsLog P m c log p e = record {
  full = λ k lo hi. elim (Bool-cases (m.conversation_seq == k)) [
    | inl q ↦ rw q (m, refl, ground arith, p)
    | inr q ↦ rw q (log.full k lo (ground arith))
  ];
  beyond = λ k h. elim (Bool-cases (m.conversation_seq == k)) [
    | inl q ↦ absurd (ground arith)
    | inr q ↦ rw q (log.beyond k (omega arith))
  ];
  pending = ground (arith, log.pending);
}

check_duplicate-same :
    (m : Message) (c d : ConversationState) (r : ApplyResult) (found : Option Message)
    → check_duplicate m c found ≡ ok (r, d)
    → (c ≡ d) × (duplicate ≡ r)
unfolding check_duplicate
check_duplicate-same m c d r none h = absurd (cc)
check_duplicate-same m c d r (some x) h = elim (Bool-cases (x.id == m.id)) [
  | inl e ↦
      let q = ok-injective (duplicate, c) (r, d) (rw e at h) in (ap (λ p. p.1) q, ap (λ p. p.0) q)
  | inr e ↦ absurd (err-ok _ (r, d) (rw e at h))
]

-- A step that is accepted keeps the log, and its cursor does not go back.
pub apply_step-IsLog :
    (P : Message → Type 0) (m : Message) (c d : ConversationState) (r : ApplyResult)
    → IsLog P c
    → P m
    → apply_step m c ≡ ok (r, d)
    → IsLog P d × (c.applied_cursor ≤ d.applied_cursor)
unfolding apply_step
apply_step-IsLog P m c d r log p h = elim (Bool-cases (leb m.conversation_seq c.applied_cursor)) [
  | inl e ↦
      let (same, _) = check_duplicate-same m c d r (c.messages m.conversation_seq) (rw e at h) in
      subst (λ x. IsLog P x × (c.applied_cursor ≤ x.applied_cursor)) same (log, omega arith)
  | inr e ↦ elim (Bool-cases (m.conversation_seq == c.applied_cursor + 1)) [
    | inl q ↦
        subst (λ x. IsLog P x × (c.applied_cursor ≤ x.applied_cursor))
          (ap (λ p. p.1) (ok-injective (applied, append_message m c) (r, d) (rw (e, q) at h)))
          (append-IsLog P m c log p (ground arith), unfold append_message in ground arith)
    | inr q ↦ absurd (err-ok _ (r, d) (rw (e, q) at h))
  ]
]
