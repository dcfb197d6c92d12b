-- ===== src/Messages/Consistency/Write.antt =====
-- The write of insertMessageAndOutbox in message_store.go keeps the invariant.
use im_backend.Prelude.{
  ℕ, ◌+◌, suc, ◌≤◌, ◌<◌, any, above-fresh, false, ◌≡◌, ◌≢◌, refl, sym, ap, ◌∙◌, ◌⊎◌, inl, inr, List,
  ◌∷◌, map, none, arith, ◌==◌, if◌then◌else◌, Bool-cases, In, In-map, map-In, DistinctBy-eq,
  DistinctBy-map,
}
use im_backend.Message.{Message}
use im_backend.Messages.Database.{Conversation, Database}
use im_backend.Messages.Store.{find_idempotent_message, allocate, allocate_in, write_message}
use im_backend.Messages.Consistency.{IsConsistent, unkeyed}

module _ (db : Database) (c : Conversation) (m : Message) (s : IsConsistent db)
    (i : In c db.conversations) (at : m.conversation_id ≡ c.id)
    (seq : m.conversation_seq ≡ c.last_seq + 1) (new_id : m.id ≡ db.next_message_id)
    (free : find_idempotent_message m.sender_id m.client_message_id db ≡ none) where
  step : Conversation → Conversation
  step d = if d.id == c.id then allocate db.clock d else d

  step-id : (d : Conversation) → (step d).id ≡ d.id
  unfolding step allocate
  step-id d = ground arith

  -- Only the conversation itself grows, by one.
  step-last_seq :
      (d : Conversation)
      → In d db.conversations
      → ((d ≡ c) × ((step d).last_seq ≡ c.last_seq + 1))
        ⊎ ((d.id ≢ c.id) × ((step d).last_seq ≡ d.last_seq))
  unfolding step allocate
  step-last_seq d j = elim (Bool-cases (d.id == c.id)) [
    | inl e ↦
        let same =
          DistinctBy-eq (λ (x : Conversation). x.id) db.conversations d c s.conversation_ids j i
            (ground arith) in
        inl (same, rw e (ap (λ (x : Conversation). x.last_seq + 1) same))
    | inr e ↦ inr ((λ q. ground arith), rw e)
  ]

  grown : List Conversation
  grown = map step db.conversations

  grown-no_gaps :
      (d' : Conversation) (k : ℕ)
      → In d' grown
      → 1 ≤ k
      → k ≤ d'.last_seq
      → (n : Message) × In n (m ∷ db.messages)
        × (n.conversation_id ≡ d'.id)
        × (n.conversation_seq ≡ k)
  unfolding grown
  grown-no_gaps d' k j lo hi =
      let (d, x, e) = In-map step db.conversations d' j in by_case d x e (step-last_seq d x)
    where
      by_case :
          (d : Conversation)
          → In d db.conversations
          → step d ≡ d'
          → ((d ≡ c) × ((step d).last_seq ≡ c.last_seq + 1))
            ⊎ ((d.id ≢ c.id) × ((step d).last_seq ≡ d.last_seq))
          → (n : Message) × In n (m ∷ db.messages)
            × (n.conversation_id ≡ d'.id)
            × (n.conversation_seq ≡ k)
      by_case d x e (inr (other, keeps)) =
          let (n, y, p, q) =
            s.no_gaps d k x lo (omega (arith, keeps, ap (λ (z : Conversation). z.last_seq) e)) in
          (n, inr y, p ∙ sym (step-id d) ∙ ap (λ (z : Conversation). z.id) e, q)
      by_case d x e (inl (same, grows)) =
          let there =
            ap (λ (z : Conversation). z.id) (sym same)
            ∙ sym (step-id d)
            ∙ ap (λ (z : Conversation). z.id) e in
          let last = sym (ap (λ (z : Conversation). z.last_seq) e) ∙ grows in
          elim (Bool-cases (k == c.last_seq + 1)) [
            | inl top ↦ (m, inl refl, at ∙ there, ground (arith))
            | inr low ↦
                let (n, y, p, q) = s.no_gaps c k i lo (ground arith) in (n, inr y, p ∙ there, q)
          ]

  grown-placed :
      (n : Message)
      → In n (m ∷ db.messages)
      → (d' : Conversation) × In d' grown
        × (d'.id ≡ n.conversation_id)
        × (1 ≤ n.conversation_seq)
        × (n.conversation_seq ≤ d'.last_seq)
  unfolding grown
  grown-placed n (inl e) =
      let named = ap (λ (z : Message). z.conversation_id) e in
      let placed = ap (λ (z : Message). z.conversation_seq) e in
      elim (step-last_seq c i) [
        | inl (_, grows) ↦ (
          step c,
          map-In step db.conversations c i,
          step-id c ∙ sym at ∙ named,
          omega arith,
          omega arith,
        )
        | inr (other, _) ↦ absurd (other refl)
      ]
  grown-placed n (inr j) =
      let (d, x, p, lo, hi) = s.placed n j in
      (
        step d,
        map-In step db.conversations d x,
        step-id d ∙ p,
        lo,
        elim (step-last_seq d x) [
          | inl (same, grows) ↦ omega (arith, ap (λ (z : Conversation). z.last_seq) same)
          | inr (_, keeps) ↦ omega arith
        ],
      )

  -- No older message has the new sequence of the conversation.
  new_seq :
      (n : Message)
      → In n db.messages
      → m.conversation_id ≡ n.conversation_id
      → m.conversation_seq ≡ n.conversation_seq
      → ⊥
  new_seq n j p q =
      let (d, x, named, lo, hi) = s.placed n j in
      let same =
        DistinctBy-eq (λ (z : Conversation). z.id) db.conversations d c s.conversation_ids x i
          (named ∙ sym p ∙ at) in
      omega (arith, ap (λ (z : Conversation). z.last_seq) same)

  grown-one_per_seq :
      (n o : Message)
      → In n (m ∷ db.messages)
      → In o (m ∷ db.messages)
      → n.conversation_id ≡ o.conversation_id
      → n.conversation_seq ≡ o.conversation_seq
      → n ≡ o
  grown-one_per_seq n o (inl e) (inl f) p q = sym e ∙ f
  grown-one_per_seq n o (inl e) (inr j) p q = absurd (
      new_seq o j (ap (λ (z : Message). z.conversation_id) e ∙ p)
        (ap (λ (z : Message). z.conversation_seq) e ∙ q))
  grown-one_per_seq n o (inr j) (inl f) p q = absurd (
      new_seq n j (ap (λ (z : Message). z.conversation_id) f ∙ sym p)
        (ap (λ (z : Message). z.conversation_seq) f ∙ sym q))
  grown-one_per_seq n o (inr j) (inr x) p q = s.one_per_seq n o j x p q

  grown-one_per_key :
      (n o : Message)
      → In n (m ∷ db.messages)
      → In o (m ∷ db.messages)
      → n.sender_id ≡ o.sender_id
      → n.client_message_id ≡ o.client_message_id
      → n ≡ o
  grown-one_per_key n o (inl e) (inl f) p q = sym e ∙ f
  grown-one_per_key n o (inl e) (inr j) p q = absurd (
      unkeyed m.sender_id m.client_message_id db o free j
        (sym p ∙ sym (ap (λ (z : Message). z.sender_id) e))
        (sym q ∙ sym (ap (λ (z : Message). z.client_message_id) e)))
  grown-one_per_key n o (inr j) (inl f) p q = absurd (
      unkeyed m.sender_id m.client_message_id db n free j
        (p ∙ sym (ap (λ (z : Message). z.sender_id) f))
        (q ∙ sym (ap (λ (z : Message). z.client_message_id) f)))
  grown-one_per_key n o (inr j) (inr x) p q = s.one_per_key n o j x p q

  grown-ids_below : (n : Message) → In n (m ∷ db.messages) → n.id < suc db.next_message_id
  grown-ids_below n (inl e) = omega (arith, new_id, ap (λ (z : Message). z.id) e)
  grown-ids_below n (inr j) = omega (arith, s.message_ids_below n j)

  grown-ids_from_one : (n : Message) → In n (m ∷ db.messages) → 1 ≤ n.id
  grown-ids_from_one n (inl e) =
      omega (arith, new_id, s.next_from_one, ap (λ (z : Message). z.id) e)
  grown-ids_from_one n (inr j) = s.message_ids_from_one n j

  unused_id : any (λ n. n.id == m.id) db.messages ≡ false
  unused_id = rw new_id (above-fresh (λ n. n.id) db.next_message_id db.messages s.message_ids_below)

  pub write_message-IsConsistent : IsConsistent (write_message db c m)
  unfolding write_message allocate_in grown step
  write_message-IsConsistent = record {
    no_gaps = grown-no_gaps;
    placed = grown-placed;
    one_per_seq = grown-one_per_seq;
    one_per_key = grown-one_per_key;
    conversation_ids = DistinctBy-map (λ d. d.id) step db.conversations step-id s.conversation_ids;
    ids_below = λ d' j.
        let (d, x, e) = In-map step db.conversations d' j in
        omega (arith, s.ids_below d x, step-id d, ap (λ (z : Conversation). z.id) e);
    message_ids = (unused_id, s.message_ids);
    message_ids_below = grown-ids_below;
    message_ids_from_one = grown-ids_from_one;
    next_from_one = omega arith;
  }
