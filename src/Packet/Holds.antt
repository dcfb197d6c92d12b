-- ===== src/Packet/Holds.antt =====
-- The credit of a user of internal/reliabilitylab/packet.go stays, whatever is called.
use im_backend.Prelude.{
  ℕ, ◌≡◌, refl, sym, ap, subst, ◌∙◌, inl, inr, Bool, true, false, ◌&&◌, ◌||◌, not, List, [], ◌∷◌,
  Option, none, some, ltb, ◌==◌, Bool-cases, either_way, length, any, find, keep, arith,
}
use im_backend.Message.{Text}
use im_backend.Outbox.Types.{Reply, served, refused, lost}
use im_backend.Messages.Command.{byte_length}
use im_backend.Messages.Store.{text_eq}
use im_backend.Messages.Consistency.{text_eq_refl, text_eq_sound}
use im_backend.Packet.{
  Slot, Credit, Tables, Receipt, Answer, is_credit, lowest_free, committed, credited, claim_slot,
  claim_receipt, claim, create, receive, insert_received, acknowledge, run_statement, deliver,
}

-- What anyone may call, with the fates of its statements.
pub data Call : Type 0 where
  creates : Reply → Text → ℕ → ℕ → Call
  claims : Reply → Text → Text → Call
  delivers : Reply → Reply → Text → Text → Call

abbrev pub after_call : Call → Tables → Tables
after_call (creates reply id total shares) t = (create reply id total shares t).0
after_call (claims reply packet user) t = (claim reply packet user t).0
after_call (delivers first second packet user) t = (deliver first second packet user t).0

abbrev pub after_calls : List Call → Tables → Tables
after_calls [] t = t
after_calls (c ∷ cs) t = after_calls cs (after_call c t)

-- How many slots of the packet the user has.
abbrev pub credits_of : Text → Text → Tables → ℕ
credits_of packet user t = length (keep (is_credit packet user) t.credits)

pub own-is_credit :
    (packet user : Text) (slot amount : ℕ)
    → is_credit packet user (record { packet = packet; slot = slot; amount = amount; user = user })
      ≡ true
unfolding is_credit
own-is_credit packet user slot amount = rw (text_eq_refl packet, text_eq_refl user) refl

module _ (packet user : Text) (c : Credit) (n : ℕ) where
  -- The packet is there, and `c` is the credit that is found for the user, who has `n`.
  pub record Holds (t : Tables) : Type 0 where
    pub there : any (λ p. text_eq p.id packet) t.packets ≡ true
    pub found : find (is_credit packet user) t.credits ≡ some c
    pub count : credits_of packet user t ≡ n

  committed-Holds :
      {A : Type 0} (reply : Reply) (before after : Tables) (a : A)
      → Holds before
      → Holds after
      → Holds (committed reply before after a).0
  unfolding committed
  committed-Holds served before after a h k = k
  committed-Holds refused before after a h k = h
  committed-Holds lost before after a h k = k

  create-Holds :
      (reply : Reply) (id : Text) (total shares : ℕ) (t : Tables)
      → Holds t
      → Holds (create reply id total shares t).0
  unfolding create
  create-Holds reply id total shares t h =
      either_way (λ (x : Tables × Answer (Unit {0})). Holds x.0)
        ((length id == 0) || ltb shares 1 || ltb 10000 shares || ltb total shares) _ _ h
        (either_way (λ (x : Tables × Answer (Unit {0})). Holds x.0)
          (any (λ p. text_eq p.id id) t.packets) _ _ h
          (committed-Holds reply t _ tt h
            (record { there = more; found = h.found; count = h.count })))
    where
      more : (text_eq id packet || any (λ p. text_eq p.id packet) t.packets) ≡ true
      more = let there = h.there in ground arith

  -- A credit of a user who has none is not one of the holder's.
  other-credit :
      (p u : Text) (slot amount : ℕ) (t : Tables)
      → find (is_credit p u) t.credits ≡ none
      → Holds t
      → is_credit packet user (record { packet = p; slot = slot; amount = amount; user = u })
        ≡ false
  unfolding is_credit
  other-credit p u slot amount t free h = elim (Bool-cases (text_eq p packet && text_eq u user)) [
    | inr e ↦ e
    | inl e ↦
        let same_packet = text_eq_sound p packet (ground arith) in
        let same_user = text_eq_sound u user (ground arith) in
        let none_found =
          subst (λ z. find (is_credit packet z) t.credits ≡ none) same_user
            (subst (λ z. find (is_credit z u) t.credits ≡ none) same_packet free) in
        absurd (none_some (sym none_found ∙ h.found))
  ]
    where
      none_some : ◌≡◌ {A = Option Credit} none (some c) → ⊥
      none_some e = cc

  slot-Holds :
      (reply : Reply) (p u : Text) (free : Option Slot) (t : Tables)
      → find (is_credit p u) t.credits ≡ none
      → Holds t
      → Holds (claim_slot reply p u free t).0
  unfolding claim_slot credited
  slot-Holds reply p u none t e h = h
  slot-Holds reply p u (some s) t e h =
      let other = other-credit p u s.slot s.amount t e h in
      committed-Holds reply t _ _ h
        (record { there = h.there; found = rw other h.found; count = rw other h.count })

  receipt-Holds :
      (reply : Reply) (p u : Text) (found : Option Credit) (t : Tables)
      → find (is_credit p u) t.credits ≡ found
      → Holds t
      → Holds (claim_receipt reply p u found t).0
  unfolding claim_receipt
  receipt-Holds reply p u (some d) t e h = committed-Holds reply t t _ h h
  receipt-Holds reply p u none t e h = slot-Holds reply p u (lowest_free p t.slots) t e h

  claim-Holds : (reply : Reply) (p u : Text) (t : Tables) → Holds t → Holds (claim reply p u t).0
  unfolding claim
  claim-Holds reply p u t h =
      either_way (λ (x : Tables × Answer Receipt). Holds x.0)
        ((length u == 0) || ltb 128 (byte_length u)) _ _ h
        (either_way (λ (x : Tables × Answer Receipt). Holds x.0)
          (not (any (λ q. text_eq q.id p) t.packets)) _ _ h
          (receipt-Holds reply p u (find (is_credit p u) t.credits) t refl h))

  moved-Holds : (t u : Tables) → u.packets ≡ t.packets → u.credits ≡ t.credits → Holds t → Holds u
  moved-Holds t u p q h = record {
    there = ap (λ ps. any (λ z. text_eq z.id packet) ps) p ∙ h.there;
    found = ap (λ cs. find (is_credit packet user) cs) q ∙ h.found;
    count = ap (λ cs. length (keep (is_credit packet user) cs)) q ∙ h.count;
  }

  run-Holds :
      (reply : Reply) (f : Tables → Tables) (t : Tables)
      → Holds t
      → Holds (f t)
      → Holds (run_statement reply f t).0
  unfolding run_statement
  run-Holds served f t h k = k
  run-Holds refused f t h k = h
  run-Holds lost f t h k = k

  receive-Holds : (d : Credit) (t : Tables) → Holds t → Holds (receive d t)
  unfolding receive
  receive-Holds d t h =
      either_way Holds (any (λ r. text_eq r.packet d.packet && text_eq r.user d.user) t.received) _
        _ h (moved-Holds t _ refl refl h)

  insert-Holds : (p u : Text) (t : Tables) → Holds t → Holds (insert_received p u t)
  unfolding insert_received
  insert-Holds p u t h =
      either_way Holds (any (λ i. text_eq i.0 p && text_eq i.1 u) t.outbox) _ _
        (by_credit (find (is_credit p u) t.credits)) h
    where
      by_credit : (o : Option Credit) → Holds (elim o [ none ↦ t | some d ↦ receive d t ])
      by_credit none = h
      by_credit (some d) = receive-Holds d t h

  acknowledge-Holds : (p u : Text) (t : Tables) → Holds t → Holds (acknowledge p u t)
  unfolding acknowledge
  acknowledge-Holds p u t h = moved-Holds t _ refl refl h

  deliver-Holds :
      (first second : Reply) (p u : Text) (t : Tables)
      → Holds t
      → Holds (deliver first second p u t).0
  unfolding deliver
  deliver-Holds first second p u t h =
      let half = (run_statement first (insert_received p u) t).0 in
      let k = run-Holds first (insert_received p u) t h (insert-Holds p u t h) in
      either_way (λ (x : Tables × Bool). Holds x.0) (run_statement first (insert_received p u) t).1
        _ _ (run-Holds second (acknowledge p u) half k (acknowledge-Holds p u half k)) k

  pub calls-Holds : (cs : List Call) (t : Tables) → Holds t → Holds (after_calls cs t)
  calls-Holds [] t h = h
  calls-Holds (creates reply id total shares ∷ cs) t h =
      calls-Holds cs _ (create-Holds reply id total shares t h)
  calls-Holds (claims reply p u ∷ cs) t h = calls-Holds cs _ (claim-Holds reply p u t h)
  calls-Holds (delivers first second p u ∷ cs) t h =
      calls-Holds cs _ (deliver-Holds first second p u t h)
