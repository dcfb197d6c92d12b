-- ===== src/Packet/Claims.antt =====
-- Claim of internal/reliabilitylab/packet.go is safe to repeat.
use im_backend.Prelude.{
  ◌∙◌, err-ok, ok, ok-injective, ℕ, ◌≤◌, ◌≡◌, refl, ap, inl, inr, Bool, true, false, ◌||◌, List, [],
  ◌∷◌, Option, none, some, ltb, ◌==◌, Bool-cases, length, any, find, keep, arith,
}
use im_backend.Message.{Text}
use im_backend.Outbox.Types.{served, lost}
use im_backend.Messages.Command.{byte_length}
use im_backend.Messages.Store.{text_eq}
use im_backend.Packet.{
  Slot, Credit, Tables, Receipt, is_credit, lowest_free, committed, credited, claim_slot,
  claim_receipt, claim,
}
use im_backend.Packet.Holds.{Call, after_calls, credits_of, Holds, own-is_credit, calls-Holds}

kept-none : {A : Type 0} (p : A → Bool) (xs : List A) → find p xs ≡ none → length (keep p xs) ≡ 0
kept-none p [] h = refl
kept-none p (x ∷ xs) h = elim (Bool-cases (p x)) [
  | inl e ↦ absurd (cc (rw e at h))
  | inr e ↦ rw e (kept-none p xs (rw e at h))
]

kept-some :
    {A : Type 0} (p : A → Bool) (xs : List A) (a : A) → find p xs ≡ some a → 1 ≤ length (keep p xs)
kept-some p [] a h = absurd (cc)
kept-some p (x ∷ xs) a h = elim (Bool-cases (p x)) [
  | inl e ↦ rw e (omega arith)
  | inr e ↦ rw e (kept-some p xs a (rw e at h))
]

module _ (packet user : Text) (r : Receipt) where
  -- A credit of the receipt stands in `after`; it is the only one, where there was one at most.
  record Claimed (before after : Tables) : Type 0 where
    pub credit : Credit
    pub number : ℕ
    pub holds : Holds packet user credit number after
    pub receipt : record { slot = credit.slot; amount = credit.amount } ≡ r
    pub only : credits_of packet user before ≤ 1 → number ≡ 1

  slot-Claimed :
      (free : Option Slot) (t : Tables)
      → any (λ p. text_eq p.id packet) t.packets ≡ true
      → find (is_credit packet user) t.credits ≡ none
      → (claim_slot served packet user free t).1 ≡ ok r
      → Claimed t (claim_slot lost packet user free t).0
  unfolding claim_slot committed credited
  slot-Claimed none t there e h = absurd (err-ok _ r h)
  slot-Claimed (some s) t there e h =
      let own = own-is_credit packet user s.slot s.amount in
      record {
        credit = record { packet = packet; slot = s.slot; amount = s.amount; user = user };
        number = 1;
        holds = record {
          there = there;
          found = rw own refl;
          count = rw own (omega (arith, kept-none (is_credit packet user) t.credits e));
        };
        receipt = ok-injective _ r h;
        only = λ le. refl;
      }

  receipt-Claimed :
      (found : Option Credit) (t : Tables)
      → any (λ p. text_eq p.id packet) t.packets ≡ true
      → find (is_credit packet user) t.credits ≡ found
      → (claim_receipt served packet user found t).1 ≡ ok r
      → Claimed t (claim_receipt lost packet user found t).0
  unfolding claim_receipt committed
  receipt-Claimed none t there e h = slot-Claimed (lowest_free packet t.slots) t there e h
  receipt-Claimed (some c) t there e h = record {
    credit = c;
    number = credits_of packet user t;
    holds = record { there = there; found = e; count = refl };
    receipt = ok-injective _ r h;
    only = λ le. omega (arith, le, kept-some (is_credit packet user) t.credits c e);
  }

  again :
      (before t : Tables)
      → ((length user == 0) || ltb 128 (byte_length user)) ≡ false
      → (k : Claimed before t) → (v : Tables) → Holds packet user k.credit k.number v
      → claim served packet user v ≡ (v, ok r)
  unfolding claim claim_receipt committed
  again before t valid k v h = rw (valid, h.there, h.found) (ap (λ a. (v, ok a)) k.receipt)

  claim-Claimed :
      (t : Tables)
      → (claim served packet user t).1 ≡ ok r
      → (((length user == 0) || ltb 128 (byte_length user)) ≡ false)
        × Claimed t (claim lost packet user t).0
  unfolding claim
  claim-Claimed t h = elim (Bool-cases ((length user == 0) || ltb 128 (byte_length user))) [
    | inl e ↦ absurd (err-ok _ r (rw e at h))
    | inr e ↦ elim (Bool-cases (any (λ p. text_eq p.id packet) t.packets)) [
      | inr f ↦ absurd (err-ok _ r (rw (e, f) at h))
      | inl f ↦ (e, rw (e, f) (receipt-Claimed _ t f refl (rw (e, f) at h)))
    ]
  ]

-- Where a claim succeeds, losing the reply to its commit does no harm: whatever anyone creates,
-- claims and delivers in between, with whatever fates, the same claim then returns the receipt that
-- was lost and changes nothing, and a user who had one slot of the packet at most has exactly one.
pub lost_claim_is_retried :
    (packet user : Text) (t : Tables) (r : Receipt) (between : List Call)
    → (claim served packet user t).1 ≡ ok r
    → let u = after_calls between (claim lost packet user t).0 in
      (claim served packet user u ≡ (u, ok r))
      × (credits_of packet user t ≤ 1 → credits_of packet user u ≡ 1)
lost_claim_is_retried packet user t r between h =
    let (valid, k) = claim-Claimed packet user r t h in
    let u = (claim lost packet user t).0 in
    let held = calls-Holds packet user k.credit k.number between u k.holds in
    (again packet user r t u valid k (after_calls between u) held, λ le. held.count ∙ k.only le)
