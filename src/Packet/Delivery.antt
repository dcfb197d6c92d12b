-- ===== src/Packet/Delivery.antt =====
-- Deliver of internal/reliabilitylab/packet.go has its effect once at most.
use im_backend.Prelude.{
  ℕ, ◌≤◌, ◌≡◌, refl, subst, inl, inr, Bool, true, false, ◌&&◌, List, [], ◌∷◌, arith, Bool-cases,
  Option-cases, length, any, find, keep,
}
use im_backend.Message.{Text}
use im_backend.Outbox.Types.{Reply, served, refused, lost}
use im_backend.Messages.Store.{text_eq}
use im_backend.Messages.Consistency.{text_eq_sound}
use im_backend.Packet.{
  Credit, Tables, is_credit, is_received, is_intent, receive, insert_received, acknowledge,
  run_statement, deliver,
}

-- How often the receiver holds the credit of a user.
abbrev pub times_received : Text → Text → Tables → ℕ
times_received packet user t = length (keep (is_received packet user) t.received)

keep-none {ℓ} :
    {A : Type ℓ} (p : A → Bool) (xs : List A) → any p xs ≡ false → length (keep p xs) ≡ 0
keep-none p [] h = refl
keep-none p (x ∷ xs) h = ground (arith, keep-none p xs)

and-both : (a b : Bool) → (a && b) ≡ true → (a ≡ true) × (b ≡ true)
and-both a b h = ground arith

receive-once :
    (c : Credit) (t : Tables) (packet user : Text)
    → times_received packet user t ≤ 1
    → times_received packet user (receive c t) ≤ 1
unfolding receive
receive-once c t packet user h = elim (Bool-cases (any (is_received c.packet c.user) t.received)) [
  | inl e ↦ rw e h
  | inr e ↦ rw e (elim (Bool-cases (text_eq c.packet packet && text_eq c.user user)) [
    | inr q ↦ rw q h
    | inl q ↦
        let (a, b) = and-both (text_eq c.packet packet) (text_eq c.user user) q in
        rw q (
          omega (
            arith,
            keep-none (is_received packet user) t.received
                (new (text_eq_sound c.packet packet a) (text_eq_sound c.user user b) e),
          ))
  ])
]
  where
    new :
        c.packet ≡ packet
        → c.user ≡ user
        → any (is_received c.packet c.user) t.received ≡ false
        → any (is_received packet user) t.received ≡ false
    new a b e =
        subst (λ p. any (is_received p user) t.received ≡ false) a
          (subst (λ u. any (is_received c.packet u) t.received ≡ false) b e)

insert-once :
    (p u packet user : Text) (t : Tables)
    → times_received packet user t ≤ 1
    → times_received packet user (insert_received p u t) ≤ 1
unfolding insert_received
insert-once p u packet user t h = elim (Bool-cases (any (is_intent p u) t.outbox)) [
  | inr e ↦ rw e h
  | inl e ↦ rw e (elim (Option-cases (find (is_credit p u) t.credits)) [
    | inl f ↦ rw f h
    | inr (c, f) ↦ rw f (receive-once c t packet user h)
  ])
]

run-once :
    (reply : Reply) (f : Tables → Tables) (packet user : Text) (t : Tables)
    → ((s : Tables) → times_received packet user s ≤ 1 → times_received packet user (f s) ≤ 1)
    → times_received packet user t ≤ 1
    → times_received packet user (run_statement reply f t).0 ≤ 1
unfolding run_statement
run-once served f packet user t keeps h = keeps t h
run-once refused f packet user t keeps h = h
run-once lost f packet user t keeps h = keeps t h

-- Whatever the fates of its statements and however often it is repeated, a delivery leaves at most
-- one received credit of each user and packet.
pub deliver_at_most_once :
    (first second : Reply) (p u packet user : Text) (t : Tables)
    → times_received packet user t ≤ 1
    → times_received packet user (deliver first second p u t).0 ≤ 1
unfolding deliver acknowledge
deliver_at_most_once first second p u packet user t h =
    elim (Bool-cases (run_statement first (insert_received p u) t).1) [
      | inl e ↦ rw e (
          run-once second (acknowledge p u) packet user _ (λ s k. k)
            (run-once first (insert_received p u) packet user t (insert-once p u packet user) h))
      | inr e ↦
          rw e (run-once first (insert_received p u) packet user t (insert-once p u packet user) h)
    ]
