-- ===== src/Client/Sync/History.antt =====
-- What a server and the other clients may do while SyncConversation of
-- internal/headlessclient/client.go runs, and how its loop goes on.
use im_backend.Prelude.{
  ok, err, Result, ℕ, zero, suc, ◌+◌, ◌≤◌, ◌<◌, ◌≡◌, refl, ap, inl, inr, Bool, true, false, ltb,
  some, arith, Bool-cases,
}
use im_backend.Messages.Database.{Conversation, Database}
use im_backend.Messages.Store.{find_conversation}
use im_backend.Messages.Consistency.{IsConsistent}
use im_backend.Sync.Request.{Response}
use im_backend.Sync.Page.{is_member, sync_page}
use im_backend.Sync.Contiguous.{Grows}
use im_backend.Client.State.{State, request_failed, Answer, intact}
use im_backend.Client.Sync.{World, sync_round, sync_loop, request_snapshot}

-- The answer over a connection that does not fail.
abbrev pub delivered {ℓ} : {A : Type ℓ} → Response A → Answer A
delivered (Result.ok a) = ok a
delivered (Result.err e) = err request_failed

-- The server's database at each of its statements, and a client whose file does not fail.
abbrev pub world_of : ℕ → ℕ → (ℕ → Database) → World
world_of user conversation db = record {
  serve = λ n after limit snapshot. delivered (
      sync_page user conversation (record { after = after; limit = limit; snapshot = snapshot })
        (record { first = some (db (n + n)); second = some (db (suc (n + n))) }));
  storage = λ n access. intact;
}

-- The databases that a user's requests for a conversation see, one after another: the invariant
-- holds, no conversation shrinks, and the user stays a member of the conversation.
pub record IsHistory (user conversation : ℕ) (db : ℕ → Database) : Type 0 where
  pub consistent : (i : ℕ) → IsConsistent (db i)
  pub grows : (i : ℕ) → Grows (db i) (db (suc i))
  pub member : (i : ℕ) → is_member user conversation (db i) ≡ true
  pub found : (i : ℕ) → (c : Conversation) × (find_conversation conversation (db i) ≡ some c)

pub request-some : (k : ℕ) → 1 ≤ k → request_snapshot k ≡ some k
request-some zero h = absurd (omega arith)
request-some (suc k) h = refl

proceed : World → ℕ → ℕ → ℕ → ℕ → State × Answer (ℕ × Bool) → State × Answer (Unit {0})
proceed w conversation limit fuel n r = elim r.1 [
  | err e ↦ (r.0, err e)
  | ok (next, false) ↦ (r.0, ok tt)
  | ok (next, true) ↦ sync_loop w conversation limit fuel (suc n) next r.0
]

pub loop-stops :
    (w : World) (conversation limit fuel n z next : ℕ) (s t : State)
    → sync_round w conversation limit n z s ≡ (t, ok (next, false))
    → sync_loop w conversation limit (suc fuel) n z s ≡ (t, ok tt)
unfolding sync_loop proceed
loop-stops w conversation limit fuel n z next s t e = ap (proceed w conversation limit fuel n) e

pub loop-goes_on :
    (w : World) (conversation limit fuel n z next : ℕ) (s t : State)
    → sync_round w conversation limit n z s ≡ (t, ok (next, true))
    → sync_loop w conversation limit (suc fuel) n z s
      ≡ sync_loop w conversation limit fuel (suc n) next t
unfolding sync_loop proceed
loop-goes_on w conversation limit fuel n z next s t e = ap (proceed w conversation limit fuel n) e

pub not_less : (b : Bool) (x y : ℕ) → (x < y → b ≡ true) → b ≡ false → y ≤ x
not_less b x y h e = elim (Bool-cases (ltb x y)) [
  | inl l ↦ absurd (cc (h (ground arith)))
  | inr l ↦ ground arith
]
