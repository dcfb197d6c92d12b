-- ===== src/Packet.antt =====
-- internal/reliabilitylab/packet.go and schema.sql: packets of money, their slots, the credits, and
-- the delivery of the credits. A statement that fails, or a process that stops before the commit,
-- leaves the tables as they were.
pub mod Allocation
pub mod Holds
pub mod Claims
pub mod Delivery
mod Tests
use im_backend.Prelude.{
  Result, ok, err, ◌>>=◌, ◌>>◌, refuse_if, ℕ, zero, suc, ◌+◌, ◌/◌, ◌%◌, Bool, true, false, ◌&&◌,
  ◌||◌, not, List, [], ◌∷◌, ◌++◌, map, Option, none, some, leb, ltb, ◌==◌, if◌then◌else◌, length,
  any, find, keep,
}
use im_backend.Message.{Text}
use im_backend.Outbox.Types.{Reply, served, refused, lost}
use im_backend.Messages.Command.{byte_length}
use im_backend.Messages.Store.{text_eq}

pub record Packet : Type 0 where
  pub id : Text
  pub total : ℕ
  pub shares : ℕ

pub record Slot : Type 0 where
  pub packet : Text
  pub slot : ℕ
  pub amount : ℕ
  pub claimed_by : Option Text

pub record Credit : Type 0 where
  pub packet : Text
  pub slot : ℕ
  pub amount : ℕ
  pub user : Text

pub record Received : Type 0 where
  pub packet : Text
  pub user : Text
  pub amount : ℕ

pub record Tables : Type 0 where
  pub packets : List Packet
  pub slots : List Slot
  pub credits : List Credit
  pub outbox : List (Text × Text)
  pub received : List Received

pub record Receipt : Type 0 where
  pub slot : ℕ
  pub amount : ℕ

pub data PacketError : Type 0 where
  invalid_allocation invalid_user no_packet exhausted failed : PacketError

abbrev pub Answer {ℓ} : Type ℓ → Type ℓ
Answer A = Result PacketError A

-- $2::bigint / $3::bigint + CASE WHEN n < $2::bigint % $3::bigint THEN 1 ELSE 0 END
unfoldable pub slot_amount : ℕ → ℕ → ℕ → ℕ
slot_amount total shares n = total / shares + (if ltb n (total % shares) then 1 else 0)

-- One row for each n of generate_series(0, count - 1), the last one first.
unfoldable pub new_slots : Text → ℕ → ℕ → ℕ → List Slot
unfolding slot_amount
new_slots id total shares zero = []
new_slots id total shares (suc n) =
    record { packet = id; slot = n; amount = slot_amount total shares n; claimed_by = none }
    ∷ new_slots id total shares n

abbrev has_packet : Text → Tables → Bool
has_packet id t = any (λ p. text_eq p.id id) t.packets

-- What is committed, and what the caller is told, where the transaction has come to its commit.
unfoldable pub committed {ℓ} : {A : Type ℓ} → Reply → Tables → Tables → A → Tables × Answer A
committed served before after a = (after, ok a)
committed refused before after a = (before, err failed)
committed lost before after a = (after, err failed)

unfoldable pub create : Reply → Text → ℕ → ℕ → Tables → Tables × Answer (Unit {0})
unfolding new_slots committed
create reply id total shares t =
    if (length id == 0) || ltb shares 1 || ltb 10000 shares || ltb total shares
    then (t, err invalid_allocation)
    else if has_packet id t
    then (t, err failed)
    else committed reply t
        (record t {
          packets = record { id = id; total = total; shares = shares } ∷ t.packets;
          slots = new_slots id total shares shares ++ t.slots;
        })
        tt

unfoldable pub is_credit : Text → Text → Credit → Bool
is_credit packet user c = text_eq c.packet packet && text_eq c.user user

unfoldable pub is_free : Text → Slot → Bool
is_free packet s = text_eq s.packet packet && elim s.claimed_by [ none ↦ true | some _ ↦ false ]

-- ORDER BY slot LIMIT 1
unfoldable pub lowest_free : Text → List Slot → Option Slot
lowest_free packet [] = none
lowest_free packet (s ∷ rest) = pick (is_free packet s) s (lowest_free packet rest)
  where
    pick : Bool → Slot → Option Slot → Option Slot
    pick false s later = later
    pick true s none = some s
    pick true s (some l) = if leb s.slot l.slot then some s else some l

-- UPDATE packet_slots SET claimed_by=$2 WHERE packet_id=$1 AND slot=(…)
unfoldable pub take_slot : Text → Text → ℕ → List Slot → List Slot
take_slot packet user n =
    map λ s.
      if text_eq s.packet packet && (s.slot == n) then record s { claimed_by = some user } else s

unfoldable pub credited : Text → Text → Slot → Tables → Tables
unfolding take_slot
credited packet user s t = record t {
  slots = take_slot packet user s.slot t.slots;
  credits = record { packet = packet; slot = s.slot; amount = s.amount; user = user } ∷ t.credits;
  outbox = (packet, user) ∷ t.outbox;
}

unfoldable pub claim_slot : Reply → Text → Text → Option Slot → Tables → Tables × Answer Receipt
unfolding credited committed
claim_slot reply packet user none t = (t, err exhausted)
claim_slot reply packet user (some s) t =
    committed reply t (credited packet user s t) (record { slot = s.slot; amount = s.amount })

-- An existing receipt is returned, else the lowest free slot is claimed.
unfoldable pub claim_receipt :
    Reply → Text → Text → Option Credit → Tables → Tables × Answer Receipt
unfolding claim_slot
claim_receipt reply packet user (some c) t =
    committed reply t t (record { slot = c.slot; amount = c.amount })
claim_receipt reply packet user none t = claim_slot reply packet user (lowest_free packet t.slots) t

unfoldable pub claim : Reply → Text → Text → Tables → Tables × Answer Receipt
unfolding claim_receipt
claim reply packet user t =
    if (length user == 0) || ltb 128 (byte_length user)
    then (t, err invalid_user)
    else if not (has_packet packet t)
    then (t, err no_packet)
    else claim_receipt reply packet user (find (is_credit packet user) t.credits) t

abbrev pub is_received : Text → Text → Received → Bool
is_received packet user r = text_eq r.packet packet && text_eq r.user user

abbrev pub is_intent : Text → Text → Text × Text → Bool
is_intent packet user i = text_eq i.0 packet && text_eq i.1 user

-- The receiver's row of a credit, with its key.
unfoldable pub receive : Credit → Tables → Tables
receive c t = if any (is_received c.packet c.user) t.received then t else record t {
  received = record { packet = c.packet; user = c.user; amount = c.amount } ∷ t.received;
}

-- INSERT INTO received_credits SELECT … ON CONFLICT DO NOTHING
unfoldable pub insert_received : Text → Text → Tables → Tables
unfolding receive
insert_received packet user t =
    if any (is_intent packet user) t.outbox
    then elim (find (is_credit packet user) t.credits) [ none ↦ t | some c ↦ receive c t ]
    else t

-- DELETE FROM credit_outbox WHERE packet_id=$1 AND user_id=$2
unfoldable pub acknowledge : Text → Text → Tables → Tables
acknowledge packet user t = record t { outbox = keep (λ i. not (is_intent packet user i)) t.outbox }

-- The fates of the two statements of `Deliver`; the process may stop between them.
unfoldable pub run_statement : Reply → (Tables → Tables) → Tables → Tables × Bool
run_statement served f t = (f t, true)
run_statement refused f t = (t, false)
run_statement lost f t = (f t, false)

unfoldable pub deliver : Reply → Reply → Text → Text → Tables → Tables × Bool
unfolding run_statement insert_received acknowledge
deliver first second packet user t =
    let (delivered, done) = run_statement first (insert_received packet user) t in
    if done then run_statement second (acknowledge packet user) delivered else (delivered, false)
