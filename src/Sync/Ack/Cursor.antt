-- ===== src/Sync/Ack/Cursor.antt =====
-- The cursors of sync_ack.go only rise, and only the acknowledged one.
use im_backend.Prelude.{
  ok, err, ℕ, ◌≤◌, ◌≡◌, refl, Bool, true, false, ◌&&◌, List, [], ◌∷◌, Option, arith, ◌==◌,
  if◌then◌else◌, max,
}
use im_backend.Message.{Text}
use im_backend.Messages.Database.{Database}
use im_backend.Sync.Request.{Response}
use im_backend.Sync.Ack.{
  SyncState, is_state_of, raise, upsert, Body, checked_ack, write_ack, acknowledge_conversation,
}

-- The cursor of a device in a conversation; 0 where it has none.
abbrev pub applied : ℕ → ℕ → ℕ → List SyncState → ℕ
applied user device conversation [] = 0
applied user device conversation (s ∷ rest) =
    let later = applied user device conversation rest in
    if is_state_of user device conversation s then s.applied_seq else later

upsert-own :
    (user device conversation cursor now : ℕ) (table : List SyncState)
    → (applied user device conversation (upsert user device conversation cursor now table).0
        ≡ max (applied user device conversation table) cursor)
      × ((upsert user device conversation cursor now table).1.applied_seq
          ≡ max (applied user device conversation table) cursor)
unfolding upsert is_state_of raise
upsert-own user device conversation cursor now [] = ground arith
upsert-own user device conversation cursor now (s ∷ rest) =
    ground (arith, upsert-own user device conversation cursor now rest)

abbrev pub same_device : ℕ → ℕ → ℕ → ℕ → ℕ → ℕ → Bool
same_device user device conversation u d c = (user == u) && (device == d) && (conversation == c)

upsert-other :
    (user device conversation cursor now u d c : ℕ) (table : List SyncState)
    → same_device user device conversation u d c ≡ false
    → applied u d c (upsert user device conversation cursor now table).0 ≡ applied u d c table
unfolding upsert is_state_of raise
upsert-other user device conversation cursor now u d c [] h = ground arith
upsert-other user device conversation cursor now u d c (s ∷ rest) h =
    ground (arith, upsert-other user device conversation cursor now u d c rest h)

-- An acknowledgement that passes the checks raises the device's cursor to the acknowledged one,
-- never lowers it, answers with the cursor that is then stored, and leaves the cursors of all other
-- devices and conversations as they were.
pub ack_raises_own_cursor :
    (user device now : ℕ) (path : Text) (body : Body) (db : Option Database)
    (table : List SyncState) (conversation cursor : ℕ)
    → checked_ack user path body db ≡ ok (conversation, cursor)
    → let (later, answer) = acknowledge_conversation user device path body db false now table in
      ((s : SyncState) × (answer ≡ ok s)
        × (s.applied_seq ≡ max (applied user device conversation table) cursor))
      × (applied user device conversation later
          ≡ max (applied user device conversation table) cursor)
      × ((u d c : ℕ)
          → same_device user device conversation u d c ≡ false
          → applied u d c later ≡ applied u d c table)
unfolding acknowledge_conversation write_ack
ack_raises_own_cursor user device now path body db table conversation cursor checked =
    let (own, written) = upsert-own user device conversation cursor now table in
    rw (checked, write_ack)
      (
        (_, refl, written),
        own,
        λ u d c h. upsert-other user device conversation cursor now u d c table h,
      )

upsert-le :
    (user device conversation cursor now u d c : ℕ) (table : List SyncState)
    → applied u d c table ≤ applied u d c (upsert user device conversation cursor now table).0
unfolding upsert is_state_of raise
upsert-le user device conversation cursor now u d c [] = ground arith
upsert-le user device conversation cursor now u d c (s ∷ rest) =
    ground (arith, upsert-le user device conversation cursor now u d c rest)

write_ack-le :
    (user device now : ℕ) (write_fails : Bool) (table : List SyncState) (r : Response (ℕ × ℕ))
    (u d c : ℕ)
    → applied u d c table ≤ applied u d c (write_ack user device write_fails now table r).0
unfolding write_ack
write_ack-le user device now write_fails table (err e) u d c = omega arith
write_ack-le user device now true table (ok (conversation, cursor)) u d c = omega arith
write_ack-le user device now false table (ok (conversation, cursor)) u d c =
    upsert-le user device conversation cursor now u d c table

-- Whatever the request and whatever fails, no device's cursor goes back.
pub ack_never_regresses :
    (user device now : ℕ) (path : Text) (body : Body) (db : Option Database) (write_fails : Bool)
    (table : List SyncState) (u d c : ℕ)
    → applied u d c table
      ≤ applied u d c (acknowledge_conversation user device path body db write_fails now table).0
unfolding acknowledge_conversation
ack_never_regresses user device now path body db write_fails table u d c =
    write_ack-le user device now write_fails table (checked_ack user path body db) u d c
