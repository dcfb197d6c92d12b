-- ===== src/History/Pages.antt =====
-- The pages of message_history.go have no gaps.
use im_backend.Prelude.{
  ℕ, suc, ◌-◌, min, ◌≤◌, ◌≡◌, refl, ap, ◌∙◌, inl, inr, Bool, true, List, [], ◌∷◌, arith, ◌==◌,
  length, length-take, In, DistinctBy-eq, take, keep, reverse, sort_by,
}
use im_backend.Message.{Message, Text}
use im_backend.Messages.Database.{Conversation, Database}
use im_backend.Messages.Consistency.{IsConsistent}
use im_backend.Sync.Page.{by_seq, in_window}
use im_backend.Sync.Window.{Run, window, window-Run}
use im_backend.History.Order.{down-page, take-more, Run-take}
use im_backend.History.Request.{HistoryCursor, Direction, latest, before, after}
use im_backend.History.{history_rows, history_page, in_order, of_conversation}

-- The rows of a direction are those of a window of the sequence.
keep-same {ℓ} :
    {A : Type ℓ} (p q : A → Bool) (xs : List A)
    → ((a : A) → In a xs → p a ≡ q a)
    → keep p xs ≡ keep q xs
keep-same p q [] h = refl
keep-same p q (x ∷ xs) h = ground (arith, h x (inl refl), keep-same p q xs (λ a i. h a (inr i)))

placed-bounds :
    (db : Database) (c : Conversation) (m : Message)
    → IsConsistent db
    → In c db.conversations
    → In m db.messages
    → (m.conversation_id == c.id) ≡ true
    → (1 ≤ m.conversation_seq) × (m.conversation_seq ≤ c.last_seq)
placed-bounds db c m s i j e =
    let (d, k, named, lo, hi) = s.placed m j in
    let same =
      DistinctBy-eq (λ (x : Conversation). x.id) db.conversations d c s.conversation_ids k i
        (named ∙ ground arith) in
    (lo, omega (arith, hi, ap (λ (x : Conversation). x.last_seq) same))

-- The sequences that a direction may show: those above the first number, up to the second.
abbrev pub span : Direction → ℕ → ℕ × ℕ
span latest last = (0, last)
span (before c) last = (0, min (c.sequence - 1) last)
span (after c) last = (c.sequence, last)

-- The cursor of a later page lies in the stream.
abbrev pub InStream : Direction → ℕ → Type 0
InStream latest last = Unit
InStream (before c) last = 1 ≤ c.sequence
InStream (after c) last = c.sequence ≤ last

-- The sequence before the first message of a page with `n` messages.
abbrev pub start_of : Direction → ℕ → ℕ → ℕ
start_of latest last n = last - n
start_of (before c) last n = min (c.sequence - 1) last - n
start_of (after c) last n = c.sequence

abbrev ordered_window : Direction → ℕ → ℕ → Database → List Message
ordered_window latest id last db = reverse (window id 0 last db)
ordered_window (before c) id last db = reverse (window id 0 (min (c.sequence - 1) last) db)
ordered_window (after c) id last db = window id c.sequence last db

history_rows-window :
    (direction : Direction) (limit : ℕ) (db : Database) (c : Conversation)
    → IsConsistent db
    → In c db.conversations
    → InStream direction c.last_seq
    → history_rows direction c.id limit db
      ≡ take (suc limit) (ordered_window direction c.id c.last_seq db)
unfolding history_rows of_conversation in_window
history_rows-window latest limit db c s i valid =
    ap (λ xs. take (suc limit) (reverse (sort_by by_seq xs)))
      (keep-same _ _ db.messages (λ m j. ground (arith, placed-bounds db c m s i j)))
history_rows-window (before k) limit db c s i valid =
    ap (λ xs. take (suc limit) (reverse (sort_by by_seq xs)))
      (keep-same _ _ db.messages (λ m j. ground (arith, placed-bounds db c m s i j)))
history_rows-window (after k) limit db c s i valid =
    ap (λ xs. take (suc limit) (sort_by by_seq xs))
      (keep-same _ _ db.messages (λ m j. ground (arith, placed-bounds db c m s i j)))

-- A page of any direction, whose cursor lies in the stream, has no gap and ends or begins at the
-- cursor or at the newest message; as many messages come as there are, up to the limit, in the order
-- of the sequence.
pub history_page_is_contiguous :
    (encode : HistoryCursor → Text) (direction : Direction) (limit : ℕ) (db : Database)
    (c : Conversation)
    → IsConsistent db
    → In c db.conversations
    → InStream direction c.last_seq
    → let page = history_page encode direction c.id limit (history_rows direction c.id limit db) in
      let (from, to) = span direction c.last_seq in
      (length page.messages ≡ min limit (to - from))
      × Run (start_of direction c.last_seq (length page.messages)) page.messages
unfolding history_page in_order
history_page_is_contiguous encode latest limit db c s i valid =
    rw (history_rows-window latest limit db c s i valid) (
      let (run, size) = window-Run c.id 0 c.last_seq db c s i refl (omega arith) (omega arith) in
      let (n, r) =
        down-page limit c.last_seq (window c.id 0 c.last_seq db) run (omega (arith, size)) in
      (omega (arith, n), r))
history_page_is_contiguous encode (before k) limit db c s i valid =
    rw (history_rows-window (before k) limit db c s i valid) (
      let top = min (k.sequence - 1) c.last_seq in
      let (run, size) = window-Run c.id 0 top db c s i refl (omega arith) (omega arith) in
      let (n, r) = down-page limit top (window c.id 0 top db) run (omega (arith, size)) in
      (omega (arith, n), r))
history_page_is_contiguous encode (after k) limit db c s i valid =
    rw
      (
        history_rows-window (after k) limit db c s i valid,
        take-more limit (window c.id k.sequence c.last_seq db),
      )
      (let (run, size) = window-Run c.id k.sequence c.last_seq db c s i refl valid (omega arith) in
        (
          omega (arith, length-take limit (window c.id k.sequence c.last_seq db), size),
          Run-take limit k.sequence (window c.id k.sequence c.last_seq db) run,
        ))
