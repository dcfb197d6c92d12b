-- ===== src/Sync/Contiguous.antt =====
-- What a page of conversation_sync.go carries.
use im_backend.Prelude.{
  refuse_if, ◌>>◌, ◌>>=◌, ok, ℕ, zero, suc, ◌+◌, ◌-◌, min, ◌≤◌, ◌<◌, ◌≡◌, refl, sym, ap, ◌∙◌, ◌↔◌,
  ◌⊎◌, inl, inr, true, false, List, [], ◌∷◌, Option, none, some, arith, ltb, ◌==◌, length, take,
  All, In, In-All, In-take, find-In,
}
use im_backend.Message.{Message}
use im_backend.Messages.Database.{Conversation, Database}
use im_backend.Messages.Store.{find_conversation}
use im_backend.Messages.Consistency.{IsConsistent}
use im_backend.Sync.Request.{Pagination, validate_snapshot_cursor}
use im_backend.Sync.Page.{
  ConversationMessagePage, collect, last_key, page_rows, page_of, read_page, sync_page, read_cursor,
  found_cursor, current_cursor, is_member,
}
use im_backend.Sync.Window.{Run, window, window-In, window-Run}

-- The page of at most `limit` messages behind `after`: their sequences are after + 1, after + 2, …
-- without a gap, they are messages of the conversation, `next_cursor` is the last of them, as many
-- come as there are up to the limit, and `has_more` says whether the snapshot is not yet reached.
pub record IsPage (db : Database) (conversation after snapshot limit : ℕ)
    (p : ConversationMessagePage) : Type 0 where
  pub named : p.conversation_id ≡ conversation
  pub snapshot_kept : p.snapshot_cursor ≡ snapshot
  pub run : Run after p.messages
  pub stored : All (λ m. In m db.messages × (m.conversation_id ≡ conversation)) p.messages
  pub next : p.next_cursor ≡ after + length p.messages
  pub size : length p.messages ≡ min limit (snapshot - after)
  pub more : (p.has_more ≡ true) ↔ (p.next_cursor < snapshot)

collect-take {ℓ} :
    {A : Type ℓ} (limit : ℕ) (xs : List A) → (collect limit (take (suc limit) xs)).0 ≡ take limit xs
unfolding collect
collect-take zero [] = refl
collect-take zero (x ∷ xs) = refl
collect-take (suc limit) [] = refl
collect-take (suc limit) (x ∷ xs) = ap (◌∷◌ x) (collect-take limit xs)

collect-more {ℓ} :
    {A : Type ℓ} (limit : ℕ) (xs : List A)
    → (collect limit (take (suc limit) xs)).1 ≡ ltb limit (length xs)
unfolding collect
collect-more zero [] = refl
collect-more zero (x ∷ xs) = ground arith
collect-more (suc limit) [] = ground arith
collect-more (suc limit) (x ∷ xs) = ground (arith, collect-more limit xs)

take-Run :
    (n start : ℕ) (xs : List Message)
    → Run start xs
    → Run start (take n xs)
      × (last_key (λ m. m.conversation_seq) start (take n xs) ≡ start + length (take n xs))
      × (length (take n xs) ≡ min n (length xs))
take-Run zero start xs r = (tt, omega arith, omega arith)
take-Run (suc n) start [] r = (tt, omega arith, omega arith)
take-Run (suc n) start (x ∷ xs) r =
    let (run, last, size) = take-Run n (start + 1) xs r.1 in
    ((r.0, run), rw r.0 (omega (arith, last)), omega (arith, size))

pub read_page-IsPage :
    (conversation after snapshot limit : ℕ) (db : Database) (c : Conversation)
    → IsConsistent db
    → In c db.conversations
    → c.id ≡ conversation
    → after ≤ snapshot
    → snapshot ≤ c.last_seq
    → 1 ≤ limit
    → (p : ConversationMessagePage) × (read_page conversation after snapshot limit (some db) ≡ ok p)
      × IsPage db conversation after snapshot limit p
unfolding read_page page_of page_rows
read_page-IsPage conversation after snapshot limit db c s i named lo hi pos = (
  page_of conversation after snapshot (collect limit (take (suc limit) rows)),
  refl,
  record {
    named = refl;
    snapshot_kept = refl;
    run = rw (collect-take limit rows) part.0;
    stored = rw (collect-take limit rows) (
        In-All (λ m. In m db.messages × (m.conversation_id ≡ conversation)) (take limit rows)
          inside);
    next = rw (collect-take limit rows) part.1;
    size = rw (collect-take limit rows, sym whole.1) part.2;
    more =
        rw (collect-take limit rows, collect-more limit rows, part.1, part.2, whole.1) ground arith;
  },
)
  where
    rows : List Message
    rows = window conversation after snapshot db

    whole : Run after rows × (length rows ≡ snapshot - after)
    whole = window-Run conversation after snapshot db c s i named lo hi

    part :
        Run after (take limit rows)
        × (last_key (λ m. m.conversation_seq) after (take limit rows)
            ≡ after + length (take limit rows))
        × (length (take limit rows) ≡ min limit (length rows))
    part = take-Run limit after rows whole.0

    inside :
        (m : Message)
        → In m (take limit rows)
        → In m db.messages × (m.conversation_id ≡ conversation)
    inside m j =
        let (stored, of, a, b) =
          window-In conversation after snapshot db m (In-take limit rows m j) in
        (stored, of)

-- The later database still has each conversation, with as many messages at least.
abbrev pub Grows : Database → Database → Type 0
Grows earlier later =
    (c : Conversation)
    → In c earlier.conversations
    → (d : Conversation) × In d later.conversations × (d.id ≡ c.id) × (c.last_seq ≤ d.last_seq)

-- The snapshot that a request is answered for.
abbrev pub snapshot_of : Option ℕ → ℕ → ℕ
snapshot_of none last = last
snapshot_of (some n) last = n

validate-in_bounds :
    (snapshot : Option ℕ) (after last : ℕ)
    → after ≤ last
    → (snapshot ≡ none) ⊎ ((n : ℕ) × (snapshot ≡ some n) × (after ≤ n) × (n ≤ last))
    → (validate_snapshot_cursor snapshot after last ≡ ok (snapshot_of snapshot last))
      × (after ≤ snapshot_of snapshot last)
      × (snapshot_of snapshot last ≤ last)
unfolding validate_snapshot_cursor
validate-in_bounds snapshot after last le (inl e) = rw e (refl, le, omega arith)
validate-in_bounds snapshot after last le (inr (n, e, lo, hi)) = rw e (ground arith, lo, hi)

not-ahead : (after last : ℕ) → after ≤ last → ltb last after ≡ false
not-ahead after last h = ground arith

-- A member's request behind a cursor that the stream has reached, for a snapshot between the two or
-- for none, is answered with a page up to that snapshot or up to the end of the stream, without a
-- gap, even where other transactions have added messages between the two statements.
pub sync_page_is_contiguous :
    (user conversation : ℕ) (p : Pagination) (db later : Database) (c : Conversation)
    → IsConsistent later
    → Grows db later
    → is_member user conversation db ≡ true
    → find_conversation conversation db ≡ some c
    → p.after ≤ c.last_seq
    → (p.snapshot ≡ none) ⊎ ((n : ℕ) × (p.snapshot ≡ some n) × (p.after ≤ n) × (n ≤ c.last_seq))
    → 1 ≤ p.limit
    → (page : ConversationMessagePage) × (sync_page user conversation p
          (record { first = some db; second = some later })
        ≡ ok page)
      × IsPage later conversation p.after (snapshot_of p.snapshot c.last_seq) p.limit page
unfolding ◌>>=◌ ◌>>◌ refuse_if sync_page read_cursor found_cursor current_cursor
sync_page_is_contiguous user conversation p db later c s grows member found behind snapshot pos =
    let (valid, lo, hi) = validate-in_bounds p.snapshot p.after c.last_seq behind snapshot in
    let (i, same) = find-In (λ x. x.id == conversation) db.conversations c found in
    let (d, j, id, le) = grows c i in
    let (page, e, good) =
      read_page-IsPage conversation p.after (snapshot_of p.snapshot c.last_seq) p.limit later d s j
        (id ∙ ground arith) lo (omega arith) pos in
    (page, rw (member, found, current_cursor, not-ahead p.after c.last_seq behind, valid) e, good)
