-- ===== src/Sync/Window.antt =====
-- The rows of a page of conversation_sync.go: a window of the sequence in order.
use im_backend.Prelude.{
  ℕ, ◌+◌, ◌-◌, ◌≤◌, ◌<◌, ◌≡◌, refl, ap, ◌∙◌, ◌⊎◌, inl, inr, true, false, List, [], ◌∷◌, arith, ltb,
  ◌==◌, Bool-cases, length, keep, any, In, All-In, any-In, In-any, In-keep, keep-In, DistinctBy,
  DistinctBy-keep, sort_by, sort_by-In, In-sort_by, Ascending, sort_by-Ascending,
}
use im_backend.Message.{Message}
use im_backend.Messages.Database.{Conversation, Database}
use im_backend.Messages.Consistency.{IsConsistent}
use im_backend.Sync.Page.{in_window, by_seq}

abbrev seq : Message → ℕ
seq m = m.conversation_seq

-- The sequences are start + 1, start + 2, and so on.
abbrev pub Run : ℕ → List Message → Type 0
Run start [] = Unit
Run start (m ∷ rest) = (m.conversation_seq ≡ start + 1) × Run (start + 1) rest

-- Messages that are the same where their sequences are have distinct sequences.
seq-DistinctBy :
    (xs : List Message)
    → ((m n : Message) → In m xs → In n xs → seq m ≡ seq n → m ≡ n)
    → DistinctBy (λ m. m.id) xs
    → DistinctBy seq xs
seq-DistinctBy [] same d = tt
seq-DistinctBy (x ∷ xs) same d = (
  elim (Bool-cases (any (λ y. seq y == seq x) xs)) [
    | inr e ↦ e
    | inl e ↦ let (y, m, q) = any-In (λ y. seq y == seq x) xs e in repeated y m (ground arith)
  ],
  seq-DistinctBy xs (λ m n i j. same m n (inr i) (inr j)) d.1,
)
  where
    repeated : (y : Message) → In y xs → seq y ≡ seq x → any (λ y. seq y == seq x) xs ≡ false
    repeated y m q =
        let e = same y x (inr m) (inl refl) q in
        absurd (
          cc
            (In-any (λ z. z.id == x.id) xs y m (ground (arith, ap (λ (z : Message). z.id) e)), d.0))

-- In ascending order, all of a window: the run from its start to its end.
Run-of_window :
    (start end : ℕ) (xs : List Message)
    → start ≤ end
    → Ascending seq xs
    → ((m : Message) → In m xs → (start < seq m) × (seq m ≤ end))
    → ((k : ℕ) → start < k → k ≤ end → (m : Message) × In m xs × (seq m ≡ k))
    → Run start xs × (length xs ≡ end - start)
Run-of_window start end [] le up bounds all = (
  tt,
  elim (Bool-cases (ltb start end)) [
    | inr e ↦ ground arith
    | inl e ↦ let (m, i, q) = all (start + 1) (omega arith) (ground arith) in absurd i.1
  ],
)
Run-of_window start end (x ∷ xs) le up bounds all =
    let (run, size) =
      Run-of_window (start + 1) end xs (omega (arith, bounds x (inl refl))) up.1 bounds_rest rest in
    ((first, run), omega (arith, size, bounds x (inl refl)))
  where
    pick : (m : Message) → (x ≡ m) ⊎ In m xs → seq m ≡ start + 1 → seq x ≡ start + 1
    pick m (inl e) q = ap seq e ∙ q
    pick m (inr i) q =
        absurd (omega (arith, bounds x (inl refl), All-In (λ y. seq x < seq y) xs up.0 i, q))

    first : seq x ≡ start + 1
    first =
        let (m, i, q) = all (start + 1) (omega arith) (omega (arith, bounds x (inl refl))) in
        pick m i q

    bounds_rest : (m : Message) → In m xs → (start + 1 < seq m) × (seq m ≤ end)
    bounds_rest m i =
        (omega (arith, first, All-In (λ y. seq x < seq y) xs up.0 i), (bounds m (inr i)).1)

    later :
        (k : ℕ) (m : Message)
        → start + 1 < k
        → (x ≡ m) ⊎ In m xs
        → seq m ≡ k
        → (n : Message) × In n xs × (seq n ≡ k)
    later k m lo (inl e) q = absurd (omega (arith, first, ap seq e, q, lo))
    later k m lo (inr i) q = (m, i, q)

    rest : (k : ℕ) → start + 1 < k → k ≤ end → (m : Message) × In m xs × (seq m ≡ k)
    rest k lo hi = let (m, i, q) = all k (omega arith) hi in later k m lo i q

-- The sorted window of a consistent database.
abbrev pub window : ℕ → ℕ → ℕ → Database → List Message
window conversation after snapshot db =
    sort_by by_seq (keep (in_window conversation after snapshot) db.messages)

pub window-In :
    (conversation after snapshot : ℕ) (db : Database) (m : Message)
    → In m (window conversation after snapshot db)
    → In m db.messages
      × (m.conversation_id ≡ conversation)
      × (after < m.conversation_seq)
      × (m.conversation_seq ≤ snapshot)
unfolding in_window
window-In conversation after snapshot db m i =
    let (j, h) =
      In-keep (in_window conversation after snapshot) db.messages m (sort_by-In by_seq _ m i) in
    (j, ground arith, ground arith, ground arith)

pub window-Run :
    (conversation after snapshot : ℕ) (db : Database) (c : Conversation)
    → IsConsistent db
    → In c db.conversations
    → c.id ≡ conversation
    → after ≤ snapshot
    → snapshot ≤ c.last_seq
    → Run after (window conversation after snapshot db)
      × (length (window conversation after snapshot db) ≡ snapshot - after)
unfolding in_window
window-Run conversation after snapshot db c s i named lo hi =
    Run-of_window after snapshot (window conversation after snapshot db) lo
      (sort_by-Ascending seq rows distinct)
      (λ m j. let (stored, of, a, b) = window-In conversation after snapshot db m j in (a, b))
      (λ k a b.
        let (m, j, of, q) = s.no_gaps c k i (omega arith) (omega arith) in
        (
          m,
          In-sort_by by_seq rows m (
              keep-In (in_window conversation after snapshot) db.messages m j
                (inside m (of ∙ named) k q a b)),
          q,
        ))
  where
    rows : List Message
    rows = keep (in_window conversation after snapshot) db.messages

    inside :
        (m : Message)
        → m.conversation_id ≡ conversation
        → (k : ℕ) → seq m ≡ k
        → after < k
        → k ≤ snapshot
        → in_window conversation after snapshot m ≡ true
    inside m of k q a b = ground arith

    one : (m n : Message) → In m rows → In n rows → seq m ≡ seq n → m ≡ n
    one m n x y q =
        let (p, t) = In-keep (in_window conversation after snapshot) db.messages m x in
        let (r, u) = In-keep (in_window conversation after snapshot) db.messages n y in
        s.one_per_seq m n p r (ground arith) q

    distinct : DistinctBy seq rows
    distinct = seq-DistinctBy rows one (DistinctBy-keep (λ m. m.id) _ db.messages s.message_ids)
