-- ===== src/Client/Sync/Rounds.antt =====
-- What syncConversationMessages of conversation_sync.go answers to the rounds of SyncConversation,
-- while other clients go on sending.
use im_backend.Prelude.{
  ok, ℕ, zero, suc, ◌+◌, ◌≤◌, ◌≡◌, refl, sym, ap, subst, ◌∙◌, ◌⊎◌, inl, inr, ◌==◌, List, Option,
  none, some, arith, All, All-map_to, In, find-In, DistinctBy-eq,
}
use im_backend.Message.{Message}
use im_backend.Messages.Database.{Conversation, Database}
use im_backend.Sync.Page.{ConversationMessagePage}
use im_backend.Sync.Contiguous.{IsPage, snapshot_of, sync_page_is_contiguous}
use im_backend.Client.Sync.{request_snapshot}
use im_backend.Client.Sync.Pages.{IsServed}
use im_backend.Client.Sync.History.{delivered, world_of, IsHistory, request-some}

module _ (user conversation : ℕ) (db : ℕ → Database) (history : IsHistory user conversation db)
    (known : 1 ≤ conversation) where
  abbrev pub last_seq_at : ℕ → ℕ
  last_seq_at i = (history.found i).0.last_seq

  found-In :
      (i : ℕ)
      → In (history.found i).0 (db i).conversations × ((history.found i).0.id ≡ conversation)
  found-In i =
      let (j, e) =
        find-In (λ c. c.id == conversation) (db i).conversations (history.found i).0
          (history.found i).1 in
      (j, ground arith)

  last_seq-step : (i : ℕ) → last_seq_at i ≤ last_seq_at (suc i)
  last_seq-step i =
      let (here, id) = found-In i in
      let (there, id') = found-In (suc i) in
      let (d, j, same, le) = history.grows i (history.found i).0 here in
      let e =
        DistinctBy-eq (λ (c : Conversation). c.id) (db (suc i)).conversations d
          (history.found (suc i)).0 (history.consistent (suc i)).conversation_ids j there
          (same ∙ id ∙ sym id') in
      omega (arith, le, ap (λ (c : Conversation). c.last_seq) e)

  last_seq-from_first : (i : ℕ) → last_seq_at 0 ≤ last_seq_at i
  last_seq-from_first zero = omega arith
  last_seq-from_first (suc i) = omega (arith, last_seq-from_first i, last_seq-step i)

  -- A message of the conversation that the server held at some time.
  abbrev pub IsGenuine : ℕ → Message → Type 0
  IsGenuine id m = (m.conversation_id ≡ id) × ((i : ℕ) × In m (db i).messages)

  abbrev pub end : ℕ
  end = last_seq_at 0

  unfoldable pub Page : ℕ → ℕ → ℕ → Option ℕ → Type 0
  Page n after limit snapshot =
      (page : ConversationMessagePage) × ((world_of user conversation db).serve n after limit
          snapshot
        ≡ ok page)
      × IsPage (db (suc (n + n))) conversation after end limit page

  Page-for :
      (n after limit : ℕ) (snapshot : Option ℕ)
      → snapshot_of snapshot (last_seq_at (n + n)) ≡ end
      → after ≤ end
      → (snapshot ≡ none)
        ⊎ ((k : ℕ) × (snapshot ≡ some k) × (after ≤ k) × (k ≤ last_seq_at (n + n)))
      → 1 ≤ limit
      → Page n after limit snapshot
  unfolding Page
  Page-for n after limit snapshot same le either pos =
      let (page, q, good) =
        sync_page_is_contiguous user conversation
          (record { after = after; limit = limit; snapshot = snapshot }) (db (n + n))
          (db (suc (n + n))) (history.found (n + n)).0 (history.consistent (suc (n + n)))
          (history.grows (n + n)) (history.member (n + n)) (history.found (n + n)).1
          (omega (arith, le, last_seq-from_first (n + n))) either pos in
      (
        page,
        ap delivered q,
        subst (λ e. IsPage (db (suc (n + n))) conversation after e limit page) same good,
      )

  -- The first round asks for no snapshot, the later ones for that of the first.
  abbrev pub Asks : ℕ → ℕ → Type 0
  Asks n z = ((n ≡ 0) × (z ≡ 0)) ⊎ (z ≡ end)

  pub Page-of_round :
      (n after limit z : ℕ)
      → Asks n z
      → after ≤ end
      → 1 ≤ end
      → 1 ≤ limit
      → Page n after limit (request_snapshot z)
  Page-of_round n after limit z (inl (first, zero_yet)) le pos limited =
      subst (λ k. Page k after limit (request_snapshot z)) (sym first)
        (subst (λ k. Page 0 after limit (request_snapshot k)) (sym zero_yet)
          (Page-for 0 after limit none refl le (inl refl) limited))
  Page-of_round n after limit z (inr known_end) le pos limited =
      subst (Page n after limit) (sym (ap request_snapshot known_end ∙ request-some end pos)) (
        Page-for n after limit (some end) refl le (inr (end, refl, le, last_seq-from_first (n + n)))
          limited)

  pub IsServed-page :
      (i : ℕ) (xs : List Message)
      → All (λ m. In m (db i).messages × (m.conversation_id ≡ conversation)) xs
      → All (IsServed IsGenuine conversation known) xs
  IsServed-page i xs h =
      All-map_to xs
        (λ m p. (p.1, (history.consistent i).message_ids_from_one m p.0, (p.1, (i, p.0)))) h
