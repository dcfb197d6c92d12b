-- ===== src/Client/Sync/Converge.antt =====
-- SyncConversation of internal/headlessclient/client.go against syncConversationMessages of
-- conversation_sync.go, while other clients go on sending.
use im_backend.Prelude.{
  ok, ℕ, zero, suc, ◌+◌, ◌-◌, min, ◌≤◌, ◌<◌, ◌≡◌, refl, subst, ◌∙◌, ◌⊎◌, inl, inr, Bool, true,
  false, ◌||◌, ◌==◌, ltb, some, arith, Bool-cases,
}
use im_backend.Message.{Message}
use im_backend.Messages.Database.{Database}
use im_backend.Sync.Request.{max_conversation_page_limit}
use im_backend.Client.State.{AuthState, State}
use im_backend.Client.Apply.{conversation_of}
use im_backend.Client.Apply.Log.{IsLog}
use im_backend.Client.Apply.Sound.{IsSound, conversation_of-IsLog}
use im_backend.Client.Sync.{sync_round, sync_loop, sync_conversation}
use im_backend.Client.Sync.Pages.{cursor_of, Reaches, sync_round-Reaches}
use im_backend.Client.Sync.History.{world_of, IsHistory, loop-stops, loop-goes_on, not_less}
use im_backend.Client.Sync.Rounds

module _ (user conversation : ℕ) (db : ℕ → Database) (history : IsHistory user conversation db)
    (known : 1 ≤ conversation) where
  abbrev pub end : ℕ
  end = Rounds.end user conversation db history known

  abbrev pub IsGenuine : ℕ → Message → Type 0
  IsGenuine = Rounds.IsGenuine user conversation db history known

  abbrev Asks : ℕ → ℕ → Type 0
  Asks = Rounds.Asks user conversation db history known

  -- A round that the loop makes: where it goes, and whether it goes on.
  record Round (limit n z : ℕ) (s : State) : Type 0 where
    pub state : State
    pub next : ℕ
    pub more : Bool
    pub made :
        sync_round (world_of user conversation db) conversation limit n z s
        ≡ (state, ok (end, more))
    pub reaches : Reaches IsGenuine conversation known s next state
    pub step : next ≡ cursor_of s conversation + min limit (end - cursor_of s conversation)
    pub goes_on : more ≡ true → next < end
    pub stops : more ≡ false → end ≤ next

  Round-Round :
      (limit n z : ℕ) (s : State) (auth : AuthState)
      → 1 ≤ limit
      → 1 ≤ end
      → s.auth ≡ some auth
      → IsSound IsGenuine s
      → cursor_of s conversation ≤ end
      → Asks n z
      → Round limit n z s
  unfolding Rounds.Page
  Round-Round limit n z s auth limited pos signed_in sound le asks =
      let (page, answer, good) =
        Rounds.Page-of_round user conversation db history known n (cursor_of s conversation) limit z
          asks le pos limited in
      let (t, q, r) =
        sync_round-Reaches IsGenuine conversation known (world_of user conversation db) n limit end
          s auth page (λ a. refl) signed_in sound good.named good.snapshot_kept good.run
          (Rounds.IsServed-page user conversation db history known (suc (n + n)) page.messages
            good.stored)
          good.next (omega (arith, good.next, good.size)) z (snapshot asks) answer in
      record {
        state = t;
        next = page.next_cursor;
        more = page.has_more;
        made = q;
        reaches = r;
        step = omega (arith, good.next, good.size);
        goes_on = good.more.0;
        stops = not_less page.has_more page.next_cursor end good.more.1;
      }
    where
      snapshot : Asks n z → (z ≡ 0) ⊎ (z ≡ end)
      snapshot (inl p) = inl p.1
      snapshot (inr e) = inr e

  Finishes : ℕ → ℕ → ℕ → ℕ → State → Type 0
  Finishes limit fuel n z s =
      (t : State) × (sync_loop (world_of user conversation db) conversation limit fuel n z s
        ≡ (t, ok tt))
      × Reaches IsGenuine conversation known s end t

  loop-Finishes :
      (limit fuel n z : ℕ) (s : State) (auth : AuthState)
      → 1 ≤ limit
      → 1 ≤ end
      → s.auth ≡ some auth
      → IsSound IsGenuine s
      → cursor_of s conversation ≤ end
      → end - cursor_of s conversation < fuel
      → Asks n z
      → Finishes limit fuel n z s
  unfolding Finishes
  loop-Finishes limit zero n z s auth limited pos signed_in sound le enough asks =
      absurd (omega arith)
  loop-Finishes limit (suc fuel) n z s auth limited pos signed_in sound le enough asks =
      let r = Round-Round limit n z s auth limited pos signed_in sound le asks in
      elim (Bool-cases r.more) [
        | inl more ↦
            let made =
              subst
                (λ b.
                  sync_round (world_of user conversation db) conversation limit n z s
                  ≡ (r.state, ok (end, b)))
                more r.made in
            let less = r.goes_on more in
            let (u, finished, d) =
              loop-Finishes limit fuel (suc n) end r.state auth limited pos
                (r.reaches.auth ∙ signed_in) r.reaches.sound (omega (arith, r.reaches.cursor, less))
                (omega (arith, r.reaches.cursor, less, r.step, enough)) (inr refl) in
            (
              u,
              loop-goes_on (world_of user conversation db) conversation limit fuel n z end s r.state
                    made
                  ∙ finished,
              record { auth = d.auth ∙ r.reaches.auth; sound = d.sound; cursor = d.cursor },
            )
        | inr done ↦
            let made =
              subst
                (λ b.
                  sync_round (world_of user conversation db) conversation limit n z s
                  ≡ (r.state, ok (end, b)))
                done r.made in
            (
              r.state,
              loop-stops (world_of user conversation db) conversation limit fuel n z end s r.state
                  made,
              record {
                auth = r.reaches.auth;
                sound = r.reaches.sound;
                cursor = omega (arith, r.reaches.cursor, r.stops done, r.step, le);
              },
            )
      ]

  -- A signed-in client whose logs are sound and whose cursor is not ahead of the conversation ends
  -- the synchronisation without an error, in a number of rounds that the messages bound, whatever
  -- other clients send meanwhile: its cursor is then the last sequence at the start, and its log
  -- holds one message of the server for each sequence up to it.
  pub sync_converges :
      (limit fuel : ℕ) (s : State) (auth : AuthState)
      → 1 ≤ limit
      → limit ≤ max_conversation_page_limit
      → 1 ≤ end
      → s.auth ≡ some auth
      → IsSound IsGenuine s
      → cursor_of s conversation ≤ end
      → end - cursor_of s conversation < fuel
      → (t : State) × (sync_conversation (world_of user conversation db) fuel conversation limit s
          ≡ (t, ok tt))
        × (t.auth ≡ some auth)
        × (cursor_of t conversation ≡ end)
        × IsLog (IsGenuine conversation) (conversation_of t conversation)
  unfolding sync_conversation Finishes
  sync_converges limit fuel s auth limited most pos signed_in sound le enough =
      let (t, q, r) =
        loop-Finishes limit fuel 0 0 s auth limited pos signed_in sound le enough
          (inl (refl, refl)) in
      (
        t,
        rw accepted q,
        r.auth ∙ signed_in,
        r.cursor,
        conversation_of-IsLog IsGenuine t conversation r.sound,
      )
    where
      accepted :
          ((conversation == 0) || (limit == 0) || ltb max_conversation_page_limit limit) ≡ false
      accepted = ground arith
