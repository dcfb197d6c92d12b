-- ===== src/Messages/Outcome/Stages.antt =====
-- Each stage of `send` in message_service.go, on every branch.
use im_backend.Prelude.{ℕ, ◌≡◌, ◌≢◌, refl, inl, inr, Bool, true, false, Bool-cases}
use im_backend.Message.{Message}
use im_backend.Outbox.Types.{Reply, served, refused, lost}
use im_backend.Messages.Database.{Database, Sql, row, no_rows, failed}
use im_backend.Messages.Command.{ValidCommand, Answer}
use im_backend.Messages.Service.{
  World, Stage, begin, find, select_conversation, add_conversation, select_again, add_members,
  add_message, roll_back, find_winner, Transaction, SendMessageResult, run_statement,
  existing_result, same_message_request, commit_created, winner_result, answer_with_winner,
  after_insert, insert_stage, after_members, after_resolve, resolve_again, resolve_new,
  resolve_direct_conversation, after_find, send_valid, low_user, high_user,
}
use im_backend.Messages.Consistency.{IsConsistent}
use im_backend.Messages.Consistency.Conversations.{
  insert_conversation-IsConsistent, insert_members-IsConsistent,
}
use im_backend.Messages.Outcome.{Created, answer_created, Outcome, insert-Inserted}

module _ (w : World) (c : ValidCommand) (R : Database → Type 0)
    (stable : (stage : Stage) (db : Database) → R db → R (w.others stage db))
    (consistent : (stage : Stage) (db : Database)
      → IsConsistent db
      → IsConsistent (w.others stage db)) where
  record Good (tx : Transaction) : Type 0 where
    base : R tx.committed
    view : IsConsistent tx.seen

  existing-no_creation : (m n : Message) → existing_result m c ≢ answer_created n
  unfolding existing_result
  existing-no_creation m n = elim (Bool-cases (same_message_request m c)) [
    | inl e ↦ rw e (λ q. cc)
    | inr e ↦ rw e (λ q. cc)
  ]

  run_statement-Good :
      {A : Type 0} (stage : Stage) (query : Database → Sql A × Database) (tx : Transaction)
      → ((db : Database) → IsConsistent db → IsConsistent (query db).1)
      → Good tx
      → Good (run_statement w stage query tx).1
  unfolding run_statement
  run_statement-Good stage query tx keeps g = elim (Bool-cases (w.fails stage)) [
    | inl e ↦ rw e (record { base = stable stage _ g.base; view = consistent stage _ g.view })
    | inr e ↦
        rw e (record { base = stable stage _ g.base; view = keeps _ (consistent stage _ g.view) })
  ]

  unwritten :
      (db : Database) (r : Answer SendMessageResult)
      → R db
      → ((m : Message) → r ≢ answer_created m)
      → Outcome w c R (db, r)
  unwritten db r b n = inl (b, n)

  commit-Outcome :
      (m : Message) (tx : Transaction)
      → Good tx
      → Created c m tx.seen
      → Outcome w c R (commit_created w m tx)
  unfolding commit_created
  commit-Outcome m tx g made = go w.commit refl
    where
      go : (r : Reply) → w.commit ≡ r → Outcome w c R (commit_created w m tx)
      go served e = rw (e, commit_created) (inr (m, made, g.view, inl refl))
      go refused e = rw (e, commit_created) (inl (g.base, λ n q. cc))
      go lost e = rw (e, commit_created) (inr (m, made, g.view, inr (refl, refl)))

  winner-no_creation : (r : Sql Message) (n : Message) → winner_result c r ≢ answer_created n
  unfolding winner_result
  winner-no_creation (row m) n = existing-no_creation m n
  winner-no_creation no_rows n = λ q. cc
  winner-no_creation (failed e) n = λ q. cc

  base_of_statement :
      {A : Type 0} (stage : Stage) (query : Database → Sql A × Database) (tx : Transaction)
      → R tx.committed
      → R (run_statement w stage query tx).1.committed
  unfolding run_statement
  base_of_statement stage query tx b = elim (Bool-cases (w.fails stage)) [
    | inl e ↦ rw e (stable stage _ b)
    | inr e ↦ rw e (stable stage _ b)
  ]

  answer_with_winner-Outcome :
      (tx : Transaction) → R tx.committed → Outcome w c R (answer_with_winner w c tx)
  unfolding answer_with_winner
  answer_with_winner-Outcome tx b = elim (Bool-cases (w.fails roll_back)) [
    | inl e ↦ rw e (inl (stable roll_back _ b, λ n q. cc))
    | inr e ↦
        rw e (inl (base_of_statement find_winner _ _ (stable roll_back _ b), winner-no_creation _))
  ]

  after_insert-Outcome :
      (r : Sql Message) (tx : Transaction)
      → R tx.committed
      → ((m : Message) → r ≡ row m → Created c m tx.seen × IsConsistent tx.seen)
      → Outcome w c R (after_insert w c r tx)
  unfolding after_insert
  after_insert-Outcome (row m) tx b made =
      let (mine, sound) = made m refl in
      commit-Outcome m tx (record { base = b; view = sound }) mine
  after_insert-Outcome no_rows tx b made = answer_with_winner-Outcome tx b
  after_insert-Outcome (failed e) tx b made = inl (b, λ n q. cc)

  insert_stage-Outcome :
      (conversation : ℕ) (tx : Transaction)
      → Good tx
      → Outcome w c R (insert_stage w c conversation tx)
  unfolding insert_stage run_statement
  insert_stage-Outcome conversation tx g = elim (Bool-cases (w.fails add_message)) [
    | inl e ↦ rw e (after_insert-Outcome _ _ (stable add_message _ g.base) (λ m q. absurd (cc)))
    | inr e ↦ rw e (
        after_insert-Outcome _ _ (stable add_message _ g.base)
          (insert-Inserted conversation c _ (consistent add_message _ g.view)))
  ]

  after_members-Outcome :
      (conversation : ℕ) (r : Sql (Unit {0})) (tx : Transaction)
      → Good tx
      → Outcome w c R (after_members w c conversation r tx)
  unfolding after_members
  after_members-Outcome conversation (failed e) tx g = inl (g.base, λ n q. cc)
  after_members-Outcome conversation (row _) tx g = insert_stage-Outcome conversation tx g
  after_members-Outcome conversation no_rows tx g = insert_stage-Outcome conversation tx g

  after_resolve-Outcome :
      (r : Sql (ℕ × Bool)) (tx : Transaction) → Good tx → Outcome w c R (after_resolve w c r tx)
  unfolding after_resolve
  after_resolve-Outcome (failed e) tx g = inl (g.base, λ n q. cc)
  after_resolve-Outcome no_rows tx g = inl (g.base, λ n q. cc)
  after_resolve-Outcome (row (conversation, false)) tx g = insert_stage-Outcome conversation tx g
  after_resolve-Outcome (row (conversation, true)) tx g = after_members-Outcome conversation _ _ (
      run_statement-Good add_members _ tx
        (insert_members-IsConsistent conversation c.sender c.receiver) g)

  resolve_again-Good :
      (low high : ℕ) (r : Sql ℕ) (tx : Transaction)
      → Good tx
      → Good (resolve_again w low high r tx).1
  unfolding resolve_again
  resolve_again-Good low high (row id) tx g = g
  resolve_again-Good low high (failed e) tx g = g
  resolve_again-Good low high no_rows tx g = run_statement-Good select_again _ tx (λ db s. s) g

  resolve_new-Good :
      (low high : ℕ) (r : Sql ℕ) (tx : Transaction) → Good tx → Good (resolve_new w low high r tx).1
  unfolding resolve_new
  resolve_new-Good low high (row id) tx g = g
  resolve_new-Good low high (failed e) tx g = g
  resolve_new-Good low high no_rows tx g =
      resolve_again-Good low high _ _
        (run_statement-Good add_conversation _ tx (insert_conversation-IsConsistent low high) g)

  after_find-Outcome :
      (r : Sql Message) (tx : Transaction) → Good tx → Outcome w c R (after_find w c r tx)
  unfolding after_find resolve_direct_conversation
  after_find-Outcome (failed e) tx g = inl (g.base, λ n q. cc)
  after_find-Outcome (row m) tx g = inl (g.base, existing-no_creation m)
  after_find-Outcome no_rows tx g = after_resolve-Outcome _ _ (
      resolve_new-Good (low_user c) (high_user c) _ _
        (run_statement-Good select_conversation _ tx (λ db s. s) g))

  -- Whatever statements fail and whatever other transactions commit between them, as long as those
  -- keep the invariant and `R`: either what is committed still satisfies `R` and no creation is
  -- reported, or the command's message and its ready event are committed together, the sequences
  -- of every conversation are again without gap or repetition and no key is used twice, and the
  -- creation is reported unless the reply to the commit was lost.
  pub send-Outcome : (db : Database) → R db → IsConsistent db → Outcome w c R (send_valid w db c)
  unfolding send_valid
  send-Outcome db b s = elim (Bool-cases (w.fails begin)) [
    | inl e ↦ rw e (inl (stable begin db b, λ n q. cc))
    | inr e ↦ rw e (
        after_find-Outcome _ _ (
          run_statement-Good find _ _ (λ db s. s)
            (record { base = stable begin db b; view = consistent begin db s })))
  ]
