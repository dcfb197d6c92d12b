-- ===== src/Outbox/Mark/Fencing.antt =====
-- A mark of outbox.go by a worker whose lease was taken over, and what is left of a lease after a
-- mark that ran.
use im_backend.Prelude.{
  ℕ, ◌≡◌, refl, ◌≢◌, inl, inr, Bool, false, List, [], ◌∷◌, none, some, arith, Bool-cases, keep, any,
}
use im_backend.Outbox.Types.{
  Row, OutboxEvent, OutboxWorkerConfig, PublishError, Reply, served, refused, lost, lease_lost,
}
use im_backend.Outbox.Mark.{
  owns, update_where, exec_update, set_published, set_dead, set_retry, mark_published, mark_failed,
  gives_up,
}

pub update_where-none :
    (test : Row → Bool) (change : Row → Row) (rows : List Row)
    → any test rows ≡ false
    → update_where test change rows ≡ rows
unfolding update_where
update_where-none test change [] h = refl
update_where-none test change (r ∷ rows) h = ground (arith, update_where-none test change rows)

keep-none : (test : Row → Bool) (rows : List Row) → any test rows ≡ false → keep test rows ≡ []
keep-none test [] h = refl
keep-none test (r ∷ rows) h = ground (arith, keep-none test rows)

exec_update-none :
    (test : Row → Bool) (change : Row → Row) (rows : List Row)
    → any test rows ≡ false
    → exec_update test change 1 served rows ≡ (rows, some lease_lost)
unfolding exec_update
exec_update-none test change rows h =
    rw (update_where-none test change rows h, keep-none test rows h) refl

-- A worker whose token no row carries any more changes nothing, and is told that its lease is lost,
-- whether it reports a success or a failure.
pub stale_mark_refused :
    (config : OutboxWorkerConfig) (jitter : ℕ → ℕ) (now : ℕ) (event : OutboxEvent)
    (error : PublishError) (rows : List Row)
    → any (owns event.event_id event.lock_token) rows ≡ false
    → (mark_published served now event rows ≡ (rows, some lease_lost))
      × (mark_failed config jitter served now event error rows ≡ (rows, some lease_lost))
unfolding mark_published mark_failed
stale_mark_refused config jitter now event error rows h = (
  exec_update-none _ _ rows h,
  elim (Bool-cases (gives_up config event error)) [
    | inl e ↦ rw e (exec_update-none _ _ rows h)
    | inr e ↦ rw e (exec_update-none _ _ rows h)
  ],
)

-- A change that takes the tokens away leaves no row that the test selects.
update_where-clears :
    (test : Row → Bool) (change : Row → Row) (rows : List Row)
    → ((r : Row) → test (change r) ≡ false)
    → any test (update_where test change rows) ≡ false
unfolding update_where
update_where-clears test change [] h = refl
update_where-clears test change (r ∷ rows) h = elim (Bool-cases (test r)) [
  | inl e ↦ rw (e, h r) (update_where-clears test change rows h)
  | inr e ↦ rw (e, e) (update_where-clears test change rows h)
]

exec_update-clears :
    (test : Row → Bool) (change : Row → Row) (wanted : ℕ) (reply : Reply) (rows : List Row)
    → reply ≢ refused
    → ((r : Row) → test (change r) ≡ false)
    → any test (exec_update test change wanted reply rows).0 ≡ false
unfolding exec_update
exec_update-clears test change wanted served rows h k = update_where-clears test change rows k
exec_update-clears test change wanted refused rows h k = absurd (h refl)
exec_update-clears test change wanted lost rows h k = update_where-clears test change rows k

pub owns-unlocked : (id token : ℕ) (r : Row) → r.lock_token ≡ none → owns id token r ≡ false
unfolding owns
owns-unlocked id token r h = ground arith

pub mark_failed-clears :
    (config : OutboxWorkerConfig) (jitter : ℕ → ℕ) (reply : Reply) (now : ℕ) (event : OutboxEvent)
    (error : PublishError) (rows : List Row)
    → reply ≢ refused
    → any
        (owns event.event_id event.lock_token)
        (mark_failed config jitter reply now event error rows).0
      ≡ false
unfolding mark_failed set_dead set_retry
mark_failed-clears config jitter reply now event error rows h =
    elim (Bool-cases (gives_up config event error)) [
      | inl e ↦ rw e (
          exec_update-clears _ _ 1 reply rows h
            (λ r. owns-unlocked event.event_id event.lock_token _ refl))
      | inr e ↦ rw e (
          exec_update-clears _ _ 1 reply rows h
            (λ r. owns-unlocked event.event_id event.lock_token _ refl))
    ]

pub mark_published-clears :
    (reply : Reply) (now : ℕ) (event : OutboxEvent) (rows : List Row)
    → reply ≢ refused
    → any (owns event.event_id event.lock_token) (mark_published reply now event rows).0 ≡ false
unfolding mark_published set_published
mark_published-clears reply now event rows h =
    exec_update-clears _ _ 1 reply rows h
      (λ r. owns-unlocked event.event_id event.lock_token _ refl)

-- A token is good for one mark: after a mark that ran, even if its result was lost, every further
-- mark with the token is refused and changes nothing.
pub token_is_spent :
    (config : OutboxWorkerConfig) (jitter : ℕ → ℕ) (reply : Reply) (now later : ℕ)
    (event : OutboxEvent) (error : PublishError) (rows : List Row)
    → reply ≢ refused
    → let first = (mark_published reply now event rows).0 in
      let second = (mark_failed config jitter reply now event error rows).0 in
      (mark_published served later event first ≡ (first, some lease_lost))
      × (mark_failed config jitter served later event error first ≡ (first, some lease_lost))
      × (mark_published served later event second ≡ (second, some lease_lost))
      × (mark_failed config jitter served later event error second ≡ (second, some lease_lost))
token_is_spent config jitter reply now later event error rows h =
    let a =
      stale_mark_refused config jitter later event error _
        (mark_published-clears reply now event rows h) in
    let b =
      stale_mark_refused config jitter later event error _
        (mark_failed-clears config jitter reply now event error rows h) in
    (a.0, a.1, b.0, b.1)
