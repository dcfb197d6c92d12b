-- ===== src/Fence/Superseded.antt =====
-- The tokens of internal/reliabilitylab/fence.go only grow, so an owner that was superseded stays out.
use im_backend.Prelude.{
  err, ℕ, ◌≤◌, ◌<◌, ◌≡◌, refl, sym, ap, subst, inl, inr, false, ◌&&◌, not, List, [], ◌∷◌, Option,
  none, some, arith, leb, ◌==◌, Bool-cases, any,
}
use im_backend.Message.{Text}
use im_backend.Outbox.Types.{Reply, served, refused, lost}
use im_backend.Messages.Store.{text_eq}
use im_backend.Fence.{
  Lease, Tables, stale_owner, upsert_lease, acquired, acquire_fence, holds_lease, is_writable,
  current_token, commit_write, written, write_as, write_fenced,
}

abbrev or_zero : Option ℕ → ℕ
or_zero none = 0
or_zero (some n) = n

-- The token of a resource; 0 before the first lease.
abbrev pub token_of : Text → List Lease → ℕ
token_of name leases = or_zero (current_token name leases)

upsert_lease-le :
    (name : Text) (until now : ℕ) (other : Text) (leases : List Lease)
    → token_of other leases ≤ token_of other (upsert_lease name until now leases).0
unfolding upsert_lease current_token
upsert_lease-le name until now other [] = omega arith
upsert_lease-le name until now other (l ∷ rest) = elim (Bool-cases (text_eq l.name name)) [
  | inl e ↦ rw e (elim (Bool-cases (leb l.until now)) [
    | inl f ↦ rw f (elim (Bool-cases (text_eq l.name other)) [
      | inl g ↦ rw g (omega arith)
      | inr g ↦ rw g (omega arith)
    ])
    | inr f ↦ rw f (omega arith)
  ])
  | inr e ↦ rw e (elim (Bool-cases (text_eq l.name other)) [
    | inl g ↦ rw g (omega arith)
    | inr g ↦ rw g (upsert_lease-le name until now other rest)
  ])
]

-- The calls of the owners, each with the fate of its transaction.
pub data Call : Type 0 where
  acquire : Reply → Text → ℕ → ℕ → Call
  write : Reply → Text → ℕ → Text → ℕ → Call

abbrev pub call : Call → Tables → Tables
call (acquire reply name lease now) t = (acquire_fence reply name lease now t).0
call (write reply name token value now) t = (write_fenced reply name token value now t).0

abbrev pub calls : List Call → Tables → Tables
calls [] t = t
calls (c ∷ rest) t = calls rest (call c t)

acquired-le :
    (reply : Reply) (t : Tables) (name other : Text) (until now : ℕ) (r : List Lease × Option ℕ)
    → r ≡ upsert_lease name until now t.leases
    → token_of other t.leases ≤ token_of other (acquired reply t r).0.leases
unfolding acquired
acquired-le refused t name other until now r e = omega arith
acquired-le served t name other until now (leases, none) e = omega arith
acquired-le served t name other until now (leases, some token) e =
    subst (λ ls. token_of other t.leases ≤ token_of other ls) (sym (ap (λ p. p.0) e))
      (upsert_lease-le name until now other t.leases)
acquired-le lost t name other until now (leases, none) e = omega arith
acquired-le lost t name other until now (leases, some token) e =
    subst (λ ls. token_of other t.leases ≤ token_of other ls) (sym (ap (λ p. p.0) e))
      (upsert_lease-le name until now other t.leases)

commit_write-leases :
    (reply : Reply) (t : Tables) (name value : Text) (token : ℕ)
    → (commit_write reply t (written name token value t)).0.leases ≡ t.leases
unfolding commit_write written
commit_write-leases served t name value token = refl
commit_write-leases refused t name value token = refl
commit_write-leases lost t name value token = refl

write_as-leases :
    (reply : Reply) (name value : Text) (token now : ℕ) (current : Option ℕ) (t : Tables)
    → (write_as reply name token value now current t).0.leases ≡ t.leases
unfolding write_as
write_as-leases reply name value token now none t = refl
write_as-leases reply name value token now (some current) t = elim (Bool-cases (current == token)) [
  | inr e ↦ rw e refl
  | inl e ↦
      rw e
        (elim (Bool-cases
          (not (holds_lease name token now t && any (is_writable name token) t.resources))) [
            | inl f ↦ rw f refl
            | inr f ↦ rw f (commit_write-leases reply t name value token)
          ])
]

call-le :
    (c : Call) (t : Tables) (other : Text)
    → token_of other t.leases ≤ token_of other (call c t).leases
unfolding acquire_fence write_fenced
call-le (acquire reply name lease now) t other = elim (Bool-cases (lease == 0)) [
  | inl e ↦ rw (e, call) (omega arith)
  | inr e ↦ rw (e, call) (acquired-le reply t name other _ now _ refl)
]
call-le (write reply name token value now) t other =
    rw (write_as-leases reply name value token now (current_token name t.leases) t, call)
      (omega arith)

calls-le :
    (cs : List Call) (t : Tables) (other : Text)
    → token_of other t.leases ≤ token_of other (calls cs t).leases
calls-le [] t other = omega arith
calls-le (c ∷ cs) t other = omega (arith, call-le c t other, calls-le cs (call c t) other)

write_as-stale :
    (reply : Reply) (name value : Text) (token now : ℕ) (current : Option ℕ) (t : Tables)
    → token < or_zero current
    → write_as reply name token value now current t ≡ (t, err stale_owner)
unfolding write_as
write_as-stale reply name value token now none t h = refl
write_as-stale reply name value token now (some current) t h = rw (other) refl
  where
    other : (current == token) ≡ false
    other = ground arith

-- Once a resource has been leased under a later token, a write with the earlier one is refused and
-- changes nothing, whatever calls of whatever owners come in between and whatever their fates.
pub superseded_owner_is_refused :
    (name value : Text) (token now : ℕ) (reply : Reply) (cs : List Call) (t : Tables)
    → token < token_of name t.leases
    → write_fenced reply name token value now (calls cs t) ≡ (calls cs t, err stale_owner)
unfolding write_fenced
superseded_owner_is_refused name value token now reply cs t h =
    write_as-stale reply name value token now (current_token name (calls cs t).leases) (calls cs t)
      (omega (arith, h, calls-le cs t name))
