-- ===== src/Packet/Allocation.antt =====
-- The slots that Create of internal/reliabilitylab/packet.go allocates.
use im_backend.Prelude.{
  err-ok, ok, ℕ, zero, suc, ◌+◌, ◌*◌, ◌/◌, ◌%◌, min, ◌≤◌, ◌<◌, ◌≡◌, refl, ap, List, [], ◌∷◌, arith,
  ltb, length, any, ◌==◌, ◌||◌, false, ◌++◌, inl, inr, Bool-cases, All,
}
use native.Mathlib.Nat.{suc-mul, mod-lt, mul-zero}
use native.Mathlib.Omega.{div_any}
use im_backend.Message.{Text}
use im_backend.Outbox.Types.{served}
use im_backend.Messages.Store.{text_eq}
use im_backend.Packet.{Slot, slot_amount, new_slots, Tables, create, committed}

abbrev pub sum_amounts : List Slot → ℕ
sum_amounts [] = 0
sum_amounts (s ∷ rest) = s.amount + sum_amounts rest

sum-new_slots :
    (id : Text) (total shares n : ℕ)
    → sum_amounts (new_slots id total shares n) ≡ n * (total / shares) + min n (total % shares)
unfolding new_slots slot_amount
sum-new_slots id total shares zero = omega arith
sum-new_slots id total shares (suc n) =
    ground (arith, sum-new_slots id total shares n, suc-mul n (total / shares))

quotient_positive :
    (shares q r total : ℕ) → shares * q + r ≡ total → r < shares → shares ≤ total → 1 ≤ q
quotient_positive shares zero r total e lt le = absurd (omega (arith, mul-zero shares, e, lt, le))
quotient_positive shares (suc q) r total e lt le = omega arith

length-new_slots : (id : Text) (total shares n : ℕ) → length (new_slots id total shares n) ≡ n
unfolding new_slots
length-new_slots id total shares zero = refl
length-new_slots id total shares (suc n) = ap suc (length-new_slots id total shares n)

-- An amount is the whole quotient, or one more.
abbrev pub IsFair : ℕ → ℕ → Slot → Type 0
IsFair total shares s =
    (1 ≤ s.amount) × (total / shares ≤ s.amount) × (s.amount ≤ total / shares + 1)

new_slots-IsFair :
    (id : Text) (total shares n : ℕ)
    → 1 ≤ total / shares
    → All (IsFair total shares) (new_slots id total shares n)
unfolding new_slots slot_amount
new_slots-IsFair id total shares zero h = tt
new_slots-IsFair id total shares (suc n) h =
    ((ground arith, ground arith, ground arith), new_slots-IsFair id total shares n h)

-- A packet that is created has one slot for each share, their amounts add up to the total, and each
-- amount is positive and within one of every other.
pub create_allocates_total :
    (id : Text) (total shares : ℕ) (t : Tables)
    → (create served id total shares t).1 ≡ ok tt
    → (slots : List Slot) × ((create served id total shares t).0.slots ≡ slots ++ t.slots)
      × (length slots ≡ shares)
      × (sum_amounts slots ≡ total)
      × All (IsFair total shares) slots
unfolding create committed
create_allocates_total id total shares t h =
    elim (Bool-cases ((length id == 0) || ltb shares 1 || ltb 10000 shares || ltb total shares)) [
      | inl e ↦ absurd (err-ok _ tt (rw e at h))
      | inr e ↦ elim (Bool-cases (any (λ p. text_eq p.id id) t.packets)) [
        | inl f ↦ absurd (err-ok _ tt (rw (e, f) at h))
        | inr f ↦
            let pos = one_share e in
            let enough = funded e in
            let whole = div_any total shares in
            let rest = mod-lt total {m = shares} (omega (arith, pos)) in
            (
              new_slots id total shares shares,
              rw (e, f) refl,
              length-new_slots id total shares shares,
              omega (arith, sum-new_slots id total shares shares, whole, rest),
              new_slots-IsFair id total shares shares (
                  quotient_positive shares (total / shares) (total % shares) total whole rest
                    enough),
            )
      ]
    ]
  where
    one_share :
        ((length id == 0) || ltb shares 1 || ltb 10000 shares || ltb total shares) ≡ false
        → 1 ≤ shares
    one_share e = ground arith

    funded :
        ((length id == 0) || ltb shares 1 || ltb 10000 shares || ltb total shares) ≡ false
        → shares ≤ total
    funded e = ground arith
