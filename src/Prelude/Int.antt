-- ===== src/Prelude/Int.antt =====
-- Signed integers over the native numbers: what a request or a stored text may carry before the
-- code has tested its sign.
use Prim.Native.Nat.{ℕ, zero, suc}
use mathlib.Core.Option.{Option, none, some}

-- `negsuc n` is -(n + 1).
pub data ℤ : Type 0 where
  pos : ℕ → ℤ
  negsuc : ℕ → ℤ

-- The value behind a passed guard `x > 0`.
abbrev pub positive : ℤ → Option ℕ
positive (pos zero) = none
positive (pos (suc n)) = some (suc n)
positive (negsuc n) = none

-- The value behind a passed guard `x >= 0`.
abbrev pub natural : ℤ → Option ℕ
natural (pos n) = some n
natural (negsuc n) = none
