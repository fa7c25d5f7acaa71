-- ===== src/Common/Int.antt =====
-- C `int` values that the code lets go below zero, over the native numbers. Overflow of `int` is
-- not modelled: the code counts neighbours, hops and packets.
use Prim.Native.Nat.{ℕ, zero, suc}

-- `negsuc n` is -(n + 1).
pub data ℤ : Type 0 where
  pos : ℕ → ℤ
  negsuc : ℕ → ℤ

-- `n - 1`.
abbrev pub pred_ℤ : ℤ → ℤ
pred_ℤ (pos n) = elim n [ zero ↦ negsuc 0 | suc k ↦ pos k ]
pred_ℤ (negsuc n) = negsuc (suc n)
