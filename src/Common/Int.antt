-- ===== src/Common/Int.antt =====
-- Signed integers over the native numbers, for the arguments of the `Date` constructor.
use Prim.Native.Nat.{ℕ, suc}

pub data ℤ : Type 0 where
  pos : ℕ → ℤ
  negsuc : ℕ → ℤ

abbrev pub neg : ℕ → ℤ
neg n = elim n [ ℕ.zero ↦ pos 0 | suc k ↦ negsuc k ]
