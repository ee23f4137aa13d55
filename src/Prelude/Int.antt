-- ===== src/Prelude/Int.antt =====
-- Go's int64 where the source only compares it: `negsuc n` is -(n + 1).
use Prim.Native.Nat.{ℕ}
use mathlib.Core.Bool.{Bool, true, false}
use effexor_win_doctor.Prelude.Tests.{eqb}

pub data ℤ : Type 0 where
  pos : ℕ → ℤ
  negsuc : ℕ → ℤ

abbrev pub is_negative : ℤ → Bool
is_negative (pos n) = false
is_negative (negsuc n) = true

abbrev pub int_eq : ℤ → ℤ → Bool
int_eq (pos m) (pos n) = eqb m n
int_eq (pos m) (negsuc n) = false
int_eq (negsuc m) (pos n) = false
int_eq (negsuc m) (negsuc n) = eqb m n
