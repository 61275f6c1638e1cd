-- ===== src/Prelude/Int.antt =====
-- Whole numbers, as far as the program compares them.
use Prim.Native.Nat.{ℕ}
use mathlib.Core.Bool.{Bool, false}
use vrclog_companion.Prelude.Tests.{◌==◌, leb, ltb}

-- `negsuc n` is -(n + 1).
pub data ℤ : Type 0 where
  pos : ℕ → ℤ
  negsuc : ℕ → ℤ

-- `n <= x`, for a literal n.
abbrev pub at_least : ℕ → ℤ → Bool
at_least n (pos x) = leb n x
at_least n (negsuc x) = false

-- `x > n`, for a literal n.
abbrev pub above : ℕ → ℤ → Bool
above n (pos x) = ltb n x
above n (negsuc x) = false

abbrev pub int_eq : ℤ → ℤ → Bool
int_eq (pos a) (pos b) = a == b
int_eq (negsuc a) (negsuc b) = a == b
int_eq (pos a) (negsuc b) = false
int_eq (negsuc a) (pos b) = false
