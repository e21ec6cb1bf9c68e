-- ===== src/Prelude/Int.antt =====
-- Signed integers over the native numbers, with Boolean comparisons. `negsuc n` is -(n + 1).
use Prim.Native.Nat.{ℕ}
use mathlib.Core.Bool.{Bool, true, false}
use scriptor.Prelude.Tests.{ltb, leb, ◌==◌}

pub data ℤ : Type 0 where
  pos : ℕ → ℤ
  negsuc : ℕ → ℤ

abbrev pub leb_int : ℤ → ℤ → Bool
leb_int (pos a) (pos b) = leb a b
leb_int (pos a) (negsuc b) = false
leb_int (negsuc a) (pos b) = true
leb_int (negsuc a) (negsuc b) = leb b a

abbrev pub ltb_int : ℤ → ℤ → Bool
ltb_int (pos a) (pos b) = ltb a b
ltb_int (pos a) (negsuc b) = false
ltb_int (negsuc a) (pos b) = true
ltb_int (negsuc a) (negsuc b) = ltb b a

abbrev pub eqb_int : ℤ → ℤ → Bool
eqb_int (pos a) (pos b) = a == b
eqb_int (pos a) (negsuc b) = false
eqb_int (negsuc a) (pos b) = false
eqb_int (negsuc a) (negsuc b) = a == b
