-- ===== src/Prelude/Integers.antt =====
-- Signed integers over the native numbers, and `int64`.
use Prim.Native.Nat.{ℕ, suc, ◌+◌, ◌-◌, ◌^◌}
use mathlib.Core.Bool.{Bool}
use cpp_base.Prelude.Tests.{ltb, leb, if◌then◌else◌}
use cpp_base.Prelude.Outcomes.{Outcome, ok, undefined}

-- `negsuc n` is -(n + 1).
pub data ℤ : Type 0 where
  pos : ℕ → ℤ
  negsuc : ℕ → ℤ

infixl 65 ◌+ℤ◌
abbrev pub ◌+ℤ◌ : ℤ → ℤ → ℤ
pos a +ℤ pos b = pos (a + b)
pos a +ℤ negsuc b = if leb (suc b) a then pos (a - suc b) else negsuc (b - a)
negsuc a +ℤ pos b = if leb (suc a) b then pos (b - suc a) else negsuc (a - b)
negsuc a +ℤ negsuc b = negsuc (a + b + 1)

abbrev pub fits64 : ℤ → Bool
fits64 (pos n) = ltb n (2 ^ 63)
fits64 (negsuc n) = ltb n (2 ^ 63)

-- `int64` addition, undefined where it overflows.
abbrev pub add_int64 : ℤ → ℤ → Outcome ℤ
add_int64 a b = if fits64 (a +ℤ b) then ok (a +ℤ b) else undefined
