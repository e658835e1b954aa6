-- ===== src/MathUtil/Tests.antt =====
-- Runs of GCD, and the theorems on it at inputs.
use Prim.Native.Nat.{◌∣◌}
use native.Mathlib.Decide.{dec_lt}
use cpp_base.Prelude.{ℕ, ◌≡◌, ◌↔◌, refl, pos, ok}
use cpp_base.MathUtil.{gcd, gcd64}
use cpp_base.MathUtil.Gcd.{gcd_lem}

gcd_run : gcd64 (pos 84) (pos 36) ≡ ok 12
unfolding gcd64 dec_lt
gcd_run = refl

gcd_lem_example : ((d : ℕ) → (d ∣ gcd 84 36) ↔ ((d ∣ 84) × (d ∣ 36))) × (gcd 84 36 ≡ gcd 36 84)
gcd_lem_example = gcd_lem 84 36
