-- ===== src/MathUtil.antt =====
-- GCD, GCD64 and LeastCommonMultiple of util/math_util.h. `unsigned int` has 32 bits; the DCHECKs are on.
pub mod Gcd
pub mod Lcm
mod Tests
use mathlib.Core.WellFounded.{Acc}
use mathlib.Core.Logic.{dite}
use native.Mathlib.Decide.{dec_lt}
use native.Mathlib.Nat.{mod-lt}
use cpp_base.Prelude.{
  ℕ, zero, suc, ◌*◌, ◌/◌, ◌%◌, ◌^◌, ◌<◌, arith, true, false, ltb, if◌then◌else◌, Outcome, ok, fatal,
  ◌>>=◌, ℤ, pos, negsuc, less_wf,
}

-- The loop: `r = x % y; x = y; y = r` while y is not 0, which makes y smaller.
unfoldable pub gcd_loop : ℕ → (y : ℕ) → Acc ◌<◌ y → ℕ
gcd_loop x y (Acc.intro _ smaller) =
    dite (dec_lt 0 y) (λ positive. gcd_loop y (x % y) (smaller _ (mod-lt x positive))) (λ _. x)

unfoldable pub gcd : ℕ → ℕ → ℕ
unfolding gcd_loop less_wf
gcd x y = gcd_loop x y (less_wf y)

unfoldable pub gcd64 : ℤ → ℤ → Outcome ℕ
unfolding gcd
gcd64 (pos x) (pos y) = ok (gcd x y)
gcd64 (pos x) (negsuc y) = fatal
gcd64 (negsuc x) y = fatal

unfoldable pub least_common_multiple : ℕ → ℕ → ℕ
unfolding gcd
least_common_multiple a b =
    if ltb b a then a / gcd a b * b % 2 ^ 32 else if ltb a b then b / gcd b a * a % 2 ^ 32 else a
