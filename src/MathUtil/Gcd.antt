-- ===== src/MathUtil/Gcd.antt =====
-- The loop of GCD in util/math_util.h ends with the greatest common divisor.
use mathlib.Core.WellFounded.{Acc}
use native.Mathlib.Decide.{dec_lt}
use Prim.Native.Nat.{◌∣◌}
use native.Mathlib.Nat.{dvd_refl, dvd-zero, dvd-mod_iff, mod-lt, dvd_antisymm}
use cpp_base.Prelude.{ℕ, ◌%◌, ◌<◌, ◌≡◌, ◌↔◌, sym, subst, arith, dite_holds, less_wf}
use cpp_base.MathUtil.{gcd_loop, gcd}

-- Every common divisor of the two numbers, and no other number, divides the result.
gcd_loop-dvd : (d x y : ℕ) (w : Acc ◌<◌ y) → (d ∣ gcd_loop x y w) ↔ ((d ∣ x) × (d ∣ y))
unfolding gcd_loop
gcd_loop-dvd d x y (Acc.intro _ smaller) =
    dite_holds (dec_lt 0 y) (λ g. (d ∣ g) ↔ ((d ∣ x) × (d ∣ y)))
      (λ positive.
        let rest = gcd_loop-dvd d y (x % y) (smaller _ (mod-lt x positive)) in
        (
          λ h. let both = rest.0 h in ((dvd-mod_iff d {m = x} {n = y} both.0).0 both.1, both.0),
          λ h. rest.1 (h.1, (dvd-mod_iff d {m = x} {n = y} h.1).1 h.0),
        ))
      (λ none_left.
        let zero_is : y ≡ 0 = omega arith in
        (λ h. (h, subst (λ m. d ∣ m) (sym zero_is) (dvd-zero d)), λ h. h.0))

pub gcd-dvd : (d x y : ℕ) → (d ∣ gcd x y) ↔ ((d ∣ x) × (d ∣ y))
unfolding gcd
gcd-dvd d x y = gcd_loop-dvd d x y (less_wf y)

pub gcd-divides : (x y : ℕ) → (gcd x y ∣ x) × (gcd x y ∣ y)
gcd-divides x y = (gcd-dvd (gcd x y) x y).0 (dvd_refl (gcd x y))

gcd-dvd-gcd : (x y : ℕ) → gcd x y ∣ gcd y x
gcd-dvd-gcd x y = let both = gcd-divides x y in (gcd-dvd (gcd x y) y x).1 (both.1, both.0)

-- GCD ends on all numbers, with their greatest common divisor: a number divides the result just where
-- it divides both, and the order of the two does not matter.
pub gcd_lem : (x y : ℕ) → ((d : ℕ) → (d ∣ gcd x y) ↔ ((d ∣ x) × (d ∣ y))) × (gcd x y ≡ gcd y x)
gcd_lem x y = ((λ d. gcd-dvd d x y), dvd_antisymm (gcd-dvd-gcd x y) (gcd-dvd-gcd y x))
