-- ===== src/MathUtil/Lcm.antt =====
-- LeastCommonMultiple of util/math_util.h.
use native.Mathlib.Nat.{mul-le-mul_right, dvd_refl, div-mul_cancel, dvd_antisymm}
use cpp_base.Prelude.{
  ℕ, ◌*◌, ◌/◌, ◌%◌, ◌^◌, ◌<◌, ◌≡◌, ap, sym, ◌∙◌, arith, ltb, Bool-cases, ltb→lt, inl, inr,
}
use cpp_base.MathUtil.{gcd, least_common_multiple}
use cpp_base.MathUtil.Gcd.{gcd-dvd, gcd-divides, gcd_lem}

gcd_same : (a : ℕ) → gcd a a ≡ a
gcd_same a = dvd_antisymm (gcd-divides a a).0 ((gcd-dvd a a a).1 (dvd_refl a, dvd_refl a))

exchange : (q b g : ℕ) → q * b * g ≡ q * g * b
exchange q b g = grind arith

swap : (q b g a : ℕ) → q * g ≡ a → q * b * g ≡ a * b
swap q b g a e = exchange q b g ∙ ap (λ m. m * b) e

fits : (x g n : ℕ) → x * g ≡ n → n < 2 ^ 32 * g → x < 2 ^ 32
fits x g n e h = elim (Bool-cases (ltb x (2 ^ 32))) [
  | inl f ↦ ltb→lt _ _ f
  | inr f ↦
      absurd (omega (arith, h, e, mul-le-mul_right {m = 2 ^ 32} {n = x} g (ground (arith, f))))
]

-- One branch: the quotient by the greatest common divisor, times the other number.
quotient_times : (a b : ℕ) → a * b < 2 ^ 32 * gcd a b → a / gcd a b * b % 2 ^ 32 * gcd a b ≡ a * b
quotient_times a b h =
    let product = swap (a / gcd a b) b (gcd a b) a (div-mul_cancel (gcd a b) (gcd-divides a b).0) in
    let small = fits (a / gcd a b * b) (gcd a b) (a * b) product h in
    let same : a / gcd a b * b % 2 ^ 32 ≡ a / gcd a b * b = omega arith in
    ap (λ m. m * gcd a b) same ∙ product

-- Where the quotient of the product by the greatest common divisor fits 32 bits, it is what
-- LeastCommonMultiple returns: the result times that divisor is the product.
pub lcm_lem : (a b : ℕ) → a * b < 2 ^ 32 * gcd a b → least_common_multiple a b * gcd a b ≡ a * b
unfolding least_common_multiple
lcm_lem a b h = elim (Bool-cases (ltb b a)) [
  | inl f ↦ rw f (quotient_times a b h)
  | inr f ↦ elim (Bool-cases (ltb a b)) [
    | inl g ↦
        let turned = (gcd_lem a b).1 in
        rw (f, g)
          (ap (◌*◌ (b / gcd b a * a % 2 ^ 32)) turned
            ∙ quotient_times b a (grind (arith, h, turned))
            ∙ grind arith)
    | inr g ↦
        let same : a ≡ b = ground (arith, f, g) in
        rw (f, g) (ap (λ m. a * gcd a m) (sym same) ∙ ap (◌*◌ a) (gcd_same a ∙ same))
  ]
]
