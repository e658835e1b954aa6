-- ===== src/Words.antt =====
-- Machine words as native numbers below a power of two, with what the C++ operators do to them, and
-- the laws of exclusive or that the libraries do not have.
use Prim.Native.Nat.{bit_xor, differ, digits, bit_xor-bitwise}
use cpp_base.Prelude.{
  subst, Bool-cases, inl, inr, ==_iff, ◌==◌, ℕ, zero, suc, ◌+◌, ◌-◌, ◌*◌, ◌/◌, ◌%◌, ◌^◌, ◌≤◌, ◌<◌,
  ◌≡◌, refl, arith, ap, ◌∙◌, sym,
}

-- `x >> k`
abbrev pub shr : ℕ → ℕ → ℕ
shr x k = x / 2 ^ k

-- `x << k` on words of w bits
abbrev pub shl : ℕ → ℕ → ℕ → ℕ
shl w x k = x * 2 ^ k % 2 ^ w

-- `x -= y` on words of w bits
abbrev pub sub : ℕ → ℕ → ℕ → ℕ
sub w x y = (x + (2 ^ w - y)) % 2 ^ w

xor_digits : ℕ → ℕ → ℕ → ℕ
xor_digits n a b = digits (λ d. d) differ n a b

one_more : (n a b : ℕ) → a ≤ n → xor_digits n a b ≡ xor_digits (suc n) a b
unfolding xor_digits
one_more zero zero b h = refl
one_more zero (suc a) b h = absurd (omega arith)
one_more (suc n) zero b h = refl
one_more (suc n) (suc a) b h =
    ap (λ d. d * 2 + differ (suc a % 2) (b % 2)) (one_more n (suc a / 2) (b / 2) (omega arith))

stable : (n a b : ℕ) → a ≤ n → xor_digits n a b ≡ xor_digits a a b
stable zero a b h = ap (λ m. xor_digits m a b) {x = 0} {y = a} (omega arith)
stable (suc n) a b h = elim (Bool-cases (suc n == a)) [
  | inl e ↦ ap (λ m. xor_digits m a b) ((==_iff (suc n) a).0 e)
  | inr e ↦ sym (one_more n a b (ground arith)) ∙ stable n a b (ground arith)
]

enough_digits : (n a b : ℕ) → a ≤ n → xor_digits n a b ≡ bit_xor a b
unfolding xor_digits
enough_digits n a b h = stable n a b h ∙ sym (λ i. bit_xor-bitwise a b i)

zero-bit_xor : (b : ℕ) → bit_xor 0 b ≡ b
zero-bit_xor b = λ i. bit_xor-bitwise 0 b i

pub bit_xor_law : (a b : ℕ) → bit_xor a b ≡ bit_xor (a / 2) (b / 2) * 2 + differ (a % 2) (b % 2)
unfolding xor_digits
bit_xor_law zero b = omega (arith, zero-bit_xor b, zero-bit_xor (b / 2))
bit_xor_law (suc a) b =
    sym (enough_digits (suc a) (suc a) b (omega arith))
    ∙ ap (λ d. d * 2 + differ (suc a % 2) (b % 2))
        (enough_digits a (suc a / 2) (b / 2) (omega arith))

differ-lt : (x y : ℕ) → x < 2 → y < 2 → differ x y < 2
differ-lt zero y h k = k
differ-lt (suc zero) zero h k = omega arith
differ-lt (suc zero) (suc y) h k = omega arith
differ-lt (suc (suc x)) y h k = absurd (omega arith)

differ_twice : (x y : ℕ) → x < 2 → y < 2 → differ (differ x y) y ≡ x
differ_twice zero zero h k = refl
differ_twice zero (suc zero) h k = refl
differ_twice (suc zero) zero h k = refl
differ_twice (suc zero) (suc zero) h k = refl
differ_twice zero (suc (suc y)) h k = absurd (omega arith)
differ_twice (suc zero) (suc (suc y)) h k = absurd (omega arith)
differ_twice (suc (suc x)) y h k = absurd (omega arith)

bit_xor_twice_from : (n a b : ℕ) → a ≤ n → b ≤ n → bit_xor (bit_xor a b) b ≡ a
bit_xor_twice_from zero a b h k =
    ap (λ m. bit_xor (bit_xor m b) b) {x = a} {y = 0} (omega arith)
    ∙ ap (λ m. bit_xor (bit_xor 0 m) m) {x = b} {y = 0} (omega arith)
    ∙ omega arith
bit_xor_twice_from (suc n) a b h k =
    let x = bit_xor (a / 2) (b / 2) in
    let d = differ (a % 2) (b % 2) in
    let below = differ-lt (a % 2) (b % 2) (omega arith) (omega arith) in
    let law = bit_xor_law a b in
    let half = ap (λ m. bit_xor m (b / 2)) {x = bit_xor a b / 2} {y = x} (omega arith) in
    let rest = ap (λ m. differ m (b % 2)) {x = bit_xor a b % 2} {y = d} (omega arith) in
    omega (
      arith,
      bit_xor_law (bit_xor a b) b,
      half,
      rest,
      bit_xor_twice_from n (a / 2) (b / 2) (omega arith) (omega arith),
      differ_twice (a % 2) (b % 2) (omega arith) (omega arith),
    )

-- Exclusive or with the same number twice changes nothing.
pub bit_xor_twice : (a b : ℕ) → bit_xor (bit_xor a b) b ≡ a
bit_xor_twice a b = bit_xor_twice_from (a + b) a b (omega arith) (omega arith)

-- Exclusive or stays within a word.
pub bit_xor-lt : (k a b : ℕ) → a < 2 ^ k → b < 2 ^ k → bit_xor a b < 2 ^ k
bit_xor-lt zero a b h j =
    subst (λ m. bit_xor m b < 1) {x = 0} {y = a} (omega arith)
      (subst (λ m. bit_xor 0 m < 1) {x = 0} {y = b} (omega arith) (omega arith))
bit_xor-lt (suc k) a b h j = omega (
  arith,
  bit_xor_law a b,
  bit_xor-lt k (a / 2) (b / 2) (omega arith) (omega arith),
  differ-lt (a % 2) (b % 2) (omega arith) (omega arith),
)
