-- ===== src/Numbers/Decimal.antt =====
-- Decimal numerals, which the printers of string/numbers.cc are compared with.
use mathlib.Core.Path.{ap₂}
use cpp_base.Prelude.{
  ℕ, zero, suc, ◌+◌, ◌*◌, ◌/◌, ◌%◌, ◌^◌, ◌<◌, ◌≤◌, ◌≡◌, refl, ap, ◌∙◌, sym, arith, [], ◌∷◌, ◌++◌,
  length, ltb, if◌then◌else◌, length-append, append_assoc, append-nil, ◌⊎◌, inl, inr, Bool-cases,
  ltb→lt, ℤ, pos, negsuc,
}
use cpp_base.Bytes.{Bytes}

-- The last `k` digits of a number, with leading zeros.
unfoldable pub padded : ℕ → ℕ → Bytes
padded zero v = []
padded (suc k) v = padded k (v / 10) ++ ((48 + v % 10) ∷ [])

-- How many digits a number has, which are `fuel` at most.
unfoldable pub width : ℕ → ℕ → ℕ
width zero v = 0
width (suc fuel) v = if ltb v 10 then 1 else suc (width fuel (v / 10))

-- The decimal numeral of a number below 10 ^ 20.
unfoldable pub decimal : ℕ → Bytes
decimal v = padded (width 20 v) v

unfoldable pub signed_decimal : ℤ → Bytes
signed_decimal (pos n) = decimal n
signed_decimal (negsuc n) = b'-' ∷ decimal (n + 1)

pub length-padded : (k v : ℕ) → length (padded k v) ≡ k
unfolding padded
length-padded zero v = refl
length-padded (suc k) v =
    omega (arith, length-append (padded k (v / 10)) ((48 + v % 10) ∷ []), length-padded k (v / 10))

pow_ten : (k : ℕ) → 10 ^ (suc k) ≡ 10 * 10 ^ k
pow_ten k = omega arith

ten_times : (a k : ℕ) → a * 10 ^ (suc k) ≡ 10 * (a * 10 ^ k)
ten_times a k = omega (arith, ap (◌*◌ a) (pow_ten k))

-- The upper digits stand in front of the lower ones.
pub padded_split :
    (j k a b : ℕ) → b < 10 ^ k → padded (k + j) (a * 10 ^ k + b) ≡ padded j a ++ padded k b
unfolding padded
padded_split j zero a b h =
    ap₂ padded {x = 0 + j} {y = j} {u = a * 10 ^ 0 + b} {v = a} (omega arith) (omega arith)
    ∙ sym (append-nil (padded j a))
padded_split j (suc k) a b h =
    let whole = ten_times a k in
    let last : (a * 10 ^ suc k + b) % 10 ≡ b % 10 = omega (arith, whole) in
    let upper : (a * 10 ^ suc k + b) / 10 ≡ a * 10 ^ k + b / 10 = omega (arith, whole) in
    ap (λ i. padded i (a * 10 ^ suc k + b)) {x = suc k + j} {y = suc (k + j)} (omega arith)
    ∙ ap₂ (λ x y. padded (k + j) x ++ ((48 + y) ∷ [])) upper last
    ∙ ap (λ t. t ++ ((48 + b % 10) ∷ [])) (padded_split j k a (b / 10) (omega (arith, pow_ten k)))
    ∙ append_assoc (padded j a) (padded k (b / 10)) ((48 + b % 10) ∷ [])

pub width_at :
    (fuel k v : ℕ) → k < fuel → (k ≡ 0) ⊎ (10 ^ k ≤ v) → v < 10 ^ suc k → width fuel v ≡ suc k
unfolding width
width_at zero k v h lo hi = absurd (omega arith)
width_at (suc fuel) zero v h lo hi = ground arith
width_at (suc fuel) (suc k) v h (inl e) hi = absurd (omega arith)
width_at (suc fuel) (suc k) v h (inr e) hi =
    let rest =
      width_at fuel k (v / 10) (omega arith) (inr (omega (arith, pow_ten k)))
        (omega (arith, pow_ten (suc k))) in
    ground (arith, pow_ten k, rest)

-- A number lies between two powers of ten.
digits_of :
    (n v : ℕ) → v < 10 ^ suc n → (k : ℕ) × (k ≤ n) × ((k ≡ 0) ⊎ (10 ^ k ≤ v)) × (v < 10 ^ suc k)
digits_of zero v h = (0, omega arith, inl refl, h)
digits_of (suc n) v h = elim (Bool-cases (ltb v (10 ^ suc n))) [
  | inl f ↦ let (k, l, lo, hi) = digits_of n v (ltb→lt _ _ f) in (k, omega arith, lo, hi)
  | inr f ↦ (suc n, omega arith, inr (ground arith), h)
]

pow_nine : (k : ℕ) → 10 ^ (9 + k) ≡ 10 ^ k * 1000000000
pow_nine zero = refl
pow_nine (suc k) = omega (
  arith,
  pow_nine k,
  pow_ten k,
  pow_ten (9 + k),
  ap (λ i. 10 ^ i) {x = 9 + suc k} {y = suc (9 + k)} (omega arith),
)

-- Nine more digits behind a number that is not 0.
nine_more :
    (u k : ℕ)
    → 1000000000 ≤ u
    → k ≤ 10
    → (k ≡ 0) ⊎ (10 ^ k ≤ u / 1000000000)
    → u / 1000000000 < 10 ^ suc k
    → decimal u ≡ decimal (u / 1000000000) ++ padded 9 (u % 1000000000)
unfolding decimal
nine_more u k lo l qlo qhi =
    let q = u / 1000000000 in
    let lower : 10 ^ (9 + k) ≤ u = elim qlo [
      | inl e ↦ rw e lo
      | inr le ↦ omega (arith, pow_nine k)
    ] in
    let upper : u < 10 ^ suc (9 + k) = omega (arith, pow_nine k, pow_ten k, pow_ten (9 + k)) in
    ap (λ w. padded w u) (width_at 20 (9 + k) u (omega arith) (inr lower) upper)
    ∙ ap₂ padded {x = suc (9 + k)} {y = 9 + suc k} {u = u} {v = q * 10 ^ 9 + u % 1000000000}
        (omega arith) (omega arith)
    ∙ padded_split (suc k) 9 q (u % 1000000000) (omega arith)
    ∙ ap (λ w. padded w q ++ padded 9 (u % 1000000000))
        (sym (width_at 20 k q (omega arith) qlo qhi))

pub decimal-padded :
    (u : ℕ)
    → 1000000000 ≤ u
    → u < 10 ^ 20
    → decimal u ≡ decimal (u / 1000000000) ++ padded 9 (u % 1000000000)
decimal-padded u lo hi =
    let (k, l, qlo, qhi) = digits_of 10 (u / 1000000000) (omega arith) in nine_more u k lo l qlo qhi

-- A numeral has at most 20 digits, and one of a word of 32 bits at most 10.
pub length-decimal : (n v : ℕ) → n < 20 → v < 10 ^ suc n → length (decimal v) ≤ suc n
unfolding decimal
length-decimal n v h e =
    let (k, l, lo, hi) = digits_of n v e in
    omega (arith, length-padded (width 20 v) v, width_at 20 k v (omega arith) lo hi)

-- A numeral is its number's digits, at least one.
pub decimal_shape :
    (v : ℕ) → v < 10 ^ 20 → (k : ℕ) × (decimal v ≡ padded (suc k) v) × (v < 10 ^ suc k)
unfolding decimal
decimal_shape v h =
    let (k, l, lo, hi) = digits_of 19 v h in
    (k, ap (λ w. padded w v) (width_at 20 k v (omega arith) lo hi), hi)
