-- ===== src/Hash/Mix.antt =====
-- The mixes of three words of hash/hash.h (`mix`), and how they are undone.
use Prim.Native.Nat.{bit_xor}
use cpp_base.Prelude.{
  zero, suc, Bool-cases, inl, inr, leb, ℕ, ◌+◌, ◌-◌, ◌*◌, ◌/◌, ◌%◌, ◌^◌, ◌<◌, ◌≤◌, ◌≡◌, arith, ap,
  ◌∙◌, sym,
}
use cpp_base.Words.{shr, shl, sub, bit_xor_twice, bit_xor-lt}
use cpp_base.Hash.{Triple, mix_round, mix32, mix64}

abbrev pub IsWord : ℕ → ℕ → Type 0
IsWord w x = x < 2 ^ w

abbrev pub AreWords : ℕ → Triple → Type 0
AreWords w t = IsWord w t.a × IsWord w t.b × IsWord w t.c

-- `x += y` on words of w bits.
add : ℕ → ℕ → ℕ → ℕ
add w x y = (x + y) % 2 ^ w

below_double : (m z : ℕ) → m ≤ z → z < 2 * m → z % m ≡ z - m
below_double m z h k = grind arith

small_mod : (m z : ℕ) → z < m → z % m ≡ z
small_mod m z h = grind arith

back : (m x y : ℕ) → x < m → y < m → ((x + (m - y)) % m + y) % m ≡ x
back m x y h k = elim (Bool-cases (leb m (x + (m - y)))) [
  | inl e ↦
      let large : m ≤ x + (m - y) = ground arith in
      let small = below_double m (x + (m - y)) large (omega arith) in
      let same : (x + (m - y)) % m + y ≡ x = omega (arith, small) in
      ap (λ z. z % m) same ∙ small_mod m x h
  | inr e ↦
      let small = small_mod m (x + (m - y)) (ground arith) in
      let more : (x + (m - y)) % m + y ≡ x + m = omega (arith, small) in
      ap (λ z. z % m) more ∙ below_double m (x + m) (omega arith) (omega arith) ∙ omega arith
]

mod-lt : (m x : ℕ) → 0 < m → x % m < m
mod-lt m x h = grind arith

pow_positive : (w : ℕ) → 0 < 2 ^ w
pow_positive zero = omega arith
pow_positive (suc w) = omega (arith, pow_positive w)

div-le : (x m : ℕ) → x / m ≤ x
div-le x m = grind arith

add-sub : (w x y : ℕ) → IsWord w x → IsWord w y → add w (sub w x y) y ≡ x
unfolding add
add-sub w x y h k = back (2 ^ w) x y h k

sub-IsWord : (w x y : ℕ) → IsWord w (sub w x y)
sub-IsWord w x y = mod-lt (2 ^ w) _ (pow_positive w)

shr-IsWord : (w x i : ℕ) → IsWord w x → IsWord w (shr x i)
shr-IsWord w x i h = omega (arith, div-le x (2 ^ i))

shl-IsWord : (w x i : ℕ) → IsWord w (shl w x i)
shl-IsWord w x i = mod-lt (2 ^ w) _ (pow_positive w)

-- One assignment of three words, and the way back.
mixed : ℕ → ℕ → ℕ → ℕ → ℕ → ℕ
mixed w x y z shift = bit_xor (sub w (sub w x y) z) shift

unmixed : ℕ → ℕ → ℕ → ℕ → ℕ → ℕ
unmixed w x y z shift = add w (add w (bit_xor x shift) z) y

mixed-IsWord : (w x y z shift : ℕ) → IsWord w shift → IsWord w (mixed w x y z shift)
unfolding mixed
mixed-IsWord w x y z shift h = bit_xor-lt w _ shift (sub-IsWord w _ z) h

unmixed-mixed :
    (w x y z shift : ℕ)
    → IsWord w x
    → IsWord w y
    → IsWord w z
    → unmixed w (mixed w x y z shift) y z shift ≡ x
unfolding mixed unmixed
unmixed-mixed w x y z shift h j k =
    ap (λ m. add w (add w m z) y) (bit_xor_twice (sub w (sub w x y) z) shift)
    ∙ ap (λ m. add w m y) (add-sub w (sub w x y) z (sub-IsWord w x y) k)
    ∙ add-sub w x y h j

mix_round-AreWords : (w i j k : ℕ) (t : Triple) → AreWords w t → AreWords w (mix_round w i j k t)
unfolding mix_round mixed
mix_round-AreWords w i j k t (p, q, r) =
    let a' = mixed w t.a t.b t.c (shr t.c i) in
    let b' = mixed w t.b t.c a' (shl w a' j) in
    let below = mixed-IsWord w t.b t.c a' (shl w a' j) (shl-IsWord w a' j) in
    (
      mixed-IsWord w t.a t.b t.c (shr t.c i) (shr-IsWord w t.c i r),
      below,
      mixed-IsWord w t.c a' b' (shr b' k) (shr-IsWord w b' k below),
    )

unmix_a : ℕ → ℕ → Triple → ℕ → ℕ → Triple
unmix_a w i t b c = record { a = unmixed w t.a b c (shr c i); b = b; c = c }

unmix_b : ℕ → ℕ → ℕ → Triple → ℕ → Triple
unfolding unmix_a
unmix_b w i j t c = unmix_a w i t (unmixed w t.b c t.a (shl w t.a j)) c

unmix_round : ℕ → ℕ → ℕ → ℕ → Triple → Triple
unfolding unmix_b
unmix_round w i j k t = unmix_b w i j t (unmixed w t.c t.a t.b (shr t.b k))

unmix-mix_round :
    (w i j k : ℕ) (t : Triple) → AreWords w t → unmix_round w i j k (mix_round w i j k t) ≡ t
unfolding unmix_round unmix_b unmix_a mix_round mixed
unmix-mix_round w i j k t (p, q, r) =
    let u = mix_round w i j k t in
    let words = mix_round-AreWords w i j k t (p, q, r) in
    ap (unmix_b w i j u) (unmixed-mixed w t.c u.a u.b (shr u.b k) r words.0 words.1)
    ∙ ap (λ b. unmix_a w i u b t.c) (unmixed-mixed w t.b t.c u.a (shl w u.a j) q r words.0)
    ∙ ap (λ (a : ℕ). record { a = a; b = t.b; c = t.c })
        (unmixed-mixed w t.a t.b t.c (shr t.c i) p q r)

mix_round-injective :
    (w i j k : ℕ) (t u : Triple)
    → AreWords w t
    → AreWords w u
    → mix_round w i j k t ≡ mix_round w i j k u
    → t ≡ u
mix_round-injective w i j k t u h h' e =
    sym (unmix-mix_round w i j k t h) ∙ ap (unmix_round w i j k) e ∙ unmix-mix_round w i j k u h'

-- A function on triples of words that gives words and tells them apart.
abbrev Lossless : ℕ → (Triple → Triple) → Type 0
Lossless w f =
    ((t : Triple) → AreWords w t → AreWords w (f t))
    × ((t u : Triple) → AreWords w t → AreWords w u → f t ≡ f u → t ≡ u)

mix_round-Lossless : (w i j k : ℕ) → Lossless w (mix_round w i j k)
mix_round-Lossless w i j k = (mix_round-AreWords w i j k, mix_round-injective w i j k)

then-Lossless :
    (w : ℕ) (f g : Triple → Triple) → Lossless w g → Lossless w f → Lossless w (λ t. g (f t))
then-Lossless w f g (gw, gi) (fw, fi) =
    (λ t h. gw (f t) (fw t h), λ t u h h' e. fi t u h h' (gi (f t) (f u) (fw t h) (fw u h') e))

mix64-Lossless : Lossless 64 mix64
unfolding mix64
mix64-Lossless =
    let first =
      then-Lossless 64 _ _ (mix_round-Lossless 64 38 23 5) (mix_round-Lossless 64 43 9 8) in
    let second = then-Lossless 64 _ _ (mix_round-Lossless 64 35 49 11) first in
    then-Lossless 64 _ _ (mix_round-Lossless 64 12 18 22) second

mix32-Lossless : Lossless 32 mix32
unfolding mix32
mix32-Lossless =
    let first =
      then-Lossless 32 _ _ (mix_round-Lossless 32 12 16 5) (mix_round-Lossless 32 13 8 13) in
    then-Lossless 32 _ _ (mix_round-Lossless 32 3 10 15) first

-- Whatever three words of 64 bits are mixed, the outcome tells which they were.
pub mix64-injective : (t u : Triple) → AreWords 64 t → AreWords 64 u → mix64 t ≡ mix64 u → t ≡ u
mix64-injective = mix64-Lossless.1

-- Whatever three words of 32 bits are mixed, the outcome tells which they were.
pub mix32-injective : (t u : Triple) → AreWords 32 t → AreWords 32 u → mix32 t ≡ mix32 u → t ≡ u
mix32-injective = mix32-Lossless.1
