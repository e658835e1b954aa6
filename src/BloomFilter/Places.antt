-- ===== src/BloomFilter/Places.antt =====
-- The bits of the places of a key (data-struct/bloom-filter/bloom_filter.cc) as they are set.
use cpp_base.Prelude.{
  set-le, ℕ, zero, suc, ◌*◌, ◌/◌, ◌%◌, ◌<◌, ◌≡◌, refl, arith, ap, ◌∙◌, sym, Bool, true, ◌&&◌, List,
  [], ◌∷◌, length, length-set, get_or, get_or-set_self, get_or-set_ne, set, ◌==◌, ==_iff,
  Bool-cases, inl, inr,
}
use cpp_base.Hash.{hash64_num_with_seed}
use cpp_base.BloomFilter.{set_bit, has_bit}
use cpp_base.BloomFilter.Bits.{has_bit-set_bit, set_bit-lt, set_bit_same, set_bit_keeps}

-- An array of bytes of the given number of bits.
pub record AreBits (bits : ℕ) (bytes : List ℕ) : Type 0 where
  pub some_bit : 0 < bits
  pub whole : length bytes * 8 ≡ bits
  pub small : (i : ℕ) → get_or bytes i 0 < 256

abbrev pub bit_at : List ℕ → ℕ → Bool
bit_at bytes i = has_bit (get_or bytes (i / 8) 0) (i % 8)

abbrev pub write : List ℕ → ℕ → List ℕ
write bytes i = set bytes (i / 8) (set_bit (get_or bytes (i / 8) 0) (i % 8))

abbrev pub place : ℕ → ℕ → ℕ → ℕ
place bits key seed = hash64_num_with_seed key seed % bits

-- The bytes after the loop of Insert, and what the loop of Contains finds.
unfoldable pub written : ℕ → ℕ → List ℕ → List ℕ → List ℕ
written bits key bytes [] = bytes
written bits key bytes (seed ∷ seeds) = written bits key (write bytes (place bits key seed)) seeds

unfoldable pub held : ℕ → ℕ → List ℕ → List ℕ → Bool
held bits key bytes [] = true
held bits key bytes (seed ∷ seeds) = bit_at bytes (place bits key seed) && held bits key bytes seeds

set_get : (xs : List ℕ) (i : ℕ) → set xs i (get_or xs i 0) ≡ xs
set_get [] i = refl
set_get (x ∷ xs) zero = refl
set_get (x ∷ xs) (suc i) = ap (◌∷◌ x) (set_get xs i)

pub write_same :
    (bits i : ℕ) (bytes : List ℕ)
    → AreBits bits bytes
    → bit_at bytes i ≡ true
    → write bytes i ≡ bytes
write_same bits i bytes h e =
    let byte = get_or bytes (i / 8) 0 in
    let same =
      (==_iff byte (set_bit byte (i % 8))).0
        (set_bit_same byte (i % 8) (h.small (i / 8)) (omega arith) ∙ e) in
    ap (set bytes (i / 8)) (sym same) ∙ set_get bytes (i / 8)

write_self :
    (bits i : ℕ) (bytes : List ℕ) → AreBits bits bytes → i < bits → bit_at (write bytes i) i ≡ true
write_self bits i bytes h k =
    let byte = get_or bytes (i / 8) 0 in
    ap (λ b. has_bit b (i % 8)) (get_or-set_self bytes (i / 8) _ 0 (omega (arith, h.whole)))
    ∙ has_bit-set_bit byte (i % 8) (h.small (i / 8)) (omega arith)

write_keeps :
    (bits i j : ℕ) (bytes : List ℕ)
    → AreBits bits bytes
    → i < bits
    → bit_at bytes j ≡ true
    → bit_at (write bytes i) j ≡ true
write_keeps bits i j bytes h k e = elim (Bool-cases (i / 8 == j / 8)) [
  | inl f ↦
      let byte = get_or bytes (i / 8) 0 in
      let eq = (==_iff (i / 8) (j / 8)).0 f in
      ap (λ q. has_bit (get_or (write bytes i) q 0) (j % 8)) (sym eq)
      ∙ ap (λ b. has_bit b (j % 8)) (get_or-set_self bytes (i / 8) _ 0 (omega (arith, h.whole)))
      ∙ set_bit_keeps byte (i % 8) (j % 8) (h.small (i / 8)) (omega arith) (omega arith)
          (ap (λ q. has_bit (get_or bytes q 0) (j % 8)) eq ∙ e)
  | inr f ↦ ap (λ b. has_bit b (j % 8)) (get_or-set_ne bytes (i / 8) (j / 8) _ 0 (ground arith)) ∙ e
]

below_256 :
    (xs : List ℕ) (i j v : ℕ)
    → v < 256
    → ((k : ℕ) → get_or xs k 0 < 256)
    → get_or (set xs i v) j 0 < 256
below_256 xs i j v h k = omega (arith, set-le 255 xs i j v (omega arith) (λ m. omega (arith, k m)))

pub write-AreBits :
    (bits i : ℕ) (bytes : List ℕ) → AreBits bits bytes → i < bits → AreBits bits (write bytes i)
write-AreBits bits i bytes h k = record {
  some_bit = h.some_bit;
  whole =
      omega (arith, h.whole, length-set bytes (i / 8) (set_bit (get_or bytes (i / 8) 0) (i % 8)));
  small = λ j.
      below_256 bytes (i / 8) j (set_bit (get_or bytes (i / 8) 0) (i % 8))
        (set_bit-lt _ (i % 8) (h.small (i / 8)) (omega arith)) h.small;
}

pub place-lt : (bits key seed : ℕ) → 0 < bits → place bits key seed < bits
place-lt bits key seed h = grind arith

bit_at-written :
    (bits key j : ℕ) (bytes seeds : List ℕ)
    → AreBits bits bytes
    → bit_at bytes j ≡ true
    → bit_at (written bits key bytes seeds) j ≡ true
unfolding written
bit_at-written bits key j bytes [] h e = e
bit_at-written bits key j bytes (seed ∷ seeds) h e =
    let i = place bits key seed in
    let inside = place-lt bits key seed h.some_bit in
    bit_at-written bits key j (write bytes i) seeds (write-AreBits bits i bytes h inside)
      (write_keeps bits i j bytes h inside e)

pub written-AreBits :
    (bits key : ℕ) (bytes seeds : List ℕ)
    → AreBits bits bytes
    → AreBits bits (written bits key bytes seeds)
unfolding written
written-AreBits bits key bytes [] h = h
written-AreBits bits key bytes (seed ∷ seeds) h =
    written-AreBits bits key (write bytes (place bits key seed)) seeds
      (write-AreBits bits (place bits key seed) bytes h (place-lt bits key seed h.some_bit))

-- What is found stays found, whatever is inserted.
pub held-written_other :
    (bits key other : ℕ) (bytes seeds found : List ℕ)
    → AreBits bits bytes
    → held bits other bytes found ≡ true
    → held bits other (written bits key bytes seeds) found ≡ true
unfolding held
held-written_other bits key other bytes seeds [] h e = refl
held-written_other bits key other bytes seeds (seed ∷ found) h e = ground (
  arith,
  bit_at-written bits key (place bits other seed) bytes seeds h,
  held-written_other bits key other bytes seeds found h,
)

pub held-written_self :
    (bits key : ℕ) (bytes seeds : List ℕ)
    → AreBits bits bytes
    → held bits key (written bits key bytes seeds) seeds ≡ true
unfolding held written
held-written_self bits key bytes [] h = refl
held-written_self bits key bytes (seed ∷ seeds) h =
    let i = place bits key seed in
    let inside = place-lt bits key seed h.some_bit in
    let next = write-AreBits bits i bytes h inside in
    ground (
      arith,
      bit_at-written bits key i (write bytes i) seeds next (write_self bits i bytes h inside),
      held-written_self bits key (write bytes i) seeds next,
    )
