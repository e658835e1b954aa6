-- ===== src/BloomFilter/Bits.antt =====
-- The bits of a byte, as BloomFilter sets and tests them, by tables.
use cpp_base.Prelude.{
  if◌then◌else◌, ℕ, ◌+◌, ◌*◌, ◌/◌, ◌%◌, ◌<◌, ◌≡◌, refl, arith, ap, ◌∙◌, Bool, true, not, ◌&&◌, ◌||◌,
  ltb, ◌==◌, passes, passes_at,
}
use cpp_base.BloomFilter.{set_bit, has_bit}

-- Bit i is there after it is set, the byte stays one, and it has changed if the bit was not there.
sets : ℕ → ℕ → Bool
sets byte i =
    has_bit (set_bit byte i) i
    && ltb (set_bit byte i) 256
    && (if has_bit byte i then byte == set_bit byte i else not (byte == set_bit byte i))

-- Bit j stays.
keeps : ℕ → ℕ → ℕ → Bool
keeps byte i j = not (has_bit byte j) || has_bit (set_bit byte i) j

abbrev sets_at : ℕ → Bool
sets_at n = sets (n / 8) (n % 8)

abbrev keeps_at : ℕ → Bool
keeps_at n = keeps (n / 64) (n / 8 % 8) (n % 8)

sets_table : passes sets_at 2048 ≡ true
unfolding passes sets set_bit has_bit
sets_table = refl

keeps_table : passes keeps_at 16384 ≡ true
unfolding passes keeps set_bit has_bit
keeps_table = refl

sets_all : (byte i : ℕ) → byte < 256 → i < 8 → sets byte i ≡ true
sets_all byte i h k =
    ap (λ b. sets b i) {x = byte} {y = (byte * 8 + i) / 8} (omega arith)
    ∙ ap (sets ((byte * 8 + i) / 8)) {x = i} {y = (byte * 8 + i) % 8} (omega arith)
    ∙ passes_at sets_at 2048 sets_table (byte * 8 + i) (omega arith)

keeps_all : (byte i j : ℕ) → byte < 256 → i < 8 → j < 8 → keeps byte i j ≡ true
keeps_all byte i j h k l =
    let n = byte * 64 + i * 8 + j in
    ap (λ b. keeps b i j) {x = byte} {y = n / 64} (omega arith)
    ∙ ap (λ m. keeps (n / 64) m j) {x = i} {y = n / 8 % 8} (omega arith)
    ∙ ap (keeps (n / 64) (n / 8 % 8)) {x = j} {y = n % 8} (omega arith)
    ∙ passes_at keeps_at 16384 keeps_table n (omega arith)

pub has_bit-set_bit : (byte i : ℕ) → byte < 256 → i < 8 → has_bit (set_bit byte i) i ≡ true
unfolding sets
has_bit-set_bit byte i h k = ground (arith, sets_all byte i h k)

pub set_bit-lt : (byte i : ℕ) → byte < 256 → i < 8 → set_bit byte i < 256
unfolding sets
set_bit-lt byte i h k = ground (arith, sets_all byte i h k)

pub set_bit_same : (byte i : ℕ) → byte < 256 → i < 8 → (byte == set_bit byte i) ≡ has_bit byte i
unfolding sets
set_bit_same byte i h k = ground (arith, sets_all byte i h k)

pub set_bit_keeps :
    (byte i j : ℕ)
    → byte < 256
    → i < 8
    → j < 8
    → has_bit byte j ≡ true
    → has_bit (set_bit byte i) j ≡ true
unfolding keeps
set_bit_keeps byte i j h k l e = ground (arith, keeps_all byte i j h k l)
