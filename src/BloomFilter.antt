-- ===== src/BloomFilter.antt =====
-- The Bloom filter of data-struct/bloom-filter/bloom_filter.cc: an array of bytes whose bits are set
-- at the hashes of a key. The seeds come from the random generator of the C++ library, and their
-- number from floating point: both are an argument. The warning of an overfull filter is output.
pub mod Bits
pub mod Places
pub mod Insert
mod Tests
use Prim.Native.Nat.{bit_and, bit_or}
use cpp_base.Prelude.{
  ℕ, zero, suc, ◌+◌, ◌-◌, ◌*◌, ◌/◌, ◌%◌, ◌^◌, Bool, true, false, not, List, [], ◌∷◌, length,
  Outcome, ok, undefined, ◌>>=◌, load, store, mod_int, replicate, ltb, ◌==◌, if◌then◌else◌,
}
use cpp_base.Hash.{hash64_num_with_seed}

pub record Bloom : Type 0 where
  pub byte_size : ℕ
  pub bit_size : ℕ
  pub bytes : List ℕ
  pub num_inserts : ℕ
  pub expected_num_elements : ℕ
  pub log_regulator : ℕ
  pub hash_keys : List ℕ

-- From 0 bits the division gives -1 / 8, which is 0, as here.
unfoldable pub create_bloom : ℕ → ℕ → List ℕ → Bloom
create_bloom bit_size expected_num_elements hash_keys =
    let size = (bit_size - 1) / 8 + 1 in
    record {
      byte_size = size;
      bit_size = size * 8;
      bytes = replicate size 0;
      num_inserts = 0;
      expected_num_elements = expected_num_elements;
      log_regulator = 0;
      hash_keys = hash_keys;
    }

-- `++n` of an `int64`.
unfoldable pub increase : ℕ → Outcome ℕ
increase n = if ltb (n + 1) (2 ^ 63) then ok (n + 1) else undefined

-- `data_[byte] |= 1 << bit`
unfoldable pub set_bit : ℕ → ℕ → ℕ
set_bit byte bit = bit_or byte (2 ^ bit)

-- `data_[byte] & (1 << bit)`
unfoldable pub has_bit : ℕ → ℕ → Bool
has_bit byte bit = not (bit_and byte (2 ^ bit) == 0)

-- The loop of Insert: the bytes, and whether one of them has changed.
unfoldable pub insert_bits : ℕ → ℕ → List ℕ → Bool → List ℕ → Outcome (List ℕ × Bool)
unfolding set_bit
insert_bits bit_size key bytes inserted [] = ok (bytes, inserted)
insert_bits bit_size key bytes inserted (seed ∷ hash_keys) = do
  index ← mod_int (hash64_num_with_seed key seed) bit_size
  prev ← load bytes (index / 8)
  bytes' ← store bytes (index / 8) (set_bit prev (index % 8))
  insert_bits bit_size key bytes' (if prev == set_bit prev (index % 8) then inserted else true)
      hash_keys

-- The loop of Contains.
unfoldable pub contains_bits : ℕ → ℕ → List ℕ → List ℕ → Outcome Bool
unfolding has_bit
contains_bits bit_size key bytes [] = ok true
contains_bits bit_size key bytes (seed ∷ hash_keys) =
    mod_int (hash64_num_with_seed key seed) bit_size >>= λ index. load bytes (index / 8) >>= λ byte.
    let rest = contains_bits bit_size key bytes hash_keys in
    if has_bit byte (index % 8) then rest else ok false

unfoldable pub bloom_insert : Bloom → ℕ → Outcome (Bloom × Bool)
unfolding insert_bits increase
bloom_insert b key = do
  (bytes, inserted) ← insert_bits b.bit_size key b.bytes false b.hash_keys
  inserts ← increase b.num_inserts
  regulator ←
      (if ltb b.expected_num_elements inserts then increase b.log_regulator else ok b.log_regulator)
  ok (record b { bytes = bytes; num_inserts = inserts; log_regulator = regulator }, inserted)

unfoldable pub bloom_contains : Bloom → ℕ → Outcome Bool
unfolding contains_bits
bloom_contains b key = contains_bits b.bit_size key b.bytes b.hash_keys

unfoldable pub bloom_clear : Bloom → Bloom
bloom_clear b = record b { bytes = replicate b.byte_size 0; num_inserts = 0 }
