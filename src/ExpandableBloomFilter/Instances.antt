-- ===== src/ExpandableBloomFilter/Instances.antt =====
-- One filter of a growing Bloom filter (data-struct/bloom-filter/expandable_bloom_filter.cc).
use Prim.Native.Nat.{bit_and-bitwise}
use cpp_base.Prelude.{
  ℕ, ◌+◌, ◌-◌, ◌/◌, ◌%◌, ◌^◌, ◌≤◌, ◌<◌, ◌≡◌, refl, arith, ap, ◌∙◌, sym, Bool, true, false, not,
  ◌&&◌, List, [], ◌∷◌, length, replicate, get_or-replicate, ok, ◌==◌,
}
use cpp_base.BloomFilter.{create_bloom, bloom_insert, bloom_contains, has_bit}
use cpp_base.BloomFilter.Places.{
  AreBits, place, held, written-AreBits, held-written_self, held-written_other,
}
use cpp_base.BloomFilter.Insert.{
  answer, after_insert, contains_bits-held, bloom_insert-bloom_contains, create_bloom-AreBits,
}
use cpp_base.ExpandableBloomFilter.{BfInstance, new_instance}

pub record IsInstance (i : BfInstance) : Type 0 where
  pub bits : AreBits i.bf.bit_size i.bf.bytes
  pub seeded : 0 < length i.bf.hash_keys
  pub quiet : i.bf.log_regulator ≡ 0
  pub expected : i.bf.expected_num_elements ≡ i.cutoff_size
  pub counted : i.bf.num_inserts ≤ i.cutoff_size
  pub some_room : 0 < i.cutoff_size
  pub in_range : i.cutoff_size < 2 ^ 62

abbrev pub found_at : BfInstance → ℕ → Bool
found_at i key = held i.bf.bit_size key i.bf.bytes i.bf.hash_keys

abbrev pub with_key : BfInstance → ℕ → BfInstance
with_key i key = record i { bf = after_insert i.bf key }

pub bloom_contains-found_at :
    (i : BfInstance) (key : ℕ) → IsInstance i → bloom_contains i.bf key ≡ ok (found_at i key)
unfolding bloom_contains
bloom_contains-found_at i key h =
    contains_bits-held i.bf.bit_size key i.bf.bytes i.bf.hash_keys h.bits

pub insert_new :
    (i : BfInstance) (key : ℕ)
    → IsInstance i
    → found_at i key ≡ false
    → bloom_insert i.bf key ≡ ok (after_insert i.bf key, true)
unfolding answer
insert_new i key h e =
    let all =
      bloom_insert-bloom_contains i.bf key h.bits (omega (arith, h.counted, h.in_range))
        (omega (arith, h.quiet)) in
    let same = ap answer (sym all.1 ∙ bloom_contains-found_at i key h) in
    all.2 ∙ ap (λ f. ok (after_insert i.bf key, not f)) (same ∙ e)

pub with_key-IsInstance :
    (i : BfInstance) (key : ℕ)
    → IsInstance i
    → i.bf.num_inserts < i.cutoff_size
    → IsInstance (with_key i key)
unfolding after_insert
with_key-IsInstance i key h p = record {
  bits = written-AreBits i.bf.bit_size key i.bf.bytes i.bf.hash_keys h.bits;
  seeded = h.seeded;
  quiet = ground (arith, h.expected, h.quiet, p);
  expected = h.expected;
  counted = omega arith;
  some_room = h.some_room;
  in_range = h.in_range;
}

pub found_at-with_key_self :
    (i : BfInstance) (key : ℕ) → IsInstance i → found_at (with_key i key) key ≡ true
unfolding after_insert
found_at-with_key_self i key h =
    held-written_self i.bf.bit_size key i.bf.bytes i.bf.hash_keys h.bits

pub found_at-with_key_other :
    (i : BfInstance) (key other : ℕ)
    → IsInstance i
    → found_at i other ≡ true
    → found_at (with_key i key) other ≡ true
unfolding after_insert
found_at-with_key_other i key other h e =
    held-written_other i.bf.bit_size key other i.bf.bytes i.bf.hash_keys i.bf.hash_keys h.bits e

has_bit-zero : (i : ℕ) → has_bit 0 i ≡ false
unfolding has_bit
has_bit-zero i = ap (λ n. not (n == 0)) (λ j. bit_and-bitwise 0 (2 ^ i) j)

held-zeros :
    (bits key size : ℕ) (seeds : List ℕ)
    → 0 < length seeds
    → held bits key (replicate size 0) seeds ≡ false
unfolding held
held-zeros bits key size [] h = absurd (omega arith)
held-zeros bits key size (seed ∷ seeds) h =
    let p = place bits key seed in
    ap (λ b. b && held bits key (replicate size 0) seeds)
      (ap (λ n. has_bit n (p % 8)) (get_or-replicate {A = ℕ} size (p / 8) 0) ∙ has_bit-zero (p % 8))

module _ (seeds : ℕ → ℕ → List ℕ) (some_seed : (b c : ℕ) → 0 < length (seeds b c)) where
  pub new_instance-IsInstance :
      (bit_size cutoff : ℕ)
      → 0 < cutoff
      → cutoff < 2 ^ 62
      → IsInstance (new_instance seeds bit_size cutoff)
  unfolding new_instance create_bloom
  new_instance-IsInstance bit_size cutoff h k = record {
    bits = create_bloom-AreBits bit_size cutoff (seeds bit_size cutoff);
    seeded = some_seed bit_size cutoff;
    quiet = refl;
    expected = refl;
    counted = omega arith;
    some_room = h;
    in_range = k;
  }

  pub found_at-new_instance :
      (bit_size cutoff key : ℕ) → found_at (new_instance seeds bit_size cutoff) key ≡ false
  unfolding new_instance create_bloom
  found_at-new_instance bit_size cutoff key =
      held-zeros _ key ((bit_size - 1) / 8 + 1) (seeds bit_size cutoff) (some_seed bit_size cutoff)
