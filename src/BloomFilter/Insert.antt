-- ===== src/BloomFilter/Insert.antt =====
-- What Insert and Contains of a Bloom filter (data-struct/bloom-filter/bloom_filter.cc) promise.
use cpp_base.Prelude.{
  load_in, store_in, mod_int_in, length-replicate, get_or-replicate, ℕ, ◌+◌, ◌-◌, ◌/◌, ◌%◌, ◌^◌,
  ◌<◌, ◌≡◌, refl, arith, ap, ◌∙◌, sym, Bool, true, false, not, ◌&&◌, ◌||◌, List, [], ◌∷◌, length,
  get_or, Outcome, ok, ltb, if◌then◌else◌, Bool-cases, inl, inr, lt→ltb,
}
use cpp_base.Hash.{hash64_num_with_seed}
use cpp_base.BloomFilter.{
  create_bloom, Bloom, insert_bits, contains_bits, set_bit, bloom_insert, bloom_contains,
}
use cpp_base.BloomFilter.Bits.{set_bit_same}
use cpp_base.BloomFilter.Places.{
  AreBits, bit_at, write, place, written, held, write_same, write-AreBits, place-lt,
  written-AreBits, held-written_other, held-written_self,
}

pub contains_bits-held :
    (bits key : ℕ) (bytes seeds : List ℕ)
    → AreBits bits bytes
    → contains_bits bits key bytes seeds ≡ ok (held bits key bytes seeds)
unfolding contains_bits held
contains_bits-held bits key bytes [] h = refl
contains_bits-held bits key bytes (seed ∷ seeds) h =
    let i = place bits key seed in
    let inside : i / 8 < length bytes = omega (arith, h.whole, place-lt bits key seed h.some_bit) in
    rw (mod_int_in (hash64_num_with_seed key seed) bits h.some_bit, load_in bytes (i / 8) 0 inside)
      (ground (arith, contains_bits-held bits key bytes seeds h))

or_true : (b : Bool) → (b || true) ≡ true
or_true true = refl
or_true false = refl

pub insert_bits-written :
    (bits key : ℕ) (bytes : List ℕ) (inserted : Bool) (seeds : List ℕ)
    → AreBits bits bytes
    → insert_bits bits key bytes inserted seeds
      ≡ ok (written bits key bytes seeds, inserted || not (held bits key bytes seeds))
unfolding insert_bits written held
insert_bits-written bits key bytes inserted [] h = ground arith
insert_bits-written bits key bytes inserted (seed ∷ seeds) h =
    let i = place bits key seed in
    let byte = get_or bytes (i / 8) 0 in
    let below = place-lt bits key seed h.some_bit in
    let inside : i / 8 < length bytes = omega (arith, h.whole, below) in
    let same = set_bit_same byte (i % 8) (h.small (i / 8)) (omega arith) in
    let next =
      λ (t : Bool). insert_bits bits key (write bytes i) (if t then inserted else true) seeds in
    let result : Bool → Outcome (List ℕ × Bool) =
      λ flag. ok (written bits key (write bytes i) seeds, flag) in
    let rest = λ (flag : Bool).
      insert_bits-written bits key (write bytes i) flag seeds
        (write-AreBits bits i bytes h below) in
    rw
      (
        mod_int_in (hash64_num_with_seed key seed) bits h.some_bit,
        load_in bytes (i / 8) 0 inside,
        store_in bytes (i / 8) (set_bit byte (i % 8)) inside,
      )
      (elim (Bool-cases (bit_at bytes i)) [
        | inl e ↦
            ap next (same ∙ e)
            ∙ rest inserted
            ∙ ap (λ f. result (inserted || not f))
                (ap (λ b. held bits key b seeds) (write_same bits i bytes h e)
                  ∙ sym (ap (λ t. t && held bits key bytes seeds) e))
        | inr e ↦
            ap next (same ∙ e)
            ∙ rest true
            ∙ ap result (
                sym (or_true inserted)
                ∙ sym (ap (λ t. inserted || not (t && held bits key bytes seeds)) e))
      ])

-- The filter that Insert leaves.
unfoldable pub after_insert : Bloom → ℕ → Bloom
after_insert b key = record b {
  bytes = written b.bit_size key b.bytes b.hash_keys;
  num_inserts = b.num_inserts + 1;
  log_regulator =
      if ltb b.expected_num_elements (b.num_inserts + 1)
      then b.log_regulator + 1
      else b.log_regulator;
}

unfoldable pub answer : Outcome Bool → Bool
answer (ok b) = b
answer other = false

-- Insert succeeds where its two counters do not overflow. It says whether Contains did not find the
-- key before; from then on Contains finds the key, and still finds every key that it found before.
pub bloom_insert-bloom_contains :
    (b : Bloom) (key : ℕ)
    → AreBits b.bit_size b.bytes
    → b.num_inserts + 1 < 2 ^ 63
    → b.log_regulator + 1 < 2 ^ 63
    → (found : Bool) × (bloom_contains b key ≡ ok found)
      × (bloom_insert b key ≡ ok (after_insert b key, not found))
      × (bloom_contains (after_insert b key) key ≡ ok true)
      × ((other : ℕ)
          → bloom_contains b other ≡ ok true
          → bloom_contains (after_insert b key) other ≡ ok true)
unfolding bloom_contains bloom_insert after_insert answer
bloom_insert-bloom_contains b key h p q =
    let after = written-AreBits b.bit_size key b.bytes b.hash_keys h in
    (
      held b.bit_size key b.bytes b.hash_keys,
      contains_bits-held b.bit_size key b.bytes b.hash_keys h,
      rw
          (
            insert_bits-written b.bit_size key b.bytes false b.hash_keys h,
            lt→ltb (b.num_inserts + 1) (2 ^ 63) p,
          )
          (elim (Bool-cases (ltb b.expected_num_elements (b.num_inserts + 1))) [
            | inl e ↦ rw (e, lt→ltb (b.log_regulator + 1) (2 ^ 63) q) refl
            | inr e ↦ rw e refl
          ]),
      contains_bits-held b.bit_size key _ b.hash_keys after
          ∙ ap ok (held-written_self b.bit_size key b.bytes b.hash_keys h),
      λ other e.
          let before =
            ap answer (sym (contains_bits-held b.bit_size other b.bytes b.hash_keys h) ∙ e) in
          contains_bits-held b.bit_size other _ b.hash_keys after
          ∙ ap ok
              (held-written_other b.bit_size key other b.bytes b.hash_keys b.hash_keys h before),
    )

pub create_bloom-AreBits :
    (bit_size expected : ℕ) (seeds : List ℕ)
    → AreBits
        (create_bloom bit_size expected seeds).bit_size
        (create_bloom bit_size expected seeds).bytes
unfolding create_bloom
create_bloom-AreBits bit_size expected seeds = record {
  some_bit = omega arith;
  whole = omega (arith, length-replicate {A = ℕ} ((bit_size - 1) / 8 + 1) 0);
  small = λ i. omega (arith, get_or-replicate {A = ℕ} ((bit_size - 1) / 8 + 1) i 0);
}
