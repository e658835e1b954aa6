-- ===== src/BloomFilter/Tests.antt =====
-- Runs of the Bloom filter, and each theorem at an input.
use cpp_base.Prelude.{ℕ, ◌≡◌, refl, arith, Bool, true, false, not, ◌&&◌, [], ◌∷◌, ok, ◌>>=◌}
use cpp_base.Hash.{hash64_num_with_seed}
use cpp_base.BloomFilter.{Bloom, create_bloom, bloom_insert, bloom_contains, bloom_clear}
use cpp_base.BloomFilter.Insert.{after_insert, bloom_insert-bloom_contains, create_bloom-AreBits}

abbrev small : Bloom
small = create_bloom 20 4 (11 ∷ 12 ∷ [])

inserted_twice :
    (bloom_insert small 7 >>= λ r. bloom_insert r.0 7 >>= λ t. ok (r.1 && not t.1)) ≡ ok true
unfolding create_bloom bloom_insert hash64_num_with_seed
inserted_twice = refl

cleared : (bloom_insert small 7 >>= λ r. bloom_contains (bloom_clear r.0) 7) ≡ ok false
unfolding create_bloom bloom_insert bloom_contains bloom_clear hash64_num_with_seed
cleared = refl

bloom_insert-bloom_contains_example :
    (found : Bool) × (bloom_contains small 7 ≡ ok found)
    × (bloom_insert small 7 ≡ ok (after_insert small 7, not found))
    × (bloom_contains (after_insert small 7) 7 ≡ ok true)
    × ((other : ℕ)
        → bloom_contains small other ≡ ok true
        → bloom_contains (after_insert small 7) other ≡ ok true)
unfolding create_bloom
bloom_insert-bloom_contains_example =
    bloom_insert-bloom_contains small 7 (create_bloom-AreBits 20 4 (11 ∷ 12 ∷ [])) (omega arith)
      (omega arith)
