-- ===== src/ExpandableBloomFilter/Tests.antt =====
-- Runs of the growing filter, and each theorem at an input.
use cpp_base.Prelude.{
  ℕ, ◌<◌, ◌≡◌, refl, arith, Bool, true, false, not, ◌&&◌, List, [], ◌∷◌, length, ok, fatal, ◌>>=◌,
  ◌==◌,
}
use cpp_base.Hash.{hash64_num_with_seed}
use cpp_base.BloomFilter.{create_bloom}
use cpp_base.ExpandableBloomFilter.{
  Expandable, new_instance, create_expandable, expandable_contains, expandable_insert,
  expandable_clear,
}
use cpp_base.ExpandableBloomFilter.Filters.{cutoffs, bits}
use cpp_base.ExpandableBloomFilter.Insert.{
  IsExpandable, expandable_insert-expandable_contains, create_expandable-IsExpandable,
}

abbrev seeds : ℕ → ℕ → List ℕ
seeds bit_size expected = 11 ∷ 12 ∷ []

some_seed : (b c : ℕ) → 0 < length (seeds b c)
some_seed b c = omega arith

abbrev small : Expandable
small = create_expandable seeds 24 1

grown :
    (expandable_insert seeds small 7 >>= λ r. expandable_insert seeds r.0 8 >>= λ t.
    expandable_contains t.0 7 >>= λ a.
    expandable_contains t.0 8 >>= λ b. ok (a && b && length t.0.instances == 2))
    ≡ ok true
unfolding create_expandable expandable_insert expandable_contains hash64_num_with_seed
grown = refl

cleared :
    (expandable_insert seeds small 7 >>= λ r. expandable_clear r.0 >>= λ e. expandable_contains e 7)
    ≡ ok false
unfolding create_expandable expandable_insert expandable_contains expandable_clear
    hash64_num_with_seed
cleared = refl

-- With a cutoff of 0 the second new key fails the CHECK.
cutoff_zero :
    (expandable_insert seeds (create_expandable seeds 24 0) 7 >>= λ r.
    expandable_insert seeds r.0 8)
    ≡ fatal
unfolding create_expandable expandable_insert hash64_num_with_seed
cutoff_zero = refl

expandable_insert-expandable_contains_example :
    (found : Bool) × (e' : Expandable) × (expandable_contains small 7 ≡ ok found)
    × (expandable_insert seeds small 7 ≡ ok (e', not found))
    × IsExpandable e'
    × (expandable_contains e' 7 ≡ ok true)
    × ((other : ℕ)
        → expandable_contains small other ≡ ok true
        → expandable_contains e' other ≡ ok true)
unfolding create_expandable cutoffs bits new_instance create_bloom
expandable_insert-expandable_contains_example =
    expandable_insert-expandable_contains seeds some_seed small 7
      (create_expandable-IsExpandable seeds some_seed 24 1 (omega arith) (omega arith))
      (omega arith) (omega arith) (omega arith)
