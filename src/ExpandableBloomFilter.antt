-- ===== src/ExpandableBloomFilter.antt =====
-- The growing Bloom filter of data-struct/bloom-filter/expandable_bloom_filter.cc: a list of filters,
-- each as large as all before it. The seeds that a filter draws for its bits and its expected number
-- of elements are a parameter.
pub mod Instances
pub mod Filters
pub mod Insert
mod Tests
use cpp_base.Prelude.{
  ℕ, ◌+◌, ◌^◌, Bool, true, false, List, [], ◌∷◌, ◌++◌, Outcome, ok, undefined, ◌>>=◌, ◌>>◌, check,
  ltb, leb, ◌==◌, if◌then◌else◌,
}
use cpp_base.BloomFilter.{Bloom, create_bloom, increase, bloom_insert, bloom_contains, bloom_clear}

pub record BfInstance : Type 0 where
  pub bf : Bloom
  pub cutoff_size : ℕ

pub record Expandable : Type 0 where
  pub instances : List BfInstance
  pub num_inserts : ℕ

unfoldable pub new_instance : (ℕ → ℕ → List ℕ) → ℕ → ℕ → BfInstance
unfolding create_bloom
new_instance seeds bit_size cutoff_size = record {
  bf = create_bloom bit_size cutoff_size (seeds bit_size cutoff_size);
  cutoff_size = cutoff_size;
}

unfoldable pub create_expandable : (ℕ → ℕ → List ℕ) → ℕ → ℕ → Expandable
unfolding new_instance
create_expandable seeds initial_bit_size initial_cutoff_size = record {
  instances = new_instance seeds initial_bit_size initial_cutoff_size ∷ [];
  num_inserts = 0;
}

-- The loop of Contains, from the last filter to the first.
unfoldable pub contains_in : List BfInstance → ℕ → Outcome Bool
unfolding bloom_contains
contains_in [] key = ok false
contains_in (instance' ∷ instances) key = do
  later ← contains_in instances key
  if later then ok true else bloom_contains instance'.bf key

unfoldable pub expandable_contains : Expandable → ℕ → Outcome Bool
unfolding contains_in
expandable_contains e key = contains_in e.instances key

-- `instances_.back()`
unfoldable pub back : List BfInstance → Outcome BfInstance
back [] = undefined
back (last ∷ []) = ok last
back (first ∷ second ∷ instances) = back (second ∷ instances)

-- `+=` of an `int64`.
unfoldable pub add_long : ℕ → ℕ → Outcome ℕ
add_long a b = if ltb (a + b) (2 ^ 63) then ok (a + b) else undefined

-- The sums of the cutoffs and of the bits.
unfoldable pub totals : ℕ → ℕ → List BfInstance → Outcome (ℕ × ℕ)
unfolding add_long
totals capacity bit_size [] = ok (capacity, bit_size)
totals capacity bit_size (b ∷ instances) = do
  capacity' ← add_long capacity b.cutoff_size
  bit_size' ← add_long bit_size b.bf.bit_size
  totals capacity' bit_size' instances

-- A new filter with the bits and the cutoff of all filters.
unfoldable pub grow : (ℕ → ℕ → List ℕ) → List BfInstance → Outcome (List BfInstance)
unfolding totals new_instance
grow seeds instances = do
  (capacity, bit_size) ← totals 0 0 instances
  ok (instances ++ (new_instance seeds bit_size capacity ∷ []))

-- The check of the last filter, and a new one behind it where it is full.
unfoldable pub expand : (ℕ → ℕ → List ℕ) → List BfInstance → Outcome (List BfInstance)
unfolding back grow
expand seeds instances = do
  last ← back instances
  check (leb last.bf.num_inserts last.cutoff_size)
  if last.bf.num_inserts == last.cutoff_size then grow seeds instances else ok instances

unfoldable pub insert_last : List BfInstance → ℕ → Outcome (List BfInstance)
unfolding bloom_insert
insert_last [] key = undefined
insert_last (last ∷ []) key = do
  (bf, inserted) ← bloom_insert last.bf key
  check inserted
  ok (record last { bf = bf } ∷ [])
insert_last (first ∷ second ∷ instances) key = do
  rest ← insert_last (second ∷ instances) key
  ok (first ∷ rest)

unfoldable pub expandable_insert : (ℕ → ℕ → List ℕ) → Expandable → ℕ → Outcome (Expandable × Bool)
unfolding expandable_contains expand insert_last increase
expandable_insert seeds e key = do
  found ← expandable_contains e key
  if found then ok (e, false) else do
    expanded ← expand seeds e.instances
    instances ← insert_last expanded key
    inserts ← increase e.num_inserts
    ok (record { instances = instances; num_inserts = inserts }, true)

unfoldable pub expandable_clear : Expandable → Outcome Expandable
unfolding bloom_clear
expandable_clear e = elim e.instances [
  | [] ↦ undefined
  | first ∷ instances ↦
      ok (record { instances = record first { bf = bloom_clear first.bf } ∷ []; num_inserts = 0 })
]
