-- ===== src/ExpandableBloomFilter/Insert.antt =====
-- What Insert and Contains of a growing Bloom filter
-- (data-struct/bloom-filter/expandable_bloom_filter.cc) promise.
use mathlib.Core.Path.{ap₂}
use cpp_base.Prelude.{
  length-append, ℕ, ◌+◌, ◌^◌, ◌≤◌, ◌<◌, ◌≡◌, refl, arith, ap, ◌∙◌, sym, Bool, true, false, not,
  List, [], ◌∷◌, ◌++◌, length, All, ok, lt→ltb, le→leb, ◌==◌, Bool-cases, inl, inr,
}
use cpp_base.BloomFilter.{increase}
use cpp_base.BloomFilter.Insert.{answer}
use cpp_base.ExpandableBloomFilter.{
  BfInstance, Expandable, new_instance, expandable_contains, grow, expand, expandable_insert,
  create_expandable,
}
use cpp_base.ExpandableBloomFilter.Instances.{
  IsInstance, new_instance-IsInstance, found_at-new_instance,
}
use cpp_base.ExpandableBloomFilter.Filters.{
  found_in, cutoffs, bits, has_room, inserted_in, contains_in-found_in, totals-sums,
  insert_last-inserted_in, inserted_in-IsInstance, found_in-inserted_self, found_in-inserted_other,
  length-inserted_in, back-last, has_room-append, AllInstances-append, found_in-append,
}

-- The filters as the constructor and Insert leave them.
pub record IsExpandable (e : Expandable) : Type 0 where
  pub filters : All IsInstance e.instances
  pub some_filter : 0 < length e.instances

cutoffs_positive :
    (instances : List BfInstance)
    → All IsInstance instances
    → 0 < length instances
    → 0 < cutoffs instances
unfolding cutoffs
cutoffs_positive [] h l = absurd (omega arith)
cutoffs_positive (i ∷ instances) (h, hs) l = omega (arith, h.some_room)

zero_add : (n : ℕ) → 0 + n ≡ n
zero_add n = omega arith

strictly : (a b : ℕ) → a ≤ b → (a == b) ≡ false → a < b
strictly a b h e = ground arith

module _ (seeds : ℕ → ℕ → List ℕ) (some_seed : (b c : ℕ) → 0 < length (seeds b c)) where
  -- What Insert does before it inserts: there is room, and nothing else is found.
  ready :
      (instances : List BfInstance)
      → All IsInstance instances
      → 0 < length instances
      → cutoffs instances < 2 ^ 62
      → bits instances < 2 ^ 62
      → (expanded : List BfInstance) × (expand seeds instances ≡ ok expanded)
        × All IsInstance expanded
        × (0 < length expanded)
        × (has_room expanded ≡ true)
        × ((key : ℕ) → found_in expanded key ≡ found_in instances key)
  unfolding expand grow
  ready instances h l p q =
      let last = back-last instances h l in
      let i = last.0 in
      let most = le→leb i.bf.num_inserts i.cutoff_size (last.2).counted in
      let new = new_instance seeds (bits instances) (cutoffs instances) in
      elim (Bool-cases (i.bf.num_inserts == i.cutoff_size)) [
        | inl e ↦ (
          instances ++ (new ∷ []),
          rw (last.1, most, e, totals-sums 0 0 instances (omega arith) (omega arith))
              (ap₂ (λ b c. ok (instances ++ (new_instance seeds b c ∷ [])))
                (zero_add (bits instances)) (zero_add (cutoffs instances))),
          AllInstances-append instances new h (
              new_instance-IsInstance seeds some_seed (bits instances) (cutoffs instances)
                (cutoffs_positive instances h l) p),
          omega (arith, length-append instances (new ∷ [])),
          has_room-append instances new
              ∙ unfold new_instance in
                lt→ltb 0 (cutoffs instances) (cutoffs_positive instances h l),
          λ key.
              found_in-append instances new key
                (found_at-new_instance seeds some_seed (bits instances) (cutoffs instances) key),
        )
        | inr e ↦ (
          instances,
          rw (last.1, most, e) refl,
          h,
          l,
          last.3
              ∙ lt→ltb i.bf.num_inserts i.cutoff_size
                  (strictly i.bf.num_inserts i.cutoff_size (last.2).counted e),
          λ key. refl,
        )
      ]

  -- Insert succeeds where the filters together have fewer than 2 ^ 62 bits and as many elements and
  -- the number of insertions does not overflow. It says whether Contains did not find the key
  -- before; from then on Contains finds the key, and still finds every key that it found before; and
  -- the filters are as before but for their number. Every filter has a seed.
  pub expandable_insert-expandable_contains :
      (e : Expandable) (key : ℕ)
      → IsExpandable e
      → cutoffs e.instances < 2 ^ 62
      → bits e.instances < 2 ^ 62
      → e.num_inserts + 1 < 2 ^ 63
      → (found : Bool) × (e' : Expandable) × (expandable_contains e key ≡ ok found)
        × (expandable_insert seeds e key ≡ ok (e', not found))
        × IsExpandable e'
        × (expandable_contains e' key ≡ ok true)
        × ((other : ℕ)
            → expandable_contains e other ≡ ok true
            → expandable_contains e' other ≡ ok true)
  unfolding expandable_insert expandable_contains increase answer
  expandable_insert-expandable_contains e key h p q r =
      let now = contains_in-found_in e.instances key h.filters in
      elim (Bool-cases (found_in e.instances key)) [
        | inl f ↦ (true, e, now ∙ ap ok f, rw (now, f) refl, h, now ∙ ap ok f, λ other g. g)
        | inr f ↦
            let (is, expanded, good, some, room, same) =
              ready e.instances h.filters h.some_filter p q in
            let missing = same key ∙ f in
            let after = inserted_in-IsInstance is key good room in
            (
              false,
              record { instances = inserted_in is key; num_inserts = e.num_inserts + 1 },
              now ∙ ap ok f,
              rw
                  (
                    now,
                    f,
                    expanded,
                    insert_last-inserted_in is key good room missing,
                    lt→ltb (e.num_inserts + 1) (2 ^ 63) r,
                  )
                  refl,
              record {
                filters = after;
                some_filter = omega (arith, some, length-inserted_in is key);
              },
              contains_in-found_in (inserted_in is key) key after
                  ∙ ap ok (found_in-inserted_self is key good room),
              λ other g.
                  contains_in-found_in (inserted_in is key) other after
                  ∙ ap ok (
                      found_in-inserted_other is key other good (
                        same other
                        ∙ ap answer (sym (contains_in-found_in e.instances other h.filters) ∙ g))),
            )
      ]

  pub create_expandable-IsExpandable :
      (bit_size cutoff : ℕ)
      → 0 < cutoff
      → cutoff < 2 ^ 62
      → IsExpandable (create_expandable seeds bit_size cutoff)
  unfolding create_expandable
  create_expandable-IsExpandable bit_size cutoff h k = record {
    filters = (new_instance-IsInstance seeds some_seed bit_size cutoff h k, tt);
    some_filter = omega arith;
  }
