-- ===== src/ExpandableBloomFilter/Filters.antt =====
-- The filters of a growing Bloom filter (data-struct/bloom-filter/expandable_bloom_filter.cc), and
-- the loops over them.
use mathlib.Core.Path.{ap₂}
use cpp_base.Prelude.{
  ℕ, suc, ◌+◌, ◌^◌, ◌<◌, ◌≡◌, refl, arith, ap, ◌∙◌, Bool, true, false, List, [], ◌∷◌, ◌++◌, length,
  All, ok, ◌>>=◌, ltb, lt→ltb, if◌then◌else◌, Bool-cases, inl, inr,
}
use cpp_base.ExpandableBloomFilter.{BfInstance, contains_in, back, add_long, totals, insert_last}
use cpp_base.ExpandableBloomFilter.Instances.{
  IsInstance, found_at, with_key, bloom_contains-found_at, insert_new, with_key-IsInstance,
  found_at-with_key_self, found_at-with_key_other,
}

unfoldable pub found_in : List BfInstance → ℕ → Bool
found_in [] key = false
found_in (i ∷ instances) key = if found_in instances key then true else found_at i key

unfoldable pub cutoffs : List BfInstance → ℕ
cutoffs [] = 0
cutoffs (i ∷ instances) = i.cutoff_size + cutoffs instances

unfoldable pub bits : List BfInstance → ℕ
bits [] = 0
bits (i ∷ instances) = i.bf.bit_size + bits instances

pub contains_in-found_in :
    (instances : List BfInstance) (key : ℕ)
    → All IsInstance instances
    → contains_in instances key ≡ ok (found_in instances key)
unfolding contains_in found_in
contains_in-found_in [] key h = refl
contains_in-found_in (i ∷ instances) key (h, hs) =
    rw (contains_in-found_in instances key hs) (elim (Bool-cases (found_in instances key)) [
      | inl e ↦ rw e refl
      | inr e ↦ rw e (bloom_contains-found_at i key h)
    ])

pair_same : (p q : ℕ × ℕ) → p.0 ≡ q.0 → p.1 ≡ q.1 → ok p ≡ ok q
pair_same (a, b) (c, d) e f = ap₂ (λ x y. ok (x, y)) e f

-- `a || b`, as the loop of Contains computes it.
either_not : (a b : Bool) → (if a then true else b) ≡ false → a ≡ false
either_not a b h = ground arith

either_keeps :
    (a b c : Bool)
    → (a ≡ true → c ≡ true)
    → (if a then true else b) ≡ true
    → (if c then true else b) ≡ true
either_keeps a b c h e = ground arith

pub totals-sums :
    (c b : ℕ) (instances : List BfInstance)
    → c + cutoffs instances < 2 ^ 63
    → b + bits instances < 2 ^ 63
    → totals c b instances ≡ ok (c + cutoffs instances, b + bits instances)
unfolding totals add_long cutoffs bits
totals-sums c b [] h k = pair_same (c, b) (c + 0, b + 0) (omega arith) (omega arith)
totals-sums c b (i ∷ instances) h k =
    rw
      (
        lt→ltb (c + i.cutoff_size) (2 ^ 63) (omega arith),
        lt→ltb (b + i.bf.bit_size) (2 ^ 63) (omega arith),
      )
      (totals-sums (c + i.cutoff_size) (b + i.bf.bit_size) instances (omega arith) (omega arith)
        ∙ pair_same _ _ (omega arith) (omega arith))

-- The last filter has room.
unfoldable pub has_room : List BfInstance → Bool
has_room [] = false
has_room (last ∷ []) = ltb last.bf.num_inserts last.cutoff_size
has_room (first ∷ second ∷ instances) = has_room (second ∷ instances)

unfoldable pub inserted_in : List BfInstance → ℕ → List BfInstance
inserted_in [] key = []
inserted_in (last ∷ []) key = with_key last key ∷ []
inserted_in (first ∷ second ∷ instances) key = first ∷ inserted_in (second ∷ instances) key

pub insert_last-inserted_in :
    (instances : List BfInstance) (key : ℕ)
    → All IsInstance instances
    → has_room instances ≡ true
    → found_in instances key ≡ false
    → insert_last instances key ≡ ok (inserted_in instances key)
unfolding insert_last inserted_in has_room found_in
insert_last-inserted_in [] key h r e = cc
insert_last-inserted_in (last ∷ []) key (h, hs) r e = rw (insert_new last key h e) refl
insert_last-inserted_in (first ∷ second ∷ instances) key (h, hs) r e =
    ap (λ o. o >>= λ rest. ok (first ∷ rest))
      (insert_last-inserted_in (second ∷ instances) key hs r (either_not _ (found_at first key) e))

pub inserted_in-IsInstance :
    (instances : List BfInstance) (key : ℕ)
    → All IsInstance instances
    → has_room instances ≡ true
    → All IsInstance (inserted_in instances key)
unfolding inserted_in has_room
inserted_in-IsInstance [] key h r = tt
inserted_in-IsInstance (last ∷ []) key (h, hs) r =
    (with_key-IsInstance last key h (ground arith), tt)
inserted_in-IsInstance (first ∷ second ∷ instances) key (h, hs) r =
    (h, inserted_in-IsInstance (second ∷ instances) key hs r)

pub found_in-inserted_self :
    (instances : List BfInstance) (key : ℕ)
    → All IsInstance instances
    → has_room instances ≡ true
    → found_in (inserted_in instances key) key ≡ true
unfolding inserted_in has_room found_in
found_in-inserted_self [] key h r = cc
found_in-inserted_self (last ∷ []) key (h, hs) r = found_at-with_key_self last key h
found_in-inserted_self (first ∷ second ∷ instances) key (h, hs) r =
    rw (found_in-inserted_self (second ∷ instances) key hs r) refl

pub found_in-inserted_other :
    (instances : List BfInstance) (key other : ℕ)
    → All IsInstance instances
    → found_in instances other ≡ true
    → found_in (inserted_in instances key) other ≡ true
unfolding inserted_in found_in
found_in-inserted_other [] key other h e = e
found_in-inserted_other (last ∷ []) key other (h, hs) e = found_at-with_key_other last key other h e
found_in-inserted_other (first ∷ second ∷ instances) key other (h, hs) e =
    either_keeps _ (found_at first other) _
      (found_in-inserted_other (second ∷ instances) key other hs) e

pub back-last :
    (instances : List BfInstance)
    → All IsInstance instances
    → 0 < length instances
    → (last : BfInstance) × (back instances ≡ ok last)
      × IsInstance last
      × (has_room instances ≡ ltb last.bf.num_inserts last.cutoff_size)
unfolding back has_room
back-last [] h l = absurd (omega arith)
back-last (last ∷ []) (h, hs) l = (last, refl, h, refl)
back-last (first ∷ second ∷ instances) (h, hs) l = back-last (second ∷ instances) hs (omega arith)

pub has_room-append :
    (instances : List BfInstance) (i : BfInstance)
    → has_room (instances ++ (i ∷ [])) ≡ ltb i.bf.num_inserts i.cutoff_size
unfolding has_room
has_room-append [] i = refl
has_room-append (first ∷ []) i = refl
has_room-append (first ∷ second ∷ instances) i = has_room-append (second ∷ instances) i

pub AllInstances-append :
    (instances : List BfInstance) (i : BfInstance)
    → All IsInstance instances
    → IsInstance i
    → All IsInstance (instances ++ (i ∷ []))
AllInstances-append [] i h k = (k, tt)
AllInstances-append (first ∷ instances) i (h, hs) k = (h, AllInstances-append instances i hs k)

-- A filter in which nothing is found changes nothing that is found.
pub found_in-append :
    (instances : List BfInstance) (i : BfInstance) (key : ℕ)
    → found_at i key ≡ false
    → found_in (instances ++ (i ∷ [])) key ≡ found_in instances key
unfolding found_in
found_in-append [] i key e = e
found_in-append (first ∷ instances) i key e =
    ap (λ b. if b then true else found_at first key) (found_in-append instances i key e)

pub length-inserted_in :
    (instances : List BfInstance) (key : ℕ) → length (inserted_in instances key) ≡ length instances
unfolding inserted_in
length-inserted_in [] key = refl
length-inserted_in (last ∷ []) key = refl
length-inserted_in (first ∷ second ∷ instances) key =
    ap suc (length-inserted_in (second ∷ instances) key)
