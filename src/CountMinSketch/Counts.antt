-- ===== src/CountMinSketch/Counts.antt =====
-- What GetCount and AddCount of a count-min sketch (data-struct/count_min_sketch.h) tell.
use cpp_base.Hash.{hash64_num_with_seed}
use cpp_base.Prelude.{
  set, get_or-set_self, ℕ, suc, ◌+◌, ◌≤◌, ◌<◌, ◌≡◌, refl, min, arith, ap, ◌∙◌, true, List, [], ◌∷◌,
  length, get_or, ok, ℤ, pos, negsuc, ◌+ℤ◌, fits64,
}
use cpp_base.CountMinSketch.{Sketch, limit, clamp, get_count, add_count}
use cpp_base.CountMinSketch.Rows.{
  column, mod-below, AreRows, least_of, raised, change, IsIncrement, IsMonotone, get_rows-least_of,
  add_rows-raised, raised-AreRows, least_of-raised,
}

pub change-le : (max : ℕ) (inc : ℤ) (count : ℕ) → change max inc count ≤ max
unfolding clamp
change-le max (pos n) count = ground arith
change-le max (negsuc n) count = ground arith

pub change-IsMonotone : (max : ℕ) (inc : ℤ) → IsMonotone (change max inc)
unfolding clamp
change-IsMonotone max (pos n) a b h = ground arith
change-IsMonotone max (negsuc n) a b h = ground arith

pub change-grows : (max n count : ℕ) → count ≤ max → count ≤ change max (pos n) count
unfolding clamp
change-grows max n count h = ground arith

pub record IsSketch (s : Sketch) : Type 0 where
  pub columns : 0 < s.num_cols
  pub some_row : 0 < length s.matrix
  pub rows : AreRows (limit s.counter) s.num_cols s.matrix

-- The count that GetCount gives.
unfoldable pub estimate : Sketch → ℕ → ℕ
estimate s key = least_of s.num_cols key 0 (limit s.counter) s.matrix

-- The sketch after AddCount.
unfoldable pub after_add : Sketch → ℕ → ℤ → Sketch
after_add s key inc = record s {
  matrix = raised (change (limit s.counter) inc) s.num_cols key 0 s.matrix;
  sum_counts = s.sum_counts +ℤ inc;
}

pub get_count-estimate : (s : Sketch) (key : ℕ) → IsSketch s → get_count s key ≡ ok (estimate s key)
unfolding get_count estimate
get_count-estimate s key h =
    get_rows-least_of (limit s.counter) s.num_cols key 0 (limit s.counter) s.matrix h.columns h.rows

raised-length :
    (f : ℕ → ℕ) (cols key row : ℕ) (matrix : List (List ℕ))
    → length (raised f cols key row matrix) ≡ length matrix
unfolding raised
raised-length f cols key row [] = refl
raised-length f cols key row (cells ∷ matrix) = ap suc (raised-length f cols key (row + 1) matrix)

pub after_add-IsSketch :
    (s : Sketch) (key : ℕ) (inc : ℤ) → IsSketch s → IsSketch (after_add s key inc)
unfolding after_add
after_add-IsSketch s key inc h = record {
  columns = h.columns;
  some_row =
      omega
        (arith, h.some_row, raised-length (change (limit s.counter) inc) s.num_cols key 0 s.matrix);
  rows =
      raised-AreRows (limit s.counter) s.num_cols key 0 (change (limit s.counter) inc) s.matrix
        (change-le (limit s.counter) inc) h.rows;
}

-- The least count is not above the first one, so the start of the loop, the limit, does not show.
pub start_hidden :
    (max cols key : ℕ) (f : ℕ → ℕ) (matrix : List (List ℕ))
    → 0 < cols
    → 0 < length matrix
    → IsMonotone f
    → ((count : ℕ) → f count ≤ max)
    → AreRows max cols matrix
    → least_of cols key 0 max (raised f cols key 0 matrix) ≡ f (least_of cols key 0 max matrix)
unfolding least_of raised
start_hidden max cols key f [] h l m b k = absurd (omega arith)
start_hidden max cols key f (cells ∷ matrix) h l m b ((n, bound), ks) =
    let col = column cols key 0 in
    let count = get_or cells col 0 in
    let inside : col < length cells =
      omega (arith, mod-below (hash64_num_with_seed key 1) cols h, n) in
    let written = get_or-set_self cells col (f count) 0 inside in
    ap (λ v. least_of cols key 1 v (raised f cols key 1 matrix))
      {x = min max (get_or (set cells col (f count)) col 0)}
      {y = min (f max) (get_or (set cells col (f count)) col 0)}
      (omega (arith, written, b count, m count max (bound col)))
    ∙ least_of-raised max cols key 0 max f (cells ∷ matrix) h m ((n, bound), ks)

-- AddCount gives the count that GetCount gave with the increment added, not below 0 and not above
-- the limit of the counters, and GetCount gives the same from then on. The increment and the sum of
-- counts are such that no int64 overflows.
pub add_count-get_count :
    (s : Sketch) (key : ℕ) (inc : ℤ)
    → IsSketch s
    → IsIncrement (limit s.counter) inc
    → fits64 (s.sum_counts +ℤ inc) ≡ true
    → (count : ℕ) × (get_count s key ≡ ok count)
      × (add_count s key inc ≡ ok (after_add s key inc, clamp (limit s.counter) (pos count +ℤ inc)))
      × (get_count (after_add s key inc) key ≡ ok (clamp (limit s.counter) (pos count +ℤ inc)))
add_count-get_count s key inc h p q =
    let max = limit s.counter in
    let f = change max inc in
    let same =
      start_hidden max s.num_cols key f s.matrix h.columns h.some_row (change-IsMonotone max inc)
        (change-le max inc) h.rows in
    (
      estimate s key,
      get_count-estimate s key h,
      unfold add_count after_add estimate in
          rw (add_rows-raised max s.num_cols key inc 0 max s.matrix h.columns p h.rows, q, same)
            refl,
      get_count-estimate (after_add s key inc) key (after_add-IsSketch s key inc h)
          ∙ ap ok (unfold estimate after_add in same),
    )
