-- ===== src/CountMinSketch/Tests.antt =====
-- Runs of the sketch, and each theorem at an input.
use cpp_base.Prelude.{
  ℕ, zero, suc, ◌+◌, ◌≡◌, ◌≤◌, refl, arith, [], ◌∷◌, ok, fatal, undefined, pos, ◌>>=◌, get_or,
}
use cpp_base.Hash.{hash64_num_with_seed}
use cpp_base.CountMinSketch.{
  Sketch, uint8, uint16, limit, create_sketch, get_count, add_count, decrement, increment, add_all,
  clear_sketch, clamp, size_of,
}
use cpp_base.CountMinSketch.Rows.{IsIncrement}
use cpp_base.CountMinSketch.Counts.{IsSketch, after_add, add_count-get_count}
use cpp_base.CountMinSketch.Run.{sum, total, never_underestimates}

saturated :
    create_sketch uint8 10 2 >>= (λ s. add_all s ((7, 200) ∷ (7, 100) ∷ []) >>= λ t. get_count t 7)
    ≡ ok 255
unfolding create_sketch add_all get_count hash64_num_with_seed
saturated = refl

decremented : create_sketch uint8 10 2 >>= (λ s. decrement s 7 >>= λ r. get_count r.0 7) ≡ ok 0
unfolding create_sketch decrement get_count hash64_num_with_seed
decremented = refl

cleared :
    create_sketch uint16 10 2 >>= (λ s. increment s 7 >>= λ r. get_count (clear_sketch r.0) 7)
    ≡ ok 0
unfolding create_sketch increment get_count clear_sketch hash64_num_with_seed
cleared = refl

no_rows : create_sketch uint8 10 0 ≡ undefined
unfolding create_sketch
no_rows = refl

no_memory : create_sketch uint8 3 4 ≡ fatal
unfolding create_sketch
no_memory = refl

never_underestimates_example :
    (s : Sketch) × (s' : Sketch) × (count : ℕ) × (create_sketch uint8 10 2 ≡ ok s)
    × (add_all s ((7, 3) ∷ (8, 1) ∷ (7, 2) ∷ []) ≡ ok s')
    × (get_count s' 7 ≡ ok count)
    × (5 ≤ count)
unfolding size_of sum total limit
never_underestimates_example =
    never_underestimates uint8 10 2 7 ((7, 3) ∷ (8, 1) ∷ (7, 2) ∷ []) (omega arith) (omega arith)
      (omega arith)

abbrev one_cell : Sketch
one_cell = record { counter = uint8; num_cols = 1; matrix = (250 ∷ []) ∷ []; sum_counts = pos 250 }

one_cell-bound : (i : ℕ) → get_or (250 ∷ []) i 0 ≤ 255
one_cell-bound zero = omega arith
one_cell-bound (suc i) = omega arith

one_cell-IsSketch : IsSketch one_cell
unfolding limit
one_cell-IsSketch = record {
  columns = omega arith;
  some_row = omega arith;
  rows = ((refl, one_cell-bound), tt);
}

ten_more : IsIncrement 255 (pos 10)
ten_more count h = ground arith

add_count-get_count_example :
    (count : ℕ) × (get_count one_cell 3 ≡ ok count)
    × (add_count one_cell 3 (pos 10)
        ≡ ok (after_add one_cell 3 (pos 10), clamp 255 (pos (count + 10))))
    × (get_count (after_add one_cell 3 (pos 10)) 3 ≡ ok (clamp 255 (pos (count + 10))))
unfolding limit
add_count-get_count_example =
    add_count-get_count one_cell 3 (pos 10) one_cell-IsSketch ten_more refl
