-- ===== src/CountMinSketch.antt =====
-- The count-min sketch of data-struct/count_min_sketch.h: rows of counters, one for each hash.
pub mod Rows
pub mod Counts
pub mod Run
mod Tests
use cpp_base.Prelude.{
  ℕ, zero, suc, ◌+◌, ◌-◌, ◌*◌, ◌/◌, ◌%◌, ◌^◌, min, Bool, true, false, List, [], ◌∷◌, Outcome, ok,
  undefined, ◌>>=◌, ◌>>◌, check, load, mod_int, set, replicate, map, ltb, ◌==◌, if◌then◌else◌, ℤ,
  pos, negsuc, add_int64,
}
use cpp_base.Hash.{hash64_num_with_seed}

-- The types of counter for which the template can be instantiated.
pub data Counter : Type 0 where
  uint8 : Counter
  uint16 : Counter
  uint32 : Counter

unfoldable pub size_of : Counter → ℕ
size_of uint8 = 1
size_of uint16 = 2
size_of uint32 = 4

-- `std::numeric_limits<T>::max()`
unfoldable pub limit : Counter → ℕ
limit uint8 = 255
limit uint16 = 65535
limit uint32 = 4294967295

pub record Sketch : Type 0 where
  pub counter : Counter
  pub num_cols : ℕ
  pub matrix : List (List ℕ)
  pub sum_counts : ℤ

-- The constructor, from a number of bytes and the number of rows, which is computed from `delta` in
-- floating point. The columns are computed before the CHECKs, with a division by the rows.
unfoldable pub create_sketch : Counter → ℕ → ℕ → Outcome Sketch
unfolding size_of
create_sketch counter mem_budget_bytes num_rows = if num_rows == 0 then undefined else do
  check (ltb 0 mem_budget_bytes)
  check (ltb 0 (mem_budget_bytes / size_of counter / num_rows))
  let cols = mem_budget_bytes / size_of counter / num_rows
  ok (record {
    counter = counter;
    num_cols = cols;
    matrix = replicate num_rows (replicate cols 0);
    sum_counts = pos 0;
  })

-- The loop of GetCount, from a row on, with the least count so far.
unfoldable pub get_rows : ℕ → ℕ → ℕ → ℕ → List (List ℕ) → Outcome ℕ
get_rows cols key row least [] = ok least
get_rows cols key row least (cells ∷ matrix) =
    mod_int (hash64_num_with_seed key (row + 1)) cols >>= λ col.
    load cells col >>= λ value. get_rows cols key (row + 1) (min least value) matrix

unfoldable pub get_count : Sketch → ℕ → Outcome ℕ
unfolding get_rows limit
get_count s key = get_rows s.num_cols key 0 (limit s.counter) s.matrix

-- No count below 0, and none above the limit of its type.
unfoldable pub clamp : ℕ → ℤ → ℕ
clamp max (pos n) = if ltb max n then max else n
clamp max (negsuc n) = 0

-- The loop of AddCount: the rows changed, and the least count.
unfoldable pub add_rows : ℕ → ℕ → ℕ → ℤ → ℕ → ℕ → List (List ℕ) → Outcome (List (List ℕ) × ℕ)
unfolding clamp
add_rows max cols key inc row least [] = ok ([], least)
add_rows max cols key inc row least (cells ∷ matrix) =
    mod_int (hash64_num_with_seed key (row + 1)) cols >>= λ col. load cells col >>= λ count.
    add_int64 (pos count) inc >>= λ value.
    add_rows max cols key inc (row + 1)
      (if ltb (clamp max value) least then clamp max value else least) matrix
    >>= λ rest. ok (set cells col (clamp max value) ∷ rest.0, rest.1)

unfoldable pub add_count : Sketch → ℕ → ℤ → Outcome (Sketch × ℕ)
unfolding add_rows limit
add_count s key inc = do
  (matrix, least) ← add_rows (limit s.counter) s.num_cols key inc 0 (limit s.counter) s.matrix
  sum ← add_int64 s.sum_counts inc
  ok (record s { matrix = matrix; sum_counts = sum }, least)

unfoldable pub increment : Sketch → ℕ → Outcome (Sketch × ℕ)
unfolding add_count
increment s key = add_count s key (pos 1)

unfoldable pub decrement : Sketch → ℕ → Outcome (Sketch × ℕ)
unfolding add_count
decrement s key = add_count s key (negsuc 0)

unfoldable pub clear_sketch : Sketch → Sketch
clear_sketch s = record s {
  matrix = map (λ cells. replicate s.num_cols 0) s.matrix;
  sum_counts = pos 0;
}

-- A client that only adds: the keys and by how much.
unfoldable pub add_all : Sketch → List (ℕ × ℕ) → Outcome Sketch
unfolding add_count
add_all s [] = ok s
add_all s ((key, n) ∷ calls) = add_count s key (pos n) >>= λ r. add_all r.0 calls
