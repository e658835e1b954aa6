-- ===== src/CountMinSketch/Run.antt =====
-- A count-min sketch (data-struct/count_min_sketch.h) that only counts up never tells too little.
use cpp_base.Prelude.{
  lt→ltb, ℕ, zero, suc, ◌+◌, ◌/◌, ◌^◌, ◌≤◌, ◌<◌, ◌≡◌, refl, min, arith, ap, ◌∙◌, true, false, List,
  [], ◌∷◌, replicate, length-replicate, get_or-replicate, ok, ◌>>=◌, ◌==◌, ==_iff, if◌then◌else◌,
  pos, ◌+ℤ◌, fits64, Bool-cases, inl, inr,
}
use cpp_base.CountMinSketch.{
  Sketch, Counter, uint8, uint16, uint32, size_of, limit, create_sketch, clamp, get_count, add_all,
}
use cpp_base.CountMinSketch.Rows.{AreRows, change, IsIncrement, least_of-grows}
use cpp_base.CountMinSketch.Counts.{
  IsSketch, estimate, after_add, get_count-estimate, after_add-IsSketch, add_count-get_count,
  change-grows, start_hidden, change-IsMonotone, change-le,
}

-- By how much the key is counted up, and all keys together.
unfoldable pub total : ℕ → List (ℕ × ℕ) → ℕ
total key [] = 0
total key ((other, n) ∷ calls) = if other == key then n + total key calls else total key calls

unfoldable pub sum : List (ℕ × ℕ) → ℕ
sum [] = 0
sum ((key, n) ∷ calls) = n + sum calls

limit-lt : (c : Counter) → limit c < 2 ^ 32
unfolding limit
limit-lt uint8 = omega arith
limit-lt uint16 = omega arith
limit-lt uint32 = omega arith

fits_small : (n : ℕ) → n < 2 ^ 63 → fits64 (pos n) ≡ true
fits_small n h = ground arith

small-IsIncrement : (c : Counter) (n : ℕ) → n < 2 ^ 62 → IsIncrement (limit c) (pos n)
small-IsIncrement c n h count k = fits_small (count + n) (omega (arith, limit-lt c))

estimate-after_add_self :
    (s : Sketch) (key n : ℕ)
    → IsSketch s
    → estimate (after_add s key (pos n)) key ≡ min (limit s.counter) (estimate s key + n)
unfolding estimate after_add clamp
estimate-after_add_self s key n h =
    let max = limit s.counter in
    let f = change max (pos n) in
    start_hidden max s.num_cols key f s.matrix h.columns h.some_row (change-IsMonotone max (pos n))
      (change-le max (pos n)) h.rows
    ∙ ground arith

estimate-after_add_other :
    (s : Sketch) (key other n : ℕ)
    → IsSketch s
    → estimate s other ≤ estimate (after_add s key (pos n)) other
unfolding estimate after_add
estimate-after_add_other s key other n h =
    let max = limit s.counter in
    least_of-grows max s.num_cols key other 0 max (change max (pos n)) s.matrix (change-grows max n)
      h.rows max (omega arith)

estimate_step :
    (s : Sketch) (key other n : ℕ)
    → IsSketch s
    → min (limit s.counter) (estimate s key + (if other == key then n else 0))
      ≤ estimate (after_add s other (pos n)) key
estimate_step s key other n h = elim (Bool-cases (other == key)) [
  | inl e ↦
      rw (e, ap (λ k. estimate (after_add s k (pos n)) key) ((==_iff other key).0 e))
        (omega (arith, estimate-after_add_self s key n h))
  | inr e ↦ rw e (omega (arith, estimate-after_add_other s other key n h))
]

counts_from :
    (s : Sketch) (t key : ℕ) (calls : List (ℕ × ℕ))
    → IsSketch s
    → s.sum_counts ≡ pos t
    → t + sum calls < 2 ^ 62
    → (s' : Sketch) × (add_all s calls ≡ ok s')
      × (s'.counter ≡ s.counter)
      × IsSketch s'
      × (min (limit s.counter) (estimate s key + total key calls) ≤ estimate s' key)
unfolding add_all total sum after_add
counts_from s t key [] h e b = (s, refl, refl, h, omega arith)
counts_from s t key ((other, n) ∷ calls) h e b =
    let sums : s.sum_counts +ℤ pos n ≡ pos (t + n) = ap (λ z. z +ℤ pos n) e in
    let fits = ap fits64 sums ∙ fits_small (t + n) (omega arith) in
    let added =
      add_count-get_count s other (pos n) h (small-IsIncrement s.counter n (omega arith)) fits in
    let later =
      counts_from (after_add s other (pos n)) (t + n) key calls
        (after_add-IsSketch s other (pos n) h) sums (omega arith) in
    (
      later.0,
      ap (λ o. o >>= λ r. add_all r.0 calls) added.2 ∙ later.1,
      later.2,
      later.3,
      ground (arith, estimate_step s key other n h, later.4),
    )

abbrev fresh : Counter → ℕ → ℕ → Sketch
fresh counter cols num_rows = record {
  counter = counter;
  num_cols = cols;
  matrix = replicate num_rows (replicate cols 0);
  sum_counts = pos 0;
}

rows_of_zeros : (max cols num_rows : ℕ) → AreRows max cols (replicate num_rows (replicate cols 0))
rows_of_zeros max cols zero = tt
rows_of_zeros max cols (suc n) = (
  (length-replicate cols 0, λ i. omega (arith, get_or-replicate {A = ℕ} cols i 0)),
  rows_of_zeros max cols n,
)

fresh-IsSketch :
    (counter : Counter) (cols num_rows : ℕ)
    → 0 < cols
    → 0 < num_rows
    → IsSketch (fresh counter cols num_rows)
fresh-IsSketch counter cols n h k = record {
  columns = h;
  some_row = omega (arith, length-replicate n (replicate {A = ℕ} cols 0));
  rows = rows_of_zeros (limit counter) cols n;
}

quotient_below : (x m : ℕ) → x / m ≤ x
quotient_below x m = grind arith

some_memory : (mem size n : ℕ) → 0 < mem / size / n → 0 < mem
some_memory mem size n h = omega (arith, quotient_below mem size, quotient_below (mem / size) n)

not_zero : (n : ℕ) → 0 < n → (n == 0) ≡ false
not_zero n h = ground arith

create_sketch-fresh :
    (counter : Counter) (mem num_rows : ℕ)
    → 0 < num_rows
    → 0 < mem / size_of counter / num_rows
    → create_sketch counter mem num_rows
      ≡ ok (fresh counter (mem / size_of counter / num_rows) num_rows)
unfolding create_sketch
create_sketch-fresh counter mem n h k =
    let some_bytes = some_memory mem (size_of counter) n k in
    rw (not_zero n h, lt→ltb 0 mem some_bytes, lt→ltb 0 (mem / size_of counter / n) k) refl

-- From the constructor on, where the keys are counted up by less than 2 ^ 62 together, every call
-- succeeds and GetCount gives at least what the key was counted up by, or the limit of the counters.
-- The memory is enough for one column at least.
pub never_underestimates :
    (counter : Counter) (mem_budget_bytes num_rows key : ℕ) (calls : List (ℕ × ℕ))
    → 0 < num_rows
    → 0 < mem_budget_bytes / size_of counter / num_rows
    → sum calls < 2 ^ 62
    → (s : Sketch) × (s' : Sketch) × (count : ℕ) × (create_sketch counter mem_budget_bytes num_rows
        ≡ ok s)
      × (add_all s calls ≡ ok s')
      × (get_count s' key ≡ ok count)
      × (min (limit counter) (total key calls) ≤ count)
never_underestimates counter mem n key calls h k b =
    let cols = mem / size_of counter / n in
    let s = fresh counter cols n in
    let later = counts_from s 0 key calls (fresh-IsSketch counter cols n k h) refl (omega arith) in
    (
      s,
      later.0,
      estimate later.0 key,
      create_sketch-fresh counter mem n h k,
      later.1,
      get_count-estimate later.0 key later.3,
      omega (arith, later.4),
    )
