-- ===== src/CountMinSketch/Rows.antt =====
-- The loops over the rows of a count-min sketch (data-struct/count_min_sketch.h) without failures.
use cpp_base.Prelude.{
  load_in, mod_int_in, set-le, ℕ, zero, suc, ◌+◌, ◌%◌, ◌≤◌, ◌<◌, ◌≡◌, refl, min, arith, ap, ◌∙◌,
  sym, true, List, [], ◌∷◌, length, length-set, get_or, get_or-set_self, set, All, ok, ltb, leb,
  if◌then◌else◌, ℤ, pos, ◌+ℤ◌, fits64, add_int64, Bool-cases, inl, inr,
}
use cpp_base.Hash.{hash64_num_with_seed}
use cpp_base.CountMinSketch.{get_rows, add_rows, clamp}

abbrev pub AreRows : ℕ → ℕ → List (List ℕ) → Type 0
AreRows max cols matrix =
    All (λ cells. (length cells ≡ cols) × ((i : ℕ) → get_or cells i 0 ≤ max)) matrix

-- The column that a key has in a row, and the count there.
abbrev pub column : ℕ → ℕ → ℕ → ℕ
column cols key row = hash64_num_with_seed key (row + 1) % cols

abbrev pub cell : ℕ → ℕ → ℕ → List ℕ → ℕ
cell cols key row cells = get_or cells (column cols key row) 0

unfoldable pub least_of : ℕ → ℕ → ℕ → ℕ → List (List ℕ) → ℕ
least_of cols key row least [] = least
least_of cols key row least (cells ∷ matrix) =
    least_of cols key (row + 1) (min least (cell cols key row cells)) matrix

unfoldable pub raised : (ℕ → ℕ) → ℕ → ℕ → ℕ → List (List ℕ) → List (List ℕ)
raised f cols key row [] = []
raised f cols key row (cells ∷ matrix) =
    set cells (column cols key row) (f (cell cols key row cells))
    ∷ raised f cols key (row + 1) matrix

abbrev pub change : ℕ → ℤ → ℕ → ℕ
change max inc count = clamp max (pos count +ℤ inc)

pub mod-below : (x cols : ℕ) → 0 < cols → x % cols < cols
mod-below x cols h = grind arith

pub get_rows-least_of :
    (max cols key row least : ℕ) (matrix : List (List ℕ))
    → 0 < cols
    → AreRows max cols matrix
    → get_rows cols key row least matrix ≡ ok (least_of cols key row least matrix)
unfolding get_rows least_of
get_rows-least_of max cols key row least [] h k = refl
get_rows-least_of max cols key row least (cells ∷ matrix) h ((n, _), ks) =
    let inside : column cols key row < length cells =
      omega (arith, mod-below (hash64_num_with_seed key (row + 1)) cols h, n) in
    rw
      (
        mod_int_in (hash64_num_with_seed key (row + 1)) cols h,
        load_in cells (column cols key row) 0 inside,
      )
      (get_rows-least_of max cols key (row + 1) _ matrix h ks)

smaller : (a b : ℕ) → (if ltb a b then a else b) ≡ min b a
smaller a b = ground arith

add_int64_in : (a b : ℤ) → fits64 (a +ℤ b) ≡ true → add_int64 a b ≡ ok (a +ℤ b)
add_int64_in a b h = rw h refl

-- The sum of a count and the increment is an `int64`.
abbrev pub IsIncrement : ℕ → ℤ → Type 0
IsIncrement max inc = (count : ℕ) → count ≤ max → fits64 (pos count +ℤ inc) ≡ true

pub add_rows-raised :
    (max cols key : ℕ) (inc : ℤ) (row least : ℕ) (matrix : List (List ℕ))
    → 0 < cols
    → IsIncrement max inc
    → AreRows max cols matrix
    → add_rows max cols key inc row least matrix
      ≡ ok (
        raised (change max inc) cols key row matrix,
        least_of cols key row least (raised (change max inc) cols key row matrix),
      )
unfolding add_rows raised least_of
add_rows-raised max cols key inc row least [] h p k = refl
add_rows-raised max cols key inc row least (cells ∷ matrix) h p ((n, bound), ks) =
    let col = column cols key row in
    let count = get_or cells col 0 in
    let inside : col < length cells =
      omega (arith, mod-below (hash64_num_with_seed key (row + 1)) cols h, n) in
    rw
      (
        mod_int_in (hash64_num_with_seed key (row + 1)) cols h,
        load_in cells col 0 inside,
        add_int64_in (pos count) inc (p count (bound col)),
        smaller (change max inc count) least,
        add_rows-raised max cols key inc (row + 1) (min least (change max inc count)) matrix h p ks,
      )
      (ap
        (λ v. ok (
          set cells col (change max inc count) ∷ raised (change max inc) cols key (row + 1) matrix,
          least_of cols key (row + 1) (min least v)
              (raised (change max inc) cols key (row + 1) matrix),
        ))
        (sym (get_or-set_self cells col (change max inc count) 0 inside)))

pub raised-AreRows :
    (max cols key row : ℕ) (f : ℕ → ℕ) (matrix : List (List ℕ))
    → ((count : ℕ) → f count ≤ max)
    → AreRows max cols matrix
    → AreRows max cols (raised f cols key row matrix)
unfolding raised
raised-AreRows max cols key row f [] h k = tt
raised-AreRows max cols key row f (cells ∷ matrix) h ((n, bound), ks) =
    let col = column cols key row in
    let value = f (cell cols key row cells) in
    (
      (length-set cells col value ∙ n, λ i. set-le max cells col i value (h _) bound),
      raised-AreRows max cols key (row + 1) f matrix h ks,
    )

-- A function that keeps the order of counts.
abbrev pub IsMonotone : (ℕ → ℕ) → Type 0
IsMonotone f = (a b : ℕ) → a ≤ b → f a ≤ f b

min-monotone : (f : ℕ → ℕ) (a b : ℕ) → IsMonotone f → f (min a b) ≡ min (f a) (f b)
min-monotone f a b h = elim (Bool-cases (leb a b)) [
  | inl e ↦
      let below : a ≤ b = ground arith in
      ap f {x = min a b} {y = a} (omega arith) ∙ omega (arith, h a b below)
  | inr e ↦
      let above : b ≤ a = ground arith in
      ap f {x = min a b} {y = b} (omega arith) ∙ omega (arith, h b a above)
]

pub least_of-raised :
    (max cols key row least : ℕ) (f : ℕ → ℕ) (matrix : List (List ℕ))
    → 0 < cols
    → IsMonotone f
    → AreRows max cols matrix
    → least_of cols key row (f least) (raised f cols key row matrix)
      ≡ f (least_of cols key row least matrix)
unfolding least_of raised
least_of-raised max cols key row least f [] h m k = refl
least_of-raised max cols key row least f (cells ∷ matrix) h m ((n, bound), ks) =
    let col = column cols key row in
    let count = get_or cells col 0 in
    let inside : col < length cells =
      omega (arith, mod-below (hash64_num_with_seed key (row + 1)) cols h, n) in
    ap (λ v. least_of cols key (row + 1) v (raised f cols key (row + 1) matrix))
      (ap (min (f least)) (get_or-set_self cells col (f count) 0 inside)
        ∙ sym (min-monotone f least count m))
    ∙ least_of-raised max cols key (row + 1) (min least count) f matrix h m ks

set_grows : (xs : List ℕ) (i j v : ℕ) → get_or xs i 0 ≤ v → get_or xs j 0 ≤ get_or (set xs i v) j 0
set_grows [] i j v h = omega arith
set_grows (x ∷ xs) zero zero v h = h
set_grows (x ∷ xs) zero (suc j) v h = omega arith
set_grows (x ∷ xs) (suc i) zero v h = omega arith
set_grows (x ∷ xs) (suc i) (suc j) v h = set_grows xs i j v h

-- Another key's counts do not fall where no count falls.
pub least_of-grows :
    (max cols key other row least : ℕ) (f : ℕ → ℕ) (matrix : List (List ℕ))
    → ((count : ℕ) → count ≤ max → count ≤ f count)
    → AreRows max cols matrix
    → (least' : ℕ) → least ≤ least'
    → least_of cols other row least matrix
      ≤ least_of cols other row least' (raised f cols key row matrix)
unfolding least_of raised
least_of-grows max cols key other row least f [] h k least' e = e
least_of-grows max cols key other row least f (cells ∷ matrix) h ((n, bound), ks) least' e =
    let grown =
      set_grows cells (column cols key row) (column cols other row) (f (cell cols key row cells))
        (h _ (bound (column cols key row))) in
    least_of-grows max cols key other (row + 1) _ f matrix h ks _ (omega (arith, e, grown))
