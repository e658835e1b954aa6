-- ===== src/ZVector/Access.antt =====
-- Value and Set of data-struct/zvector.h.
use cpp_base.Prelude.{
  ℕ, ◌+◌, ◌-◌, ◌≤◌, ◌<◌, ◌≡◌, ◌≢◌, refl, ap, ◌∙◌, sym, arith, false, none, some, length, ltb,
  Outcome, ok, undefined, ◌>>=◌, load_in, store_in, set, get_or, get_or-set_self, get_or-set_ne,
  length-set, le→leb,
}
use cpp_base.ZVector.{Storage, ZVector, read_cell, write_cell, checked, value, set_value}

module _ {ℓ} {A : Type ℓ} where
  -- The indices of the vector lie within its block of memory.
  pub record IsWithin (z : ZVector A) (s : Storage A) : Type ℓ where
    pub storage_is : z.storage ≡ some s
    pub origin_le : s.origin ≤ z.min_index
    pub ordered : z.min_index ≤ z.max_index
    pub size_is : z.size ≡ z.max_index - z.min_index + 1
    pub max_lt : z.max_index < s.origin + length s.cells

  abbrev pub cell_at : Storage A → ℕ → Outcome A
  cell_at s k = elim (get_or s.cells k none) [ none ↦ undefined | some a ↦ ok a ]

  pub read_cell_in :
      (s : Storage A) (k : ℕ) → k < length s.cells → read_cell s (s.origin + k) ≡ cell_at s k
  unfolding read_cell
  read_cell_in s k h =
      let t : ltb (s.origin + k) s.origin ≡ false = ground arith in
      let e : s.origin + k - s.origin ≡ k = omega arith in rw (t, e, load_in s.cells k none h) refl

  pub checked_in :
      (z : ZVector A) (s : Storage A) (index : ℕ)
      → z.storage ≡ some s
      → z.min_index ≤ index
      → index ≤ z.max_index
      → checked z index ≡ ok s
  unfolding checked
  checked_in z s index e lo hi =
      rw (le→leb z.min_index index lo, le→leb index z.max_index hi, e) refl

  -- An access within the indices of the vector reads its cell.
  pub value_in :
      (z : ZVector A) (s : Storage A) (k : ℕ)
      → IsWithin z s
      → z.min_index ≤ s.origin + k
      → s.origin + k ≤ z.max_index
      → value z (s.origin + k) ≡ cell_at s k
  unfolding value
  value_in z s k h lo hi =
      ap (λ o. o >>= λ t. read_cell t (s.origin + k))
        (checked_in z s (s.origin + k) h.storage_is lo hi)
      ∙ read_cell_in s k (omega (arith, h.max_lt))

  abbrev with_cell : Storage A → ℕ → A → Storage A
  with_cell s k a = record s { cells = set s.cells k (some a) }

  abbrev with_value : ZVector A → Storage A → ℕ → A → ZVector A
  with_value z s k a = record z { storage = some (with_cell s k a) }

  write_cell_in :
      (s : Storage A) (k : ℕ) (a : A)
      → k < length s.cells
      → write_cell s (s.origin + k) a ≡ ok (with_cell s k a)
  unfolding write_cell
  write_cell_in s k a h =
      let t : ltb (s.origin + k) s.origin ≡ false = ground arith in
      let e : s.origin + k - s.origin ≡ k = omega arith in
      rw (t, e, store_in s.cells k (some a) h) refl

  set_value_in :
      (z : ZVector A) (s : Storage A) (k : ℕ) (a : A)
      → IsWithin z s
      → z.min_index ≤ s.origin + k
      → s.origin + k ≤ z.max_index
      → set_value z (s.origin + k) a ≡ ok (with_value z s k a)
  unfolding set_value
  set_value_in z s k a h lo hi =
      ap
        (λ o.
          o >>= λ t. write_cell t (s.origin + k) a >>= λ s'. ok (record z { storage = some s' }))
        (checked_in z s (s.origin + k) h.storage_is lo hi)
      ∙ ap (λ o. o >>= λ s'. ok (record z { storage = some s' }))
          (write_cell_in s k a (omega (arith, h.max_lt)))

  with_value-IsWithin :
      (z : ZVector A) (s : Storage A) (k : ℕ) (a : A)
      → IsWithin z s
      → IsWithin (with_value z s k a) (with_cell s k a)
  with_value-IsWithin z s k a h = record {
    storage_is = refl;
    origin_le = h.origin_le;
    ordered = h.ordered;
    size_is = h.size_is;
    max_lt = omega (arith, h.max_lt, length-set s.cells k (some a));
  }

  -- Set at an index of the vector succeeds and keeps the indices; Value then gives the new value at
  -- that index, and at every other index of the vector what it gave before.
  pub value-set_value :
      (z : ZVector A) (s : Storage A) (i j : ℕ) (a : A)
      → IsWithin z s
      → z.min_index ≤ i
      → i ≤ z.max_index
      → z.min_index ≤ j
      → j ≤ z.max_index
      → i ≢ j
      → (z' : ZVector A) × (s' : Storage A) × (set_value z i a ≡ ok z')
        × IsWithin z' s'
        × (value z' i ≡ ok a)
        × (value z' j ≡ value z j)
  value-set_value z s i j a h lo hi jlo jhi ne =
      let k = i - s.origin in
      let l = j - s.origin in
      let at : s.origin + k ≡ i = omega (arith, h.origin_le) in
      let at' : s.origin + l ≡ j = omega (arith, h.origin_le) in
      let z' = with_value z s k a in
      let h' = with_value-IsWithin z s k a h in
      let in_k : k < length s.cells = omega (arith, h.max_lt, h.origin_le) in
      (
        z',
        with_cell s k a,
        ap (λ m. set_value z m a) (sym at)
            ∙ set_value_in z s k a h (omega (arith, at)) (omega (arith, at)),
        h',
        ap (value z') (sym at)
            ∙ value_in z' (with_cell s k a) k h' (omega (arith, at)) (omega (arith, at))
            ∙ ap (λ c. elim c [ none ↦ undefined | some b ↦ ok b ])
                (get_or-set_self s.cells k (some a) none in_k),
        ap (value z') (sym at')
            ∙ value_in z' (with_cell s k a) l h' (omega (arith, at')) (omega (arith, at'))
            ∙ ap (λ c. elim c [ none ↦ undefined | some b ↦ ok b ])
                (get_or-set_ne s.cells k l (some a) none (λ e. ne (omega (arith, e, at, at'))))
            ∙ sym (
                ap (value z) (sym at')
                ∙ value_in z s l h (omega (arith, at')) (omega (arith, at'))),
      )
