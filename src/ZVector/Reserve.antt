-- ===== src/ZVector/Reserve.antt =====
-- Reserve of data-struct/zvector.h, branch by branch.
use cpp_base.Prelude.{
  ℕ, ◌+◌, ◌-◌, ◌^◌, ◌≤◌, ◌<◌, ◌≡◌, ◌⊎◌, refl, ap, ◌∙◌, arith, Bool, true, false, ◌&&◌, ◌||◌, Option,
  none, some, List, length, replicate, ltb, leb, ok, undefined, length-replicate, le→leb,
}
use cpp_base.ZVector.{Storage, ZVector, value, allocate, copy_cells, moved, reserve}
use cpp_base.ZVector.Access.{IsWithin, cell_at, value_in}
use cpp_base.ZVector.Copy.{copied, length-copied, get_or-copied}

module _ {ℓ} {A : Type ℓ} (available : ℕ → Bool) where
  -- The indices get fewer, or stay: the block of memory stays where it is.
  abbrev pub shrunk : ZVector A → ℕ → ℕ → ZVector A
  shrunk z lo hi = record z { min_index = lo; max_index = hi; size = hi - lo + 1 }

  pub reserve_shrinks :
      (z : ZVector A) (s : Storage A) (lo hi : ℕ)
      → IsWithin z s
      → z.min_index ≤ lo
      → lo ≤ hi
      → hi ≤ z.max_index
      → hi - lo + 1 < 2 ^ 63
      → (reserve available z lo hi ≡ ok (true, shrunk z lo hi)) × IsWithin (shrunk z lo hi) s
  unfolding reserve
  reserve_shrinks z s lo hi h a b c d =
      let t1 : ltb hi lo ≡ false = ground arith in
      let t2 : leb (2 ^ 63) (hi - lo + 1) ≡ false = ground arith in
      (
        rw (t1, t2, h.storage_is, le→leb z.min_index lo a, le→leb hi z.max_index c)
            (ap
              (λ o.
                ok (
                  true,
                  record { min_index = lo; max_index = hi; size = hi - lo + 1; storage = o },
                ))
              h.storage_is),
        record {
          storage_is = h.storage_is;
          origin_le = omega (arith, h.origin_le);
          ordered = b;
          size_is = refl;
          max_lt = omega (arith, h.max_lt);
        },
      )

  abbrev pub fresh : ℕ → ℕ → List (Option A)
  fresh lo hi = replicate (hi - lo + 1) none

  abbrev pub grown_cells : ZVector A → Storage A → ℕ → ℕ → List (Option A)
  grown_cells z s lo hi = copied (fresh lo hi) (z.min_index - lo) s.cells z.size

  copy_fits :
      (z : ZVector A) (s : Storage A) (lo hi : ℕ)
      → IsWithin z s
      → lo ≤ z.min_index
      → z.max_index ≤ hi
      → (z.size ≤ length s.cells) × (z.min_index - lo + z.size ≤ length (fresh lo hi))
  copy_fits z s lo hi h a b = (
    omega (arith, h.max_lt, h.origin_le, h.size_is, h.ordered),
    omega (arith, h.size_is, h.ordered, length-replicate {A = Option A} (hi - lo + 1) none),
  )

  -- More indices than before: a new block, to whose place for the least index the old block is copied
  -- from its first cell on.
  pub reserve_grows :
      (z : ZVector A) (s : Storage A) (lo hi : ℕ)
      → IsWithin z s
      → lo ≤ z.min_index
      → z.max_index ≤ hi
      → (lo < z.min_index) ⊎ (z.max_index < hi)
      → hi - lo + 1 < 2 ^ 63
      → available (hi - lo + 1) ≡ true
      → reserve available z lo hi ≡ ok (true, moved lo hi (grown_cells z s lo hi))
  unfolding reserve allocate copy_cells
  reserve_grows z s lo hi h a b more d memory =
      let t1 : ltb hi lo ≡ false = ground (arith, h.ordered) in
      let t2 : leb (2 ^ 63) (hi - lo + 1) ≡ false = ground arith in
      let t3 : (leb z.min_index lo && leb hi z.max_index) ≡ false = ground arith in
      let t4 : (ltb z.min_index lo || ltb hi z.max_index) ≡ false = ground arith in
      let fits = copy_fits z s lo hi h a b in
      rw (t1, t2, h.storage_is, t3, t4, memory, le→leb _ _ fits.0, le→leb _ _ fits.1) refl

  pub moved-IsWithin :
      (lo hi : ℕ) (cells : List (Option A))
      → lo ≤ hi
      → length cells ≡ hi - lo + 1
      → IsWithin (moved lo hi cells) (record { origin = lo; cells = cells })
  unfolding moved
  moved-IsWithin lo hi cells h e = record {
    storage_is = refl;
    origin_le = omega arith;
    ordered = h;
    size_is = refl;
    max_lt = omega (arith, e);
  }

  -- The element that is then found at an old index, counted from the least one.
  pub value-moved :
      (z : ZVector A) (s : Storage A) (lo hi k : ℕ)
      → IsWithin z s
      → lo ≤ z.min_index
      → z.max_index ≤ hi
      → k < z.size
      → value (moved lo hi (grown_cells z s lo hi)) (z.min_index + k) ≡ cell_at s k
  unfolding moved
  value-moved z s lo hi k h a b j =
      let fits = copy_fits z s lo hi h a b in
      let cells = grown_cells z s lo hi in
      let block : Storage A = record { origin = lo; cells = cells } in
      let size = length-copied (fresh lo hi) s.cells (z.min_index - lo) z.size fits.0 fits.1 in
      let within =
        moved-IsWithin lo hi cells (omega (arith, h.ordered))
          (size ∙ length-replicate (hi - lo + 1) none) in
      ap (value (moved lo hi cells)) {x = z.min_index + k} {y = lo + (z.min_index - lo + k)}
        (omega arith)
      ∙ value_in (moved lo hi cells) block (z.min_index - lo + k) within (omega arith)
          (omega (arith, h.size_is, h.ordered))
      ∙ ap (λ c. elim c [ none ↦ undefined | some e ↦ ok e ])
          (get_or-copied (fresh lo hi) s.cells (z.min_index - lo) z.size k none fits.0 fits.1 j)

  pub grown_cells-IsWithin :
      (z : ZVector A) (s : Storage A) (lo hi : ℕ)
      → IsWithin z s
      → lo ≤ z.min_index
      → z.max_index ≤ hi
      → IsWithin
          (moved lo hi (grown_cells z s lo hi))
          (record { origin = lo; cells = grown_cells z s lo hi })
  grown_cells-IsWithin z s lo hi h a b =
      let fits = copy_fits z s lo hi h a b in
      moved-IsWithin lo hi (grown_cells z s lo hi) (omega (arith, h.ordered)) (
        length-copied (fresh lo hi) s.cells (z.min_index - lo) z.size fits.0 fits.1
        ∙ length-replicate (hi - lo + 1) none)
