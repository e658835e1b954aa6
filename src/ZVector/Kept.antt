-- ===== src/ZVector/Kept.antt =====
-- What calls of Reserve of data-struct/zvector.h keep of a vector.
use cpp_base.Prelude.{ℕ, ◌+◌, ◌-◌, ◌^◌, ◌≤◌, ◌<◌, ◌≡◌, ◌⊎◌, ap, ◌∙◌, sym, arith, Bool, true, ok}
use cpp_base.ZVector.{Storage, ZVector, value, moved, reserve}
use cpp_base.ZVector.Access.{IsWithin, value_in}
use cpp_base.ZVector.Reserve.{shrunk, reserve_shrinks, grown_cells, reserve_grows, value-moved}

module _ {ℓ} {A : Type ℓ} (available : ℕ → Bool) where
  -- Where the block of memory begins at the least index, Reserve for more indices keeps every element.
  pub reserve_keeps :
      (z : ZVector A) (s : Storage A) (lo hi i : ℕ)
      → IsWithin z s
      → s.origin ≡ z.min_index
      → lo ≤ z.min_index
      → z.max_index ≤ hi
      → (lo < z.min_index) ⊎ (z.max_index < hi)
      → hi - lo + 1 < 2 ^ 63
      → available (hi - lo + 1) ≡ true
      → z.min_index ≤ i
      → i ≤ z.max_index
      → (z' : ZVector A) × (reserve available z lo hi ≡ ok (true, z')) × (value z' i ≡ value z i)
  reserve_keeps z s lo hi i h e a b more d memory p q = (
    moved lo hi (grown_cells available z s lo hi),
    reserve_grows available z s lo hi h a b more d memory,
    ap (value (moved lo hi (grown_cells available z s lo hi))) {x = i}
          {y = z.min_index + (i - z.min_index)} (omega arith)
        ∙ value-moved available z s lo hi (i - z.min_index) h a b (omega (arith, h.size_is))
        ∙ sym (
            ap (value z) {x = i} {y = s.origin + (i - z.min_index)} (omega (arith, e))
            ∙ value_in z s (i - z.min_index) h (omega (arith, e)) (omega (arith, e))),
  )

  -- After a Reserve that gives up the lowest indices and keeps every other element, a Reserve for more
  -- indices moves the elements: at the least index is then the element of the least index before both.
  pub reserve_twice :
      (z : ZVector A) (s : Storage A) (m lo hi k : ℕ)
      → IsWithin z s
      → s.origin ≡ z.min_index
      → z.min_index < m
      → lo ≤ m
      → z.max_index ≤ hi
      → (lo < m) ⊎ (z.max_index < hi)
      → hi - lo + 1 < 2 ^ 63
      → available (hi - lo + 1) ≡ true
      → m + k ≤ z.max_index
      → (z1 : ZVector A) × (z2 : ZVector A) × (reserve available z m z.max_index ≡ ok (true, z1))
        × (reserve available z1 lo hi ≡ ok (true, z2))
        × (value z1 (m + k) ≡ value z (m + k))
        × (value z2 (m + k) ≡ value z (z.min_index + k))
  reserve_twice z s m lo hi k h e p a b more d memory q =
      let done =
        reserve_shrinks available z s m z.max_index h (omega arith) (omega arith) (omega arith)
          (omega arith) in
      let z1 = shrunk available z m z.max_index in
      let place : s.origin + (m + k - s.origin) ≡ m + k = omega (arith, e) in
      (
        z1,
        moved lo hi (grown_cells available z1 s lo hi),
        done.0,
        reserve_grows available z1 s lo hi done.1 a b more d memory,
        ap (value z1) (sym place)
            ∙ value_in z1 s (m + k - s.origin) done.1 (omega (arith, place)) (omega (arith, place))
            ∙ sym (
                ap (value z) (sym place)
                ∙ value_in z s (m + k - s.origin) h (omega (arith, place)) (omega (arith, place))),
        value-moved available z1 s lo hi k done.1 a b (omega arith)
            ∙ sym (
                ap (value z) {x = z.min_index + k} {y = s.origin + k} (omega (arith, e))
                ∙ value_in z s k h (omega (arith, e)) (omega (arith, e))),
      )
