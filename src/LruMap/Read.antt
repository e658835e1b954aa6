-- ===== src/LruMap/Read.antt =====
-- What can be read from an LruMap (data-struct/lru_map.h) after a Put.
use mathlib.Core.Logic.{if_pos, if_neg}
use cpp_base.Prelude.{
  ℕ, ◌<◌, ◌≤◌, ◌≡◌, ◌≢◌, refl, Bool, Option, some, List, [], ◌∷◌, arith, ok, ap, sym, ◌∙◌, ◌==◌,
  length, Bool-cases, inl, inr, Option-cases,
}
use cpp_base.LruMap.{LruMap, put, get_without_touch}
use cpp_base.LruMap.Order.{value_of, put_order, without, put_order_hit, put_order_room, newest}
use cpp_base.LruMap.Nodes.{entries, length-entries}
use cpp_base.LruMap.Validity.{IsValid}
use cpp_base.LruMap.Refine.{get_without_touch-refines}
use cpp_base.LruMap.Put.{put-refines}

module _ {ℓ} {K V : Type ℓ} (dec : Discrete K) where
  value_of_head : (k : K) (w : V) (l : List (K × V)) → value_of dec k ((k, w) ∷ l) ≡ some w
  unfolding value_of
  value_of_head k w l = rw (if_pos (dec k k) refl)

  value_of-without_ne :
      (k q : K) (l : List (K × V)) → q ≢ k → value_of dec q (without dec k l) ≡ value_of dec q l
  unfolding value_of without
  value_of-without_ne k q [] h = refl
  value_of-without_ne k q ((j, v) ∷ l) h = ground (arith, value_of-without_ne k q l)

  pub put_order_self :
      (limit : ℕ) (l : List (K × V)) (k : K) (w : V)
      → value_of dec k (put_order dec limit l k w).0 ≡ some w
  unfolding put_order
  put_order_self limit l k w = elim (Option-cases (value_of dec k l)) [
    | inr (x, e) ↦ rw (put_order_hit dec l k limit x w e) (value_of_head k w (without dec k l))
    | inl e ↦
        rw (e, put_order)
          (elim (Bool-cases (length l == limit)) [
            | inl full ↦ rw full (value_of_head k w (newest l))
            | inr room ↦ rw room (value_of_head k w l)
          ])
  ]

  put_order_ne :
      (limit : ℕ) (l : List (K × V)) (k q : K) (w : V)
      → q ≢ k
      → length l < limit
      → value_of dec q (put_order dec limit l k w).0 ≡ value_of dec q l
  unfolding value_of
  put_order_ne limit l k q w h r = elim (Option-cases (value_of dec k l)) [
    | inr (x, e) ↦
        rw (put_order_hit dec l k limit x w e)
          (rw (if_neg (dec k q) (λ p. h (sym p))) (value_of-without_ne k q l h))
    | inl e ↦
        rw (put_order_room dec l k limit w e (ground arith))
          (rw (if_neg (dec k q) (λ p. h (sym p))))
  ]

  module _ (m : LruMap K V) (k : K) (w : V) where
    -- After a Put the map is within its bound, and the key has the value.
    pub get-put_self :
        IsValid dec m
        → 0 < m.capacity
        → (m' : LruMap K V) × (existed : Bool) × (evicted : Option V) × (put dec m k w
            ≡ ok (m', existed, evicted))
          × (m'.size ≤ m.capacity)
          × (get_without_touch dec m' k ≡ ok (some w))
    get-put_self v p =
        let (m', ran, h) = put-refines dec m v k w p in
        (
          m',
          (put_order dec m.capacity (entries m.nodes) k w).1,
          (put_order dec m.capacity (entries m.nodes) k w).2,
          ran,
          omega (arith, h.valid.bounded, h.same_capacity),
          get_without_touch-refines dec m' h.valid k
              ∙ ap (λ l. ok (value_of dec k l)) h.holds
              ∙ ap ok (put_order_self m.capacity (entries m.nodes) k w),
        )

    -- A Put that finds room leaves every other key's value as it was.
    pub get-put_ne :
        (q : K)
        → IsValid dec m
        → m.size < m.capacity
        → q ≢ k
        → (m' : LruMap K V) × (existed : Bool) × (evicted : Option V) × (put dec m k w
            ≡ ok (m', existed, evicted))
          × (get_without_touch dec m' q ≡ get_without_touch dec m q)
    get-put_ne q v p n =
        let (m', ran, h) = put-refines dec m v k w (omega arith) in
        (
          m',
          (put_order dec m.capacity (entries m.nodes) k w).1,
          (put_order dec m.capacity (entries m.nodes) k w).2,
          ran,
          get_without_touch-refines dec m' h.valid q
              ∙ ap (λ l. ok (value_of dec q l)) h.holds
              ∙ ap ok (
                  put_order_ne m.capacity (entries m.nodes) k q w n
                    (omega (arith, length-entries m.nodes, v.sized)))
              ∙ sym (get_without_touch-refines dec m v q),
        )
