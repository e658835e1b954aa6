-- ===== src/LruMap/Run.antt =====
-- Sequences of calls of LruMap and LruSet (data-struct/lru_map.h, data-struct/lru_set.h).
use cpp_base.Prelude.{ℕ, ◌<◌, ◌≡◌, refl, Bool, Option, List, [], ◌∷◌, arith, Outcome, ok, ◌>>=◌}
use cpp_base.LruMap.{LruMap, put, get_without_touch, get_with_touch, erase, create_lru}
use cpp_base.LruMap.Order.{value_of, put_order, touch_order, erase_order}
use cpp_base.LruMap.Nodes.{entries, IdsDistinct, IdsBelow}
use cpp_base.LruMap.Keys.{KeysDistinct, locate}
use cpp_base.LruMap.Validity.{IsValid}
use cpp_base.LruMap.Refine.{get_without_touch-refines, touch-refines, erase-refines}
use cpp_base.LruMap.Put.{put-refines}

pub data Call {ℓ} (K V : Type ℓ) : Type ℓ where
  call_put : K → V → Call K V
  call_get : K → Call K V
  call_touch : K → Call K V
  call_erase : K → Call K V

pub data Answer {ℓ} (V : Type ℓ) : Type ℓ where
  did_put : Bool → Option V → Answer V
  did_find : Option V → Answer V

module _ {ℓ} {K V : Type ℓ} (dec : Discrete K) where
  unfoldable pub run_lru : LruMap K V → List (Call K V) → Outcome (List (Answer V))
  run_lru m [] = ok []
  run_lru m (call_put k v ∷ cs) = do
    (m', existed, evicted) ← put dec m k v
    rest ← run_lru m' cs
    ok (did_put existed evicted ∷ rest)
  run_lru m (call_get k ∷ cs) = do
    value ← get_without_touch dec m k
    rest ← run_lru m cs
    ok (did_find value ∷ rest)
  run_lru m (call_touch k ∷ cs) = do
    (m', value) ← get_with_touch dec m k
    rest ← run_lru m' cs
    ok (did_find value ∷ rest)
  run_lru m (call_erase k ∷ cs) = do
    (m', value) ← erase dec m k
    rest ← run_lru m' cs
    ok (did_find value ∷ rest)

  unfoldable pub run_order : ℕ → List (K × V) → List (Call K V) → List (Answer V)
  run_order limit l [] = []
  run_order limit l (call_put k v ∷ cs) =
      let (l', existed, evicted) = put_order dec limit l k v in
      did_put existed evicted ∷ run_order limit l' cs
  run_order limit l (call_get k ∷ cs) = did_find (value_of dec k l) ∷ run_order limit l cs
  run_order limit l (call_touch k ∷ cs) =
      let (l', value) = touch_order dec l k in did_find value ∷ run_order limit l' cs
  run_order limit l (call_erase k ∷ cs) =
      let (l', value) = erase_order dec l k in did_find value ∷ run_order limit l' cs

  pub create-IsValid : (capacity : ℕ) → IsValid {V = V} dec (create_lru capacity)
  unfolding create_lru IdsDistinct IdsBelow KeysDistinct locate
  create-IsValid capacity = record {
    ids = tt;
    below = tt;
    keys = tt;
    finds = λ k. refl;
    sized = refl;
    bounded = omega arith;
  }

  -- Any sequence of calls on a valid map with room for an entry is answered as the contract says:
  -- no CHECK fails, no dangling iterator is followed, and the least recent entry is evicted.
  pub run_lru-refines :
      (m : LruMap K V) (cs : List (Call K V))
      → IsValid dec m
      → 0 < m.capacity
      → run_lru m cs ≡ ok (run_order m.capacity (entries m.nodes) cs)
  unfolding run_lru run_order
  run_lru-refines m [] v p = refl
  run_lru-refines m (call_put k w ∷ cs) v p =
      let (m', ran, h) = put-refines dec m v k w p in
      let ih : run_lru m' cs ≡ ok (run_order m'.capacity (entries m'.nodes) cs) =
        run_lru-refines m' cs h.valid (omega (arith, h.same_capacity)) in
      rw (ran, ih, h.same_capacity, h.holds)
  run_lru-refines m (call_get k ∷ cs) v p =
      rw (get_without_touch-refines dec m v k, run_lru-refines m cs v p)
  run_lru-refines m (call_touch k ∷ cs) v p =
      let (m', ran, h) = touch-refines dec m v k in
      let ih : run_lru m' cs ≡ ok (run_order m'.capacity (entries m'.nodes) cs) =
        run_lru-refines m' cs h.valid (omega (arith, h.same_capacity)) in
      rw (ran, ih, h.same_capacity, h.holds)
  run_lru-refines m (call_erase k ∷ cs) v p =
      let (m', ran, h) = erase-refines dec m v k in
      let ih : run_lru m' cs ≡ ok (run_order m'.capacity (entries m'.nodes) cs) =
        run_lru-refines m' cs h.valid (omega (arith, h.same_capacity)) in
      rw (ran, ih, h.same_capacity, h.holds)
