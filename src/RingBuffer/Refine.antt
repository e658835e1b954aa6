-- ===== src/RingBuffer/Refine.antt =====
-- A valid RingBuffer (data-struct/ring_buffer.h) behaves as the queue of the elements it holds.
use cpp_base.Fifo.{Op, try_put, try_get, put, get, run, put_room, put_full, did_put, did_get}
use cpp_base.Prelude.{
  ℕ, zero, suc, ◌-◌, ◌<◌, ◌≡◌, refl, ap, subst, set, none, some, List, [], ◌∷◌, ◌++◌, arith, ok,
  length, get_or, window, length-window, window-set_end, next, offset,
}
use mathlib.Core.Path.{ap₂}
use native.Mathlib.Decide.{dec_lt}
use cpp_base.RingBuffer.{RingBuffer, try_put_ring, try_get_ring, run_ring}
use cpp_base.RingBuffer.Validity.{
  IsValid, after_put, after_get, try_put_full, try_put_room, try_get_empty, try_get_some,
  after_put-IsValid, after_get-IsValid,
}

module _ {ℓ} {A : Type ℓ} (initial : A) where
  abbrev pub contents : RingBuffer A → List A
  contents r = window r.capacity initial r.items r.front r.count

  -- What the code's result must be, for the queue and the answer that the contract gives.
  pub record Implements (r r' : RingBuffer A) (q : List A) : Type ℓ where
    pub valid : IsValid r'
    pub same_capacity : r'.capacity ≡ r.capacity
    pub holds : contents r' ≡ q

  window_step :
      (size h n : ℕ) (xs : List A)
      → 0 < n
      → window size initial xs h n
        ≡ get_or xs h initial ∷ window size initial xs (next size h) (n - 1)
  window_step size h zero xs p = absurd (omega arith)
  window_step size h (suc n) xs p = ap (λ k. window size initial xs h (suc k)) (omega arith)

  pub length-contents : (r : RingBuffer A) → length (contents r) ≡ r.count
  length-contents r = length-window r.capacity initial r.items r.front r.count

  contents-after_put :
      (r : RingBuffer A) (x : A)
      → IsValid r
      → r.count < r.capacity
      → contents (after_put r x) ≡ contents r ++ (x ∷ [])
  contents-after_put r x v p =
      subst
        (λ k.
          window r.capacity initial (set r.items (offset r.capacity r.front r.count) x) r.front k
          ≡ contents r ++ (x ∷ []))
        {x = suc r.count} (omega arith)
        (window-set_end r.capacity initial r.items r.front r.count x v.front_in p (omega arith))

  -- `TryPut` on a valid buffer never fails a CHECK nor leaves the defined behaviour of `int`; its
  -- answer is the contract's, and the buffer then holds the contract's queue and is valid.
  pub try_put_ring-refines :
      (r : RingBuffer A) (x : A)
      → IsValid r
      → (r' : RingBuffer A) × (try_put_ring r x ≡ ok (r', (put r.capacity (contents r) x).1))
        × Implements r r' (put r.capacity (contents r) x).0
  try_put_ring-refines r x v = elim (dec_lt r.count r.capacity) [
    | yes p ↦ rw (put_room r.capacity (contents r) x (omega (arith, length-contents r))) (
      after_put r x,
      try_put_room r x v p,
      record {
        valid = after_put-IsValid r x v p;
        same_capacity = refl;
        holds = contents-after_put r x v p;
      },
    )
    | no p ↦ rw (put_full r.capacity (contents r) x (λ q. p (omega (arith, length-contents r)))) (
      r,
      try_put_full r x (omega (arith, v.count_in)),
      record { valid = v; same_capacity = refl; holds = refl },
    )
  ]

  get-contents :
      (r : RingBuffer A)
      → 0 < r.count
      → get (contents r) ≡ (contents (after_get r), some (get_or r.items r.front initial))
  unfolding get
  get-contents r p = rw (window_step r.capacity r.front r.count r.items p)

  get_empty_window :
      (size h n : ℕ) (xs : List A)
      → n ≡ 0
      → get (window size initial xs h n) ≡ (window size initial xs h n, none)
  unfolding get
  get_empty_window size h zero xs e = refl
  get_empty_window size h (suc n) xs e = absurd (omega arith)

  get-contents_empty : (r : RingBuffer A) → r.count ≡ 0 → get (contents r) ≡ (contents r, none)
  get-contents_empty r e = get_empty_window r.capacity r.front r.count r.items e

  -- `TryGet` on a valid buffer returns the oldest element, and the buffer then holds the rest; on
  -- an empty one it returns none and changes nothing.
  pub try_get_ring-refines :
      (r : RingBuffer A)
      → IsValid r
      → (r' : RingBuffer A) × (try_get_ring r ≡ ok (r', (get (contents r)).1))
        × Implements r r' (get (contents r)).0
  try_get_ring-refines r v = elim (dec_lt 0 r.count) [
    | yes p ↦ rw (get-contents r p) (
      after_get r,
      try_get_some initial r v p,
      record { valid = after_get-IsValid r v p; same_capacity = refl; holds = refl },
    )
    | no p ↦
        rw (get-contents_empty r (omega arith)) (
          r,
          try_get_empty r (omega arith),
          record { valid = v; same_capacity = refl; holds = refl },
        )
  ]

  -- A sequence of calls, by one thread or by many under the mutex, is answered as by the queue.
  pub run_ring-refines :
      (r : RingBuffer A) (ops : List (Op A))
      → IsValid r
      → run_ring r ops ≡ ok (run r.capacity (contents r) ops)
  unfolding run_ring run
  run_ring-refines r [] v = refl
  run_ring-refines r (try_put x ∷ ops) v =
      let (r', e, i) = try_put_ring-refines r x v in
      let ih : run_ring r' ops ≡ ok (run r'.capacity (contents r') ops) =
        run_ring-refines r' ops i.valid in
      rw (e, ih)
        (ap₂ (λ k q. ok (did_put (put r.capacity (contents r) x).1 ∷ run k q ops)) i.same_capacity
          i.holds)
  run_ring-refines r (try_get ∷ ops) v =
      let (r', e, i) = try_get_ring-refines r v in
      let ih : run_ring r' ops ≡ ok (run r'.capacity (contents r') ops) =
        run_ring-refines r' ops i.valid in
      rw (e, ih)
        (ap₂ (λ k q. ok (did_get (get (contents r)).1 ∷ run k q ops)) i.same_capacity i.holds)
