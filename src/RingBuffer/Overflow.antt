-- ===== src/RingBuffer/Overflow.antt =====
-- The sum `front_ + count_` of RingBuffer's TryPut (data-struct/ring_buffer.h) for a large capacity.
use cpp_base.Fifo.{Op, try_put, try_get}
use cpp_base.Prelude.{
  ℕ, zero, suc, ◌+◌, ◌-◌, ◌*◌, ◌<◌, ◌≤◌, ◌≡◌, refl, ap, ◌∙◌, sym, arith, List, [], ◌∷◌, ◌++◌, ok,
  undefined, length, length-set, length-replicate, replicate, next, offset, int_limit, subst,
  Option, Bool,
}
use cpp_base.RingBuffer.{RingBuffer, nonneg, create, try_put_ring, try_get_ring, run_ring}
use cpp_base.RingBuffer.Validity.{after_put, after_get, put_in_room, get_front}

module _ {ℓ} {A : Type ℓ} where
  -- A TryGet and a TryPut, some number of times.
  unfoldable pub rounds : A → ℕ → List (Op A)
  rounds x zero = []
  rounds x (suc k) = try_get ∷ try_put x ∷ rounds x k

  -- The calls of TryPut that fill the buffer, and the rounds after which front and count are too large.
  unfoldable pub overflowing : A → ℕ → List (Op A)
  overflowing x n = replicate n (try_put x) ++ rounds x (int_limit - n + 1)

  record Holds (n f c : ℕ) (r : RingBuffer A) : Type 0 where
    capacity_is : r.capacity ≡ n
    front_is : r.front ≡ f
    count_is : r.count ≡ c
    storage : length r.items ≡ n

  put-Holds :
      (n f c : ℕ) (r : RingBuffer A) (x : A) → Holds n f c r → Holds n f (c + 1) (after_put r x)
  put-Holds n f c r x h = record {
    capacity_is = h.capacity_is;
    front_is = h.front_is;
    count_is = ap (λ k. k + 1) h.count_is;
    storage = length-set r.items (offset r.capacity r.front r.count) x ∙ h.storage;
  }

  get-Holds :
      (n f c : ℕ) (r : RingBuffer A)
      → f + 1 < n
      → Holds n f (c + 1) r
      → Holds n (f + 1) c (after_get r)
  unfolding next
  get-Holds n f c r q h = record {
    capacity_is = h.capacity_is;
    front_is = ground (arith, h.capacity_is, h.front_is);
    count_is = omega (arith, h.count_is);
    storage = h.storage;
  }

  overflows :
      (r : RingBuffer A) (x : A)
      → r.count < r.capacity
      → int_limit ≤ r.front + r.count
      → try_put_ring r x ≡ undefined
  unfolding try_put_ring
  overflows r x p q = ground arith

  taken :
      (n f : ℕ) (r : RingBuffer A)
      → f + 1 < n
      → n < int_limit
      → Holds n f n r
      → Holds n (f + 1) (n - 1) (after_get r)
  taken n f r q small h = get-Holds n f (n - 1) r q (subst (λ c. Holds n f c r) (omega arith) h)

  round-undefined :
      (r : RingBuffer A) {r' : RingBuffer A} (x : A) (ops : List (Op A)) {e : Option A}
      {done : Bool}
      → try_get_ring r ≡ ok (after_get r, e)
      → try_put_ring (after_get r) x ≡ ok (r', done)
      → run_ring r' ops ≡ undefined
      → run_ring r (try_get ∷ try_put x ∷ ops) ≡ undefined
  unfolding run_ring
  round-undefined r x ops got put then = rw got (rw put (rw then refl))

  -- With a front of f and a full buffer, the TryPut of some round overflows.
  rounds-undefined :
      (initial x : A) (n f k : ℕ) (r : RingBuffer A)
      → Holds n f n r
      → n < int_limit
      → f + k + 1 < n
      → f + k + n ≡ int_limit
      → run_ring r (rounds x (suc k)) ≡ undefined
  unfolding run_ring rounds
  rounds-undefined initial x n f zero r h small p q =
      let got = taken n f r (omega arith) small h in
      rw
        (get_front initial r (omega (arith, h.front_is, h.capacity_is)) (omega (arith, h.count_is))
          (h.storage ∙ sym h.capacity_is) (omega (arith, h.capacity_is)))
        (rw
          (overflows (after_get r) x (omega (arith, got.count_is, got.capacity_is))
            (omega (arith, got.front_is, got.count_is)))
          refl)
  rounds-undefined initial x n f (suc k) r h small p q =
      let got = taken n f r (omega arith) small h in
      let put = put-Holds n (f + 1) (n - 1) (after_get r) x got in
      round-undefined r x (rounds x (suc k))
        (get_front initial r (omega (arith, h.front_is, h.capacity_is)) (omega (arith, h.count_is))
          (h.storage ∙ sym h.capacity_is) (omega (arith, h.capacity_is)))
        (put_in_room (after_get r) x (omega (arith, got.front_is, got.capacity_is))
          (omega (arith, got.count_is, got.capacity_is)) (got.storage ∙ sym got.capacity_is)
          (omega (arith, got.front_is, got.count_is)) (omega (arith, got.capacity_is)))
        (rounds-undefined initial x n (f + 1) k (after_put (after_get r) x)
          (subst (λ c. Holds n (f + 1) c (after_put (after_get r) x)) (omega arith) put) small
          (omega arith) (omega arith))

  fill-undefined :
      (x : A) (n c k : ℕ) (ops : List (Op A)) (r : RingBuffer A)
      → Holds n 0 c r
      → n < int_limit
      → c + k ≡ n
      → ((r' : RingBuffer A) → Holds n 0 n r' → run_ring r' ops ≡ undefined)
      → run_ring r (replicate k (try_put x) ++ ops) ≡ undefined
  unfolding run_ring
  fill-undefined x n c zero ops r h small e then =
      then r (subst (λ m. Holds n 0 m r) (omega arith) h)
  fill-undefined x n c (suc k) ops r h small e then =
      rw
        (put_in_room r x (omega (arith, h.front_is, h.capacity_is))
          (omega (arith, h.count_is, h.capacity_is)) (h.storage ∙ sym h.capacity_is)
          (omega (arith, h.front_is, h.count_is)) (omega (arith, h.capacity_is)))
        (rw
          (fill-undefined x n (c + 1) k ops (after_put r x) (put-Holds n 0 c r x h) small
            (omega arith) then)
          refl)

  -- For a capacity n of an int above 2 ^ 30, the constructor accepts it, and `overflowing` ends in
  -- undefined behaviour: n calls of TryPut, and then TryGet and TryPut in turn 2 ^ 31 - n + 1 times.
  pub put_overflow :
      (initial x : A) (n : ℕ)
      → int_limit < 2 * n
      → n < int_limit
      → (r : RingBuffer A) × (create initial (nonneg n) ≡ ok r)
        × (run_ring r (overflowing x n) ≡ undefined)
  unfolding create overflowing
  put_overflow initial x n large small =
      let r : RingBuffer A = record {
        capacity = n;
        front = 0;
        count = 0;
        items = replicate n initial;
      } in
      (
        r,
        ground arith,
        fill-undefined x n 0 n (rounds x (int_limit - n + 1)) r
            (record {
              capacity_is = refl;
              front_is = refl;
              count_is = refl;
              storage = length-replicate n initial;
            })
            small (omega arith)
            (λ r' h.
              subst (λ k. run_ring r' (rounds x k) ≡ undefined) {x = suc (int_limit - n)}
                {y = int_limit - n + 1} (omega arith)
                (rounds-undefined initial x n 0 (int_limit - n) r' h small (omega arith)
                  (omega arith))),
      )
