-- ===== src/RingBuffer.antt =====
-- The fixed-size circular buffer of data-struct/ring_buffer.h, and the queue of
-- data-struct/pcqueue/mpmc_queue_by_mutex.h, whose calls each hold the mutex over one call of it.
-- `int` arithmetic that leaves its range, a remainder by zero and an index outside the vector are
-- `undefined`. The elements are of any type; `initial` is its default-constructed value.
pub mod Validity
pub mod Refine
pub mod Overflow
mod Tests
use cpp_base.Fifo.{Op, try_put, try_get, Reply, did_put, did_get}
use cpp_base.Prelude.{
  ℕ, suc, ◌+◌, ◌-◌, Bool, true, false, Option, none, some, List, [], ◌∷◌, Outcome, ok, thrown,
  ◌>>=◌, ◌>>◌, check, add_int, mod_int, load, store, replicate, ltb, leb, ◌==◌, if◌then◌else◌,
}

pub record RingBuffer {ℓ} (A : Type ℓ) : Type ℓ where
  pub capacity : ℕ
  pub front : ℕ
  pub count : ℕ
  pub items : List A

-- The argument of the constructor, an `int`.
pub data Capacity : Type 0 where
  nonneg : ℕ → Capacity
  negative : Capacity

module _ {ℓ} {A : Type ℓ} where
  -- The members are initialised before the body runs its CHECK; a vector of negative size throws.
  unfoldable pub create : A → Capacity → Outcome (RingBuffer A)
  create initial negative = thrown
  create initial (nonneg n) = do
    check (ltb 0 n)
    ok (record { capacity = n; front = 0; count = 0; items = replicate n initial })

  unfoldable pub try_put_ring : RingBuffer A → A → Outcome (RingBuffer A × Bool)
  try_put_ring r element = do
    check (leb r.count r.capacity)
    if r.count == r.capacity then ok (r, false) else do
      sum ← add_int r.front r.count
      end ← mod_int sum r.capacity
      items' ← store r.items end element
      count' ← add_int r.count 1
      ok (record r { items = items'; count = count' }, true)

  -- `count_ >= 0` holds of every natural number; the option is what goes through `element`.
  unfoldable pub try_get_ring : RingBuffer A → Outcome (RingBuffer A × Option A)
  try_get_ring r = do
    check (leb 0 r.count)
    if r.count == 0 then ok (r, none) else do
      element ← load r.items r.front
      sum ← add_int r.front 1
      front' ← mod_int sum r.capacity
      ok (record r { front = front'; count = r.count - 1 }, some element)

  unfoldable pub count_ring : RingBuffer A → ℕ
  count_ring r = r.count

  unfoldable pub empty_ring : RingBuffer A → Bool
  empty_ring r = r.count == 0

  unfoldable pub full_ring : RingBuffer A → Bool
  full_ring r = r.count == r.capacity

  -- The calls of all threads in the order in which they take the mutex, with what each returns.
  unfoldable pub run_ring : RingBuffer A → List (Op A) → Outcome (List (Reply A))
  run_ring r [] = ok []
  run_ring r (try_put x ∷ ops) = do
    (r', done) ← try_put_ring r x
    replies ← run_ring r' ops
    ok (did_put done ∷ replies)
  run_ring r (try_get ∷ ops) = do
    (r', out) ← try_get_ring r
    replies ← run_ring r' ops
    ok (did_get out ∷ replies)
