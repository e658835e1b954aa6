-- ===== src/RingBuffer/Validity.antt =====
-- The invariant of RingBuffer (data-struct/ring_buffer.h), and the calls on a valid buffer.
use cpp_base.Prelude.{
  ℕ, ◌+◌, ◌-◌, ◌*◌, ◌≤◌, ◌<◌, ◌≡◌, refl, true, false, none, some, arith, ok, length, set, get_or,
  replicate, length-set, length-replicate, get_elem?-eq-get_or, offset, mod-eq-offset, offset-lt,
  next, mod-eq-next, next-lt, int_limit,
}
use cpp_base.RingBuffer.{RingBuffer, nonneg, create, try_put_ring, try_get_ring}

-- `small` keeps `front_ + count_` an `int`.
pub record IsValid {ℓ} {A : Type ℓ} (r : RingBuffer A) : Type 0 where
  pub positive : 0 < r.capacity
  pub small : 2 * r.capacity ≤ int_limit
  pub front_in : r.front < r.capacity
  pub count_in : r.count ≤ r.capacity
  pub storage : length r.items ≡ r.capacity

module _ {ℓ} {A : Type ℓ} where
  abbrev pub after_put : RingBuffer A → A → RingBuffer A
  after_put r x = record r {
    items = set r.items (offset r.capacity r.front r.count) x;
    count = r.count + 1;
  }

  abbrev pub after_get : RingBuffer A → RingBuffer A
  after_get r = record r { front = next r.capacity r.front; count = r.count - 1 }

  pub create_lem :
      (initial : A) (n : ℕ)
      → 0 < n
      → 2 * n ≤ int_limit
      → (r : RingBuffer A) × (create initial (nonneg n) ≡ ok r)
        × IsValid r
        × (r.count ≡ 0)
        × (r.capacity ≡ n)
  unfolding create
  create_lem initial n p q = (
    record { capacity = n; front = 0; count = 0; items = replicate n initial },
    ground arith,
    omega (arith, length-replicate n initial),
    refl,
    refl,
  )

  pub try_put_full :
      (r : RingBuffer A) (x : A) → r.count ≡ r.capacity → try_put_ring r x ≡ ok (r, false)
  unfolding try_put_ring
  try_put_full r x e = ground arith

  -- What the calls on a buffer with room need: `small` of the invariant only bounds the sum.
  pub put_in_room :
      (r : RingBuffer A) (x : A)
      → r.front < r.capacity
      → r.count < r.capacity
      → length r.items ≡ r.capacity
      → r.front + r.count < int_limit
      → r.capacity < int_limit
      → try_put_ring r x ≡ ok (after_put r x, true)
  unfolding try_put_ring
  put_in_room r x f c e h k = ground (
    arith,
    mod-eq-offset r.capacity r.front r.count f (omega arith),
    offset-lt r.capacity r.front r.count f (omega arith),
  )

  pub try_put_room :
      (r : RingBuffer A) (x : A)
      → IsValid r
      → r.count < r.capacity
      → try_put_ring r x ≡ ok (after_put r x, true)
  try_put_room r x v p =
      put_in_room r x v.front_in p v.storage (omega (arith, v.small, v.front_in))
        (omega (arith, v.small, v.positive))

  pub try_get_empty : (r : RingBuffer A) → r.count ≡ 0 → try_get_ring r ≡ ok (r, none)
  unfolding try_get_ring
  try_get_empty r e = ground arith

  pub get_front :
      (initial : A) (r : RingBuffer A)
      → r.front < r.capacity
      → 0 < r.count
      → length r.items ≡ r.capacity
      → r.capacity < int_limit
      → try_get_ring r ≡ ok (after_get r, some (get_or r.items r.front initial))
  unfolding try_get_ring
  get_front initial r f c e k =
      ground (arith, mod-eq-next r.capacity r.front f, get_elem?-eq-get_or r.items r.front initial)

  pub try_get_some :
      (initial : A) (r : RingBuffer A)
      → IsValid r
      → 0 < r.count
      → try_get_ring r ≡ ok (after_get r, some (get_or r.items r.front initial))
  try_get_some initial r v p =
      get_front initial r v.front_in p v.storage (omega (arith, v.small, v.positive))

  pub after_put-IsValid :
      (r : RingBuffer A) (x : A) → IsValid r → r.count < r.capacity → IsValid (after_put r x)
  after_put-IsValid r x v p =
      omega (arith, length-set r.items (offset r.capacity r.front r.count) x)

  pub after_get-IsValid : (r : RingBuffer A) → IsValid r → 0 < r.count → IsValid (after_get r)
  after_get-IsValid r v p = omega (arith, next-lt r.capacity r.front v.front_in)
