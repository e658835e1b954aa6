-- ===== src/SpscQueue/Observe.antt =====
-- The queries of SpscQueueByFolly, and its FrontPtr and PopFront, which the consumer calls.
use cpp_base.Prelude.{
  ℕ, suc, ◌+◌, ◌-◌, ◌≡◌, refl, Bool, false, not, Option, none, some, List, ◌∷◌, ◌++◌, length, set,
  arith, Outcome, ok, ◌>>=◌, ◌>>◌, check, ◌==◌, ltb, if◌then◌else◌, offset, ap, sym, subst,
}
use cpp_base.SpscQueue.{Spsc, Move, Event, run_spsc, next_record, object_at, waiting}
use cpp_base.SpscQueue.Agree.{Agrees}
use cpp_base.SpscQueue.Sides.{AreProducers, AreConsumers, producers_run, consumers_run}
use cpp_base.SpscQueue.Put.{full_iff}
use cpp_base.SpscQueue.Get.{begin_reading, copy_lem, destroy_lem, release_lem, empty_iff}

-- A query loads the two indices one after the other, and the other thread may move in between: `s` is
-- the queue at the first load, `t` at the second. The capacity never changes.
module _ {ℓ} {A : Type ℓ} where
  unfoldable pub empty_spsc : Spsc A → Spsc A → Bool
  empty_spsc s t = s.read_index == t.write_index

  unfoldable pub full_spsc : Spsc A → Spsc A → Bool
  full_spsc s t = next_record s.capacity s.write_index == t.read_index

  -- The operands of `-` are loaded in either order: the queue at the load of writeIndex_, and at that
  -- of readIndex_. `ret` is negative where the write index is the lesser one.
  unfoldable pub size_guess : Spsc A → Spsc A → ℕ
  size_guess at_write at_read =
      if ltb at_write.write_index at_read.read_index
      then at_write.write_index + at_write.capacity - at_read.read_index
      else at_write.write_index - at_read.read_index

  -- The slot of the record that the pointer points to.
  unfoldable pub front_ptr : Spsc A → Spsc A → Option ℕ
  front_ptr s t = if s.read_index == t.write_index then none else some s.read_index

-- PopFront between the moves of the producer.
module _ {ℓ} {A : Type ℓ} (s : Spsc A) where
  unfoldable pub pop_front : Outcome (Spsc A)
  pop_front = do
    check (not (s.read_index == s.write_index))
    _ ← object_at s.records s.read_index
    ok (record s {
      records = set s.records s.read_index none;
      read_index = next_record s.capacity s.read_index;
    })

-- What two loads see of a queue that has the one index at the first load, the other at the second.
module _ {ℓ} {A : Type ℓ} (u : Spsc A) (q : List A) (a : Agrees u q) (s t : Spsc A) where
  size_guess_at :
      s.write_index ≡ u.write_index
      → t.read_index ≡ u.read_index
      → s.capacity ≡ u.capacity
      → size_guess s t ≡ length q
  unfolding size_guess offset
  size_guess_at w r c = ground (arith, a.write_at, a.room, a.read_in)

  empty_spsc_at :
      s.read_index ≡ u.read_index → t.write_index ≡ u.write_index → empty_spsc s t ≡ (length q == 0)
  unfolding empty_spsc
  empty_spsc_at r w = ground (arith, empty_iff u q a)

  full_spsc_at :
      s.write_index ≡ u.write_index
      → t.read_index ≡ u.read_index
      → s.capacity ≡ u.capacity
      → full_spsc s t ≡ (suc (length q) == u.capacity)
  unfolding full_spsc
  full_spsc_at w r c = rw (c, w) (ground (arith, full_iff u q a))

  front_ptr_at :
      s.read_index ≡ u.read_index
      → t.write_index ≡ u.write_index
      → front_ptr s t ≡ (if length q == 0 then none else some u.read_index)
  unfolding front_ptr
  front_ptr_at r w = ground (arith, empty_iff u q a)

module _ {ℓ} {A : Type ℓ} (s : Spsc A) (q : List A) (ms : List (Move A)) where
  -- In every state that agrees with a queue, as all states from the constructor on do: the consumer
  -- calls, and the producer alone moves between the two loads, from a queue q to a queue q ++
  -- added. SizeGuess is the length at the load of the write index, which at the end may be more;
  -- Full tells of q whether it has `capacity - 1` elements, and Empty and FrontPtr whether q ++
  -- added has none.
  pub observed_by_consumer :
      Agrees s q
      → AreProducers ms
      → (t : Spsc A) × (es : List (Event A)) × (added : List A) × (run_spsc s ms ≡ ok (t, es))
        × Agrees t (q ++ added)
        × (size_guess s t ≡ length q)
        × (size_guess t s ≡ length (q ++ added))
        × (full_spsc s t ≡ (suc (length q) == s.capacity))
        × (empty_spsc s t ≡ (length (q ++ added) == 0))
        × (front_ptr s t ≡ (if length (q ++ added) == 0 then none else some t.read_index))
  observed_by_consumer a h =
      let (t, es, added, ran, b, same, size) = producers_run s q ms a h in
      (
        t,
        es,
        added,
        ran,
        b,
        size_guess_at s q a s t refl same refl,
        size_guess_at t (q ++ added) b t s refl (sym same) refl,
        full_spsc_at s q a s t refl same refl,
        empty_spsc_at t (q ++ added) b s t (sym same) refl,
        front_ptr_at t (q ++ added) b s t (sym same) refl,
      )

  -- In every state that agrees with a queue, as all states from the constructor on do: the producer
  -- calls, and the consumer alone moves between the two loads, from a queue taken ++ left to a
  -- queue left. SizeGuess is the length at the load of the read index, which at the end may be
  -- less; Empty tells of the first queue whether it has no element, and Full of the second whether
  -- it has `capacity - 1`.
  pub observed_by_producer :
      Agrees s q
      → AreConsumers ms
      → (t : Spsc A) × (es : List (Event A)) × (taken : List A) × (left : List A) × (run_spsc s ms
          ≡ ok (t, es))
        × (q ≡ taken ++ left)
        × Agrees t left
        × (size_guess s t ≡ length left)
        × (size_guess t s ≡ length q)
        × (empty_spsc s t ≡ (length q == 0))
        × (full_spsc s t ≡ (suc (length left) == t.capacity))
  observed_by_producer a h =
      let (t, es, taken, left, ran, e, b, same, size) = consumers_run s q ms a h in
      (
        t,
        es,
        taken,
        left,
        ran,
        e,
        b,
        size_guess_at t left b s t (sym same) refl (sym size),
        size_guess_at s q a t s same refl size,
        empty_spsc_at s q a s t refl same,
        full_spsc_at t left b s t (sym same) refl (sym size),
      )

module _ {ℓ} {A : Type ℓ} (s : Spsc A) (q : List A) where
  not_at_end :
      (x : A) (t : List A) → Agrees s q → q ≡ x ∷ t → (s.read_index == s.write_index) ≡ false
  not_at_end x t a h = ground (arith, empty_iff s q a, ap length h)

  -- PopFront on a queue with an element, between calls of TryGet, destroys the first element and
  -- leaves the rest.
  pub pop_front_lem :
      (x : A) (t : List A)
      → Agrees s q
      → s.consumer ≡ waiting
      → q ≡ x ∷ t
      → (s' : Spsc A) × (pop_front s ≡ ok s') × Agrees s' t
  unfolding pop_front
  pop_front_lem x t a e h =
      let f = next_record s.capacity s.read_index in
      let (y, there, a2) = copy_lem _ q (begin_reading s q a e x t h) s.read_index f refl in
      let (still, a3) = destroy_lem _ q a2 y s.read_index f refl in
      let (t', is_rest, a4) = release_lem _ q a3 y f refl in
      let same : t' ≡ t = cc in
      (
        record s { records = set s.records s.read_index none; read_index = f },
        rw (not_at_end x t a h) (rw there),
        subst
            (λ c.
              Agrees
                (record s {
                  records = set s.records s.read_index none;
                  read_index = f;
                  consumer = c;
                })
                t)
            (sym e) (subst (Agrees _) same a4),
      )
