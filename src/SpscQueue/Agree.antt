-- ===== src/SpscQueue/Agree.antt =====
-- What the shared memory of SpscQueueByFolly and the places of its two threads say of the queue,
-- and which events that queue allows.
use cpp_base.Prelude.{
  ℕ, suc, ◌+◌, ◌≤◌, ◌<◌, ◌≡◌, refl, Option, none, some, List, [], ◌∷◌, ◌++◌, map, length,
  length-map, replicate, window, offset, ap,
}
use cpp_base.SpscQueue.{
  Spsc, Producer, Consumer, resting, writing, publishing, waiting, reading, copied, releasing,
  next_record, Event, silent, was_full, was_empty, pushed, popped,
}

module _ {ℓ} {A : Type ℓ} where
  -- The records of the queued elements: the consumer may have destroyed the first.
  abbrev pub front : Consumer A → List A → List (Option A)
  front (releasing x f) [] = []
  front (releasing x f) (y ∷ q) = none ∷ map some q
  front waiting q = map some q
  front (reading r f) q = map some q
  front (copied x r f) q = map some q

  -- The record that the producer has constructed and not yet published.
  abbrev pub back : Producer A → List (Option A)
  back (publishing x f) = some x ∷ []
  back resting = []
  back (writing x w f) = []

  abbrev pub ProducerAt : Spsc A → List A → Producer A → Type 0
  ProducerAt s q resting = Unit
  ProducerAt s q (writing x w f) =
      (w ≡ s.write_index) × (f ≡ next_record s.capacity w) × (suc (length q) < s.capacity)
  ProducerAt s q (publishing x f) =
      (f ≡ next_record s.capacity s.write_index) × (suc (length q) < s.capacity)

  abbrev pub ConsumerAt : Spsc A → List A → Consumer A → Type ℓ
  ConsumerAt s q waiting = Unit
  ConsumerAt s q (reading r f) =
      (r ≡ s.read_index) × (f ≡ next_record s.capacity r) × ((x : A) × (t : List A) × (q ≡ x ∷ t))
  ConsumerAt s q (copied x r f) =
      (r ≡ s.read_index) × (f ≡ next_record s.capacity r) × ((t : List A) × (q ≡ x ∷ t))
  ConsumerAt s q (releasing x f) =
      (f ≡ next_record s.capacity s.read_index) × ((t : List A) × (q ≡ x ∷ t))

  pub record Agrees (s : Spsc A) (q : List A) : Type ℓ where
    pub free : ℕ
    pub large : 2 ≤ s.capacity
    pub storage : length s.records ≡ s.capacity
    pub read_in : s.read_index < s.capacity
    pub write_at : s.write_index ≡ offset s.capacity s.read_index (length q)
    pub room : length q < s.capacity
    pub sizes : length q + length (back s.producer) + free ≡ s.capacity
    pub circle :
        window s.capacity none s.records s.read_index s.capacity
        ≡ front s.consumer q ++ (back s.producer ++ replicate free none)
    pub producer_at : ProducerAt s q s.producer
    pub consumer_at : ConsumerAt s q s.consumer

  -- The events that a queue of at most `limit` elements allows, and the queue after each.
  abbrev pub Allows : ℕ → List A → Event A → List A → Type ℓ
  Allows limit q silent q' = q' ≡ q
  Allows limit q (was_full x) q' = (length q ≡ limit) × (q' ≡ q)
  Allows limit q was_empty q' = (q ≡ []) × (q' ≡ q)
  Allows limit q (pushed x) q' = (length q < limit) × (q' ≡ q ++ (x ∷ []))
  Allows limit q (popped x) q' = q ≡ x ∷ q'

  abbrev pub AllowsAll : ℕ → List A → List (Event A) → List A → Type ℓ
  AllowsAll limit q [] q' = q' ≡ q
  AllowsAll limit q (e ∷ es) q' = (m : List A) × Allows limit q e m × AllowsAll limit m es q'

  pub length-front : (c : Consumer A) (q : List A) → length (front c q) ≡ length q
  length-front (releasing x f) [] = refl
  length-front (releasing x f) (y ∷ q) = ap suc (length-map some q)
  length-front waiting q = length-map some q
  length-front (reading r f) q = length-map some q
  length-front (copied x r f) q = length-map some q
