-- ===== src/SpscQueue.antt =====
-- The lock-free queue of data-struct/pcqueue/spsc_queue_by_folly.h, for one producer and one
-- consumer thread. A move is one access of a thread to the shared memory: a call of TryPut loads
-- readIndex_, constructs the record, stores writeIndex_; a call of TryGet loads writeIndex_, copies
-- the record out, destroys it, stores readIndex_. A list of moves is an interleaving of the two
-- threads, sequentially consistent. A record is none while no object lives in it: to copy or
-- destroy no object, or to construct over one, is `undefined`.
pub mod Circle
pub mod Agree
pub mod Put
pub mod Get
pub mod Linearize
pub mod Sides
pub mod Observe
mod Tests
use cpp_base.Prelude.{
  ℕ, ◌+◌, Bool, true, false, Option, none, some, List, [], ◌∷◌, length, get_elem?, set, Outcome, ok,
  undefined, ◌>>=◌, ◌>>◌, check, load, replicate, leb, ltb, ◌==◌, if◌then◌else◌,
}

-- Where the producer is in TryPut.
pub data Producer {ℓ} (A : Type ℓ) : Type ℓ where
  resting : Producer A
  writing : A → ℕ → ℕ → Producer A
  publishing : A → ℕ → Producer A

-- Where the consumer is in TryGet.
pub data Consumer {ℓ} (A : Type ℓ) : Type ℓ where
  waiting : Consumer A
  reading : ℕ → ℕ → Consumer A
  copied : A → ℕ → ℕ → Consumer A
  releasing : A → ℕ → Consumer A

pub record Spsc {ℓ} (A : Type ℓ) : Type ℓ where
  pub capacity : ℕ
  pub records : List (Option A)
  pub read_index : ℕ
  pub write_index : ℕ
  pub producer : Producer A
  pub consumer : Consumer A

-- What a thread does next; a call begins only where the thread is in none.
pub data Move {ℓ} (A : Type ℓ) : Type ℓ where
  call_put : A → Move A
  call_get : Move A
  producer_step : Move A
  consumer_step : Move A

-- What a move makes visible: a call that returns, or nothing.
pub data Event {ℓ} (A : Type ℓ) : Type ℓ where
  silent : Event A
  was_full : A → Event A
  was_empty : Event A
  pushed : A → Event A
  popped : A → Event A

-- `currentWrite + 1`, and round at the capacity.
unfoldable pub next_record : ℕ → ℕ → ℕ
next_record capacity current = if current + 1 == capacity then 0 else current + 1

module _ {ℓ} {A : Type ℓ} where
  unfoldable pub create_spsc : ℕ → Outcome (Spsc A)
  create_spsc size = do
    check (leb 2 size)
    ok (record {
      capacity = size;
      records = replicate size none;
      read_index = 0;
      write_index = 0;
      producer = resting;
      consumer = waiting;
    })

  -- The relaxed load of writeIndex_, which only the producer stores, and the load of readIndex_.
  unfoldable pub begin_put : Spsc A → A → Spsc A × Event A
  unfolding next_record
  begin_put s x =
      let following = next_record s.capacity s.write_index in
      if following == s.read_index
      then (s, was_full x)
      else (record s { producer = writing x s.write_index following }, silent)

  -- Placement new on the record.
  unfoldable pub construct : List (Option A) → ℕ → A → Outcome (List (Option A))
  construct records i x = do
    slot ← load records i
    elim slot [ none ↦ ok (set records i (some x)) | some _ ↦ undefined ]

  unfoldable pub advance_put : Spsc A → Producer A → Outcome (Spsc A × Event A)
  unfolding construct
  advance_put s resting = ok (s, silent)
  advance_put s (writing x current following) = do
    records' ← construct s.records current x
    ok (record s { records = records'; producer = publishing x following }, silent)
  advance_put s (publishing x following) =
      ok (record s { write_index = following; producer = resting }, pushed x)

  unfoldable pub begin_get : Spsc A → Spsc A × Event A
  unfolding next_record
  begin_get s = if s.read_index == s.write_index then (s, was_empty) else (
    record s { consumer = reading s.read_index (next_record s.capacity s.read_index) },
    silent,
  )

  -- `records_[i]` as an object.
  unfoldable pub object_at : List (Option A) → ℕ → Outcome A
  object_at records i = do slot ← load records i; elim slot [ none ↦ undefined | some x ↦ ok x ]

  unfoldable pub advance_get : Spsc A → Consumer A → Outcome (Spsc A × Event A)
  unfolding object_at
  advance_get s waiting = ok (s, silent)
  advance_get s (reading current following) = do
    x ← object_at s.records current
    ok (record s { consumer = copied x current following }, silent)
  advance_get s (copied x current following) = do
    _ ← object_at s.records current
    ok (record s { records = set s.records current none; consumer = releasing x following }, silent)
  advance_get s (releasing x following) =
      ok (record s { read_index = following; consumer = waiting }, popped x)

  -- A thread that is inside a call does not begin another.
  unfoldable pub step_put : Spsc A → A → Producer A → Spsc A × Event A
  unfolding begin_put
  step_put s x resting = begin_put s x
  step_put s x p = (s, silent)

  unfoldable pub step_get : Spsc A → Consumer A → Spsc A × Event A
  unfolding begin_get
  step_get s waiting = begin_get s
  step_get s c = (s, silent)

  unfoldable pub step : Spsc A → Move A → Outcome (Spsc A × Event A)
  unfolding step_put step_get advance_put advance_get
  step s (call_put x) = ok (step_put s x s.producer)
  step s call_get = ok (step_get s s.consumer)
  step s producer_step = advance_put s s.producer
  step s consumer_step = advance_get s s.consumer

  unfoldable pub run_spsc : Spsc A → List (Move A) → Outcome (Spsc A × List (Event A))
  unfolding step
  run_spsc s [] = ok (s, [])
  run_spsc s (m ∷ ms) = do (s', e) ← step s m; (t, es) ← run_spsc s' ms; ok (t, e ∷ es)
