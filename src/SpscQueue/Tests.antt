-- ===== src/SpscQueue/Tests.antt =====
-- Runs of SpscQueueByFolly, and each theorem at an interleaving.
use cpp_base.Prelude.{
  ℕ, ◌≡◌, ◌<◌, refl, none, some, List, [], ◌∷◌, ◌++◌, length, arith, ok, undefined, false, offset,
  next, suc, ◌==◌, if◌then◌else◌,
}
use cpp_base.SpscQueue.{
  Spsc, Event, silent, was_full, was_empty, pushed, popped, Move, call_put, call_get, producer_step,
  consumer_step, create_spsc, run_spsc, construct,
}
use cpp_base.SpscQueue.Observe.{
  size_guess, empty_spsc, full_spsc, front_ptr, observed_by_consumer, observed_by_producer,
}
use cpp_base.SpscQueue.Agree.{Agrees, AllowsAll}
use cpp_base.SpscQueue.Linearize.{fresh, fresh-Agrees, linearizable, fifo, pushes, pops}

-- Two puts on a queue with one usable record, and a get that overlaps the second.
abbrev overlap : List (Move ℕ)
overlap =
    call_put 7
    ∷ producer_step
    ∷ producer_step
    ∷ call_get
    ∷ call_put 8
    ∷ consumer_step
    ∷ consumer_step
    ∷ call_put 8
    ∷ consumer_step
    ∷ call_put 8
    ∷ producer_step
    ∷ call_get
    ∷ producer_step
    ∷ []

abbrev seen : List (Event ℕ)
seen =
    silent
    ∷ silent
    ∷ pushed 7
    ∷ silent
    ∷ was_full 8
    ∷ silent
    ∷ silent
    ∷ was_full 8
    ∷ popped 7
    ∷ silent
    ∷ silent
    ∷ was_empty
    ∷ pushed 8
    ∷ []

abbrev last_state : Spsc ℕ
last_state = record (fresh 2) { records = none ∷ some 8 ∷ []; read_index = 1; write_index = 0 }

run_overlap : run_spsc (fresh 2) overlap ≡ ok (last_state, seen)
unfolding run_spsc
run_overlap = refl

construct_over : construct {A = ℕ} (some 1 ∷ []) 0 2 ≡ undefined
unfolding construct
construct_over = refl

linearizable_example :
    (s : Spsc ℕ) × (t : Spsc ℕ) × (es : List (Event ℕ)) × (q : List ℕ) × (create_spsc 2 ≡ ok s)
    × (run_spsc s overlap ≡ ok (t, es))
    × AllowsAll 1 [] es q
    × Agrees t q
linearizable_example = linearizable 2 overlap (omega arith)

fifo_example : (q : List ℕ) × (pushes seen ≡ pops seen ++ q) × (length q < 2)
unfolding create_spsc
fifo_example = fifo 2 overlap (omega arith) refl run_overlap

abbrev put_seven : List (Move ℕ)
put_seven = call_put 7 ∷ producer_step ∷ producer_step ∷ []

abbrev get_one : List (Move ℕ)
get_one = call_get ∷ consumer_step ∷ consumer_step ∷ consumer_step ∷ []

-- One element, got without TryGet.
abbrev one : Spsc ℕ
one = record (fresh 2) { records = none ∷ some 8 ∷ []; read_index = 1; write_index = 0 }

one-Agrees : Agrees one (8 ∷ [])
unfolding offset next
one-Agrees = record {
  free = 1;
  large = omega arith;
  storage = refl;
  read_in = omega arith;
  write_at = refl;
  room = omega arith;
  sizes = refl;
  circle = refl;
  producer_at = tt;
  consumer_at = tt;
}

observed_by_consumer_example :
    (t : Spsc ℕ) × (es : List (Event ℕ)) × (added : List ℕ) × (run_spsc (fresh 3) put_seven
      ≡ ok (t, es))
    × Agrees t ([] ++ added)
    × (size_guess (fresh 3) t ≡ 0)
    × (size_guess t (fresh 3) ≡ length ([] ++ added))
    × (full_spsc (fresh 3) t ≡ false)
    × (empty_spsc (fresh 3) t ≡ (length ([] ++ added) == 0))
    × (front_ptr (fresh 3) t ≡ (if length ([] ++ added) == 0 then none else some t.read_index))
observed_by_consumer_example =
    observed_by_consumer (fresh 3) [] put_seven (fresh-Agrees 3 (omega arith)) tt

observed_by_producer_example :
    (t : Spsc ℕ) × (es : List (Event ℕ)) × (taken : List ℕ) × (left : List ℕ) × (run_spsc one
        get_one
      ≡ ok (t, es))
    × (8 ∷ [] ≡ taken ++ left)
    × Agrees t left
    × (size_guess one t ≡ length left)
    × (size_guess t one ≡ 1)
    × (empty_spsc one t ≡ false)
    × (full_spsc one t ≡ (suc (length left) == t.capacity))
observed_by_producer_example = observed_by_producer one (8 ∷ []) get_one one-Agrees tt

-- Empty at the load of the read index, and one element when the write index is loaded.
size_guess_between : size_guess (record (fresh 3) { write_index = 1 }) (fresh {A = ℕ} 3) ≡ 1
unfolding size_guess
size_guess_between = refl
