-- ===== src/Semaphores.antt =====
-- data-struct/pcqueue/blocking_queue_by_semaphore.h, with any number of threads. A thread's call is
-- three actions, at its semaphores and at the queue; an execution is a list of actions. The queue of
-- the constructor keeps the contract of Fifo with some limit, and each call of it is one action.
mod Counted
pub mod Safe
mod Tests
use cpp_base.Prelude.{
  ℕ, zero, suc, ◌+◌, ◌-◌, ◌≤◌, Bool, true, false, Option, none, some, List, [], ◌∷◌, ◌++◌, length,
  get_elem?, ltb, leb, ◌==◌, if◌then◌else◌, Outcome, ok, fatal, ◌>>=◌, ◌>>◌, check,
}
use cpp_base.Fifo.{get, put}

-- Besides the members: the elements of the threads that have passed `empty_.Lock()` and not called
-- TryPut, the numbers of threads at the three other places within a call, and for the statements the
-- elements that were put and got, in order.
pub record Blocking {ℓ} (A : Type ℓ) : Type ℓ where
  pub full : ℕ
  pub empty : ℕ
  pub queue : List A
  pub putting : List A
  pub posting : ℕ
  pub taking : ℕ
  pub freeing : ℕ
  pub put_log : List A
  pub got_log : List A

pub data Action {ℓ} (A : Type ℓ) : Type ℓ where
  begin_put : A → Action A
  call_put : ℕ → Action A
  end_put : Action A
  begin_get : Action A
  call_get : Action A
  end_get : Action A

module _ {ℓ} {A : Type ℓ} where
  unfoldable pub create_blocking : ℕ → Outcome (Blocking A)
  create_blocking capacity =
      check (leb 2 capacity)
      >> ok (record {
        full = 0;
        empty = capacity - 1;
        queue = [];
        putting = [];
        posting = 0;
        taking = 0;
        freeing = 0;
        put_log = [];
        got_log = [];
      })

  abbrev pub remove_at : List A → ℕ → List A
  remove_at [] i = []
  remove_at (x ∷ xs) zero = xs
  remove_at (x ∷ xs) (suc i) = x ∷ remove_at xs i

  -- `CHECK(queue_->TryPut(element))` of the thread at a place among those that are about to.
  unfoldable pub put_checked : ℕ → ℕ → A → Blocking A → Outcome (Blocking A)
  unfolding put
  put_checked limit i x b =
      let (queue', done) = put limit b.queue x in
      check done
      >> ok (record b {
        queue = queue';
        putting = remove_at b.putting i;
        posting = b.posting + 1;
        put_log = b.put_log ++ (x ∷ []);
      })

  -- `CHECK(queue_->TryGet(element))`
  unfoldable pub get_checked : Blocking A → Outcome (Blocking A)
  unfolding get
  get_checked b =
      let (queue', out) = get b.queue in
      elim out [
        | none ↦ fatal
        | some x ↦ ok (record b {
          queue = queue';
          taking = b.taking - 1;
          freeing = b.freeing + 1;
          got_log = b.got_log ++ (x ∷ []);
        })
      ]

  -- Where no thread can do the action, as at a semaphore that is 0, nothing changes: Put and Get wait,
  -- TryPut and TryGet return false.
  unfoldable pub act : ℕ → Action A → Blocking A → Outcome (Blocking A)
  unfolding put_checked get_checked
  act limit (begin_put x) b =
      ok (if ltb 0 b.empty then record b { empty = b.empty - 1; putting = x ∷ b.putting } else b)
  act limit (call_put i) b = elim (get_elem? b.putting i) [
    | none ↦ ok b
    | some x ↦ put_checked limit i x b
  ]
  act limit end_put b =
      ok (if ltb 0 b.posting then record b { posting = b.posting - 1; full = b.full + 1 } else b)
  act limit begin_get b =
      ok (if ltb 0 b.full then record b { full = b.full - 1; taking = b.taking + 1 } else b)
  act limit call_get b = if ltb 0 b.taking then get_checked b else ok b
  act limit end_get b =
      ok (if ltb 0 b.freeing then record b { freeing = b.freeing - 1; empty = b.empty + 1 } else b)

  unfoldable pub run_blocking : ℕ → List (Action A) → Blocking A → Outcome (Blocking A)
  unfolding act
  run_blocking limit [] b = ok b
  run_blocking limit (a ∷ actions) b = act limit a b >>= λ b'. run_blocking limit actions b'

  unfoldable pub is_empty_blocking : Blocking A → Bool
  is_empty_blocking b = b.full == 0
