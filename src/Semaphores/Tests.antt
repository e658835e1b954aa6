-- ===== src/Semaphores/Tests.antt =====
-- The theorems on the blocking queue at an execution.
use cpp_base.Prelude.{
  ℕ, ◌+◌, ◌≤◌, ◌<◌, ◌≡◌, ◌⊎◌, refl, arith, List, [], ◌∷◌, ◌++◌, length, ok, ◌>>=◌,
}
use cpp_base.Semaphores.{
  Blocking, Action, begin_put, call_put, end_put, begin_get, call_get, end_get, create_blocking,
  run_blocking,
}
use cpp_base.Semaphores.Safe.{blocking_safe, blocking_live}

-- Two threads put, one after the other within the calls, and a third gets.
abbrev two_puts : List (Action ℕ)
two_puts =
    begin_put 7
    ∷ begin_put 8
    ∷ call_put 1
    ∷ begin_get
    ∷ end_put
    ∷ call_put 0
    ∷ begin_get
    ∷ call_get
    ∷ end_put
    ∷ end_get
    ∷ []

abbrev after : Blocking ℕ
after = record {
  full = 1;
  empty = 1;
  queue = 8 ∷ [];
  putting = [];
  posting = 0;
  taking = 0;
  freeing = 0;
  put_log = 7 ∷ 8 ∷ [];
  got_log = 7 ∷ [];
}

two_puts_run : (create_blocking 3 >>= λ start. run_blocking 3 two_puts start) ≡ ok after
unfolding create_blocking run_blocking
two_puts_run = refl

blocking_safe_example :
    (b : Blocking ℕ) × ((create_blocking 3 >>= λ start. run_blocking 3 two_puts start) ≡ ok b)
    × (length b.queue + 1 ≤ 3)
    × (b.put_log ≡ b.got_log ++ b.queue)
blocking_safe_example = blocking_safe 3 3 two_puts (omega arith) (omega arith)

blocking_live_example :
    (after.empty + length after.queue + 1 ≡ 3)
    × (after.full ≡ length after.queue)
    × ((0 < after.empty) ⊎ (0 < after.full))
blocking_live_example =
    blocking_live 3 3 two_puts after (omega arith) (omega arith) two_puts_run (omega arith)
