-- ===== src/Semaphores/Safe.antt =====
-- No CHECK of BlockingQueueBySemaphore fails, whatever its threads do.
use cpp_base.Prelude.{
  ℕ, zero, suc, ◌+◌, ◌-◌, ◌≤◌, ◌<◌, ◌≡◌, refl, ap, ◌∙◌, sym, arith, List, [], ◌++◌, length, Outcome,
  ok, fatal, ◌>>=◌, ◌>>◌, check, ◌⊎◌, inl, inr, le→leb,
}
use cpp_base.Semaphores.{Blocking, Action, create_blocking, run_blocking}
use cpp_base.Semaphores.Counted.{IsCounted, run-IsCounted}
use cpp_base.Prelude.{subst, thrown, undefined}

one_free : (x y : ℕ) → 1 ≤ x + y → (0 < x) ⊎ (0 < y)
one_free zero y h = inr (omega arith)
one_free (suc x) y h = inl (omega arith)

module _ {ℓ} {A : Type ℓ} where
  abbrev result : Blocking A → Outcome (Blocking A) → Blocking A
  result b (ok x) = x
  result b fatal = b
  result b thrown = b
  result b undefined = b

  create_blocking-IsCounted :
      (capacity limit : ℕ) (actions : List (Action A))
      → 2 ≤ capacity
      → capacity ≤ limit + 1
      → (b : Blocking A) × ((create_blocking capacity >>= λ start. run_blocking limit actions start)
          ≡ ok b)
        × IsCounted capacity b
  unfolding create_blocking
  create_blocking-IsCounted capacity limit actions h hl =
      let start : Blocking A = record {
        full = 0;
        empty = capacity - 1;
        queue = [];
        putting = [];
        posting = 0;
        taking = 0;
        freeing = 0;
        put_log = [];
        got_log = [];
      } in
      let (b, e, counted) =
        run-IsCounted capacity limit actions start hl
          (record { room_is = omega arith; filled_is = omega arith; order_is = refl }) in
      (
        b,
        ap (λ t. (check t >> ok start) >>= λ s. run_blocking limit actions s) (le→leb 2 capacity h)
            ∙ e,
        counted,
      )

  -- From the constructor on, with a queue that holds at least capacity - 1 elements, no CHECK fails in
  -- any execution of any number of threads; the queue never holds more than capacity - 1 elements, and
  -- what was put is, in order, what was got and then what the queue holds.
  pub blocking_safe :
      (capacity limit : ℕ) (actions : List (Action A))
      → 2 ≤ capacity
      → capacity ≤ limit + 1
      → (b : Blocking A) × ((create_blocking capacity >>= λ start. run_blocking limit actions start)
          ≡ ok b)
        × (length b.queue + 1 ≤ capacity)
        × (b.put_log ≡ b.got_log ++ b.queue)
  blocking_safe capacity limit actions h hl =
      let (b, e, counted) = create_blocking-IsCounted capacity limit actions h hl in
      (b, e, omega (arith, counted.room_is), counted.order_is)

  -- In every execution from the constructor on that has left no thread within a call, a Put or TryPut
  -- finds the semaphore free just where fewer than capacity - 1 elements are queued, a Get or TryGet
  -- just where there is one, and so one of the two never waits.
  pub blocking_live :
      (capacity limit : ℕ) (actions : List (Action A)) (b : Blocking A)
      → 2 ≤ capacity
      → capacity ≤ limit + 1
      → (create_blocking capacity >>= λ start. run_blocking limit actions start) ≡ ok b
      → length b.putting + b.posting + b.taking + b.freeing ≡ 0
      → (b.empty + length b.queue + 1 ≡ capacity)
        × (b.full ≡ length b.queue)
        × ((0 < b.empty) ⊎ (0 < b.full))
  blocking_live capacity limit actions b h hl e idle =
      let (b', e', counted') = create_blocking-IsCounted capacity limit actions h hl in
      let same : b' ≡ b = ap (result b) (sym e' ∙ e) in
      let counted = subst (IsCounted capacity) same counted' in
      let room : b.empty + length b.queue + 1 ≡ capacity = omega (arith, counted.room_is, idle) in
      let filled : b.full ≡ length b.queue = omega (arith, counted.filled_is, idle) in
      (room, filled, one_free b.empty b.full (omega (arith, room, filled, h)))
