-- ===== src/RingBuffer/Tests.antt =====
-- Runs of RingBuffer, and each theorem at an input. See data-struct/ring_buffer_test.cc.
use cpp_base.Fifo
use cpp_base.Fifo.{Op, try_put, try_get, Reply, did_put, did_get}
use cpp_base.Prelude.{
  ℕ, ◌≡◌, next, refl, true, false, none, some, List, [], ◌∷◌, arith, ok, ◌^◌, ◌+◌, undefined,
}
use cpp_base.RingBuffer.{RingBuffer, nonneg, create, run_ring, try_put_ring, try_get_ring}
use cpp_base.RingBuffer.Validity.{IsValid, create_lem}
use cpp_base.RingBuffer.Overflow.{overflowing, put_overflow}
use cpp_base.RingBuffer.Refine.{run_ring-refines}

-- 8, then 9, round the end of the vector.
abbrev wrapped : RingBuffer ℕ
wrapped = record { capacity = 3; front = 2; count = 2; items = 9 ∷ 7 ∷ 8 ∷ [] }

abbrev calls : List (Op ℕ)
calls = try_put 1 ∷ try_put 2 ∷ try_get ∷ try_get ∷ try_get ∷ try_get ∷ []

wrapped-IsValid : IsValid wrapped
wrapped-IsValid = omega arith

run-wrapped :
    run_ring wrapped calls
    ≡ ok (
        did_put true
        ∷ did_put false
        ∷ did_get (some 8)
        ∷ did_get (some 9)
        ∷ did_get (some 1)
        ∷ did_get none
        ∷ [])
unfolding run_ring try_put_ring try_get_ring
run-wrapped = refl

create_lem_example :
    (r : RingBuffer ℕ) × (create 0 (nonneg 3) ≡ ok r) × IsValid r × (r.count ≡ 0) × (r.capacity ≡ 3)
create_lem_example = create_lem 0 3 (omega arith) (omega arith)

run_ring-refines_example : run_ring wrapped calls ≡ ok (Fifo.run 3 (8 ∷ 9 ∷ []) calls)
unfolding next
run_ring-refines_example = run_ring-refines 0 wrapped calls wrapped-IsValid

put_overflow_example :
    (r : RingBuffer ℕ) × (create 0 (nonneg (2 ^ 30 + 1)) ≡ ok r)
    × (run_ring r (overflowing 5 (2 ^ 30 + 1)) ≡ undefined)
put_overflow_example = put_overflow 0 5 (2 ^ 30 + 1) (omega arith) (omega arith)
