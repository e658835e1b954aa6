-- ===== src/SpscQueue/Sides.antt =====
-- What the moves of one thread of SpscQueueByFolly leave to the other one, and do to the queue.
use cpp_base.Prelude.{
  ℕ, ◌≡◌, refl, sym, ap, ◌∙◌, List, [], ◌∷◌, ◌++◌, append-nil, append_assoc, arith, ok, subst,
}
use cpp_base.SpscQueue.{
  Spsc, Producer, Consumer, resting, writing, publishing, waiting, reading, copied, releasing,
  Event, silent, was_full, was_empty, pushed, popped, Move, call_put, call_get, producer_step,
  consumer_step, step_put, step_get, advance_put, advance_get, step, run_spsc,
}
use cpp_base.SpscQueue.Agree.{Agrees, Allows}
use cpp_base.SpscQueue.Linearize.{step-Fits, capacity-step}

module _ {ℓ} {A : Type ℓ} where
  -- The moves of the producer alone, and of the consumer alone.
  abbrev pub AreProducers : List (Move A) → Type 0
  AreProducers [] = Unit
  AreProducers (call_put x ∷ ms) = AreProducers ms
  AreProducers (producer_step ∷ ms) = AreProducers ms
  AreProducers (call_get ∷ ms) = ⊥
  AreProducers (consumer_step ∷ ms) = ⊥

  abbrev pub AreConsumers : List (Move A) → Type 0
  AreConsumers [] = Unit
  AreConsumers (call_get ∷ ms) = AreConsumers ms
  AreConsumers (consumer_step ∷ ms) = AreConsumers ms
  AreConsumers (call_put x ∷ ms) = ⊥
  AreConsumers (producer_step ∷ ms) = ⊥

  abbrev IsPut : Event A → Type 0
  IsPut silent = Unit
  IsPut (was_full x) = Unit
  IsPut (pushed x) = Unit
  IsPut was_empty = ⊥
  IsPut (popped x) = ⊥

  abbrev IsGet : Event A → Type 0
  IsGet silent = Unit
  IsGet was_empty = Unit
  IsGet (popped x) = Unit
  IsGet (was_full x) = ⊥
  IsGet (pushed x) = ⊥

  step_put_lem :
      (s : Spsc A) (x : A) (p : Producer A)
      → ((step_put s x p).0.read_index ≡ s.read_index) × IsPut (step_put s x p).1
  unfolding step_put
  step_put_lem s x resting = ground arith
  step_put_lem s x (writing y w f) = (refl, tt)
  step_put_lem s x (publishing y f) = (refl, tt)

  step_get_lem :
      (s : Spsc A) (c : Consumer A)
      → ((step_get s c).0.write_index ≡ s.write_index) × IsGet (step_get s c).1
  unfolding step_get
  step_get_lem s waiting = ground arith
  step_get_lem s (reading r f) = (refl, tt)
  step_get_lem s (copied x r f) = (refl, tt)
  step_get_lem s (releasing x f) = (refl, tt)

  advance_put_lem :
      (s : Spsc A) (p : Producer A) (r : Spsc A × Event A)
      → advance_put s p ≡ ok r
      → (r.0.read_index ≡ s.read_index) × IsPut r.1
  unfolding advance_put
  advance_put_lem s resting r e = ground arith
  advance_put_lem s (writing x w f) r e = ground arith
  advance_put_lem s (publishing x f) r e = ground arith

  advance_get_lem :
      (s : Spsc A) (c : Consumer A) (r : Spsc A × Event A)
      → advance_get s c ≡ ok r
      → (r.0.write_index ≡ s.write_index) × IsGet r.1
  unfolding advance_get
  advance_get_lem s waiting r e = ground arith
  advance_get_lem s (reading i f) r e = ground arith
  advance_get_lem s (copied x i f) r e = ground arith
  advance_get_lem s (releasing x f) r e = ground arith

  Allows-IsPut :
      (limit : ℕ) (q : List A) (e : Event A) (q' : List A)
      → Allows limit q e q'
      → IsPut e
      → (added : List A) × (q' ≡ q ++ added)
  Allows-IsPut limit q silent q' h p = ([], h ∙ sym (append-nil q))
  Allows-IsPut limit q (was_full x) q' h p = ([], h.1 ∙ sym (append-nil q))
  Allows-IsPut limit q (pushed x) q' h p = (x ∷ [], h.1)
  Allows-IsPut limit q was_empty q' h p = absurd p
  Allows-IsPut limit q (popped x) q' h p = absurd p

  Allows-IsGet :
      (limit : ℕ) (q : List A) (e : Event A) (q' : List A)
      → Allows limit q e q'
      → IsGet e
      → (taken : List A) × (q ≡ taken ++ q')
  Allows-IsGet limit q silent q' h g = ([], sym h)
  Allows-IsGet limit q was_empty q' h g = ([], sym h.1)
  Allows-IsGet limit q (popped x) q' h g = (x ∷ [], h)
  Allows-IsGet limit q (was_full x) q' h g = absurd g
  Allows-IsGet limit q (pushed x) q' h g = absurd g

  producer_moves :
      (s : Spsc A) (m : Move A) (ms : List (Move A)) (r : Spsc A × Event A)
      → AreProducers (m ∷ ms)
      → step s m ≡ ok r
      → AreProducers ms × (r.0.read_index ≡ s.read_index) × IsPut r.1
  unfolding step
  producer_moves s (call_put x) ms r h e =
      let same : (r.0.read_index ≡ s.read_index) × IsPut r.1 =
        ground (arith, step_put_lem s x s.producer) in
      (h, same.0, same.1)
  producer_moves s producer_step ms r h e =
      let same = advance_put_lem s s.producer r e in (h, same.0, same.1)
  producer_moves s call_get ms r h e = absurd h
  producer_moves s consumer_step ms r h e = absurd h

  consumer_moves :
      (s : Spsc A) (m : Move A) (ms : List (Move A)) (r : Spsc A × Event A)
      → AreConsumers (m ∷ ms)
      → step s m ≡ ok r
      → AreConsumers ms × (r.0.write_index ≡ s.write_index) × IsGet r.1
  unfolding step
  consumer_moves s call_get ms r h e =
      let same : (r.0.write_index ≡ s.write_index) × IsGet r.1 =
        ground (arith, step_get_lem s s.consumer) in
      (h, same.0, same.1)
  consumer_moves s consumer_step ms r h e =
      let same = advance_get_lem s s.consumer r e in (h, same.0, same.1)
  consumer_moves s (call_put x) ms r h e = absurd h
  consumer_moves s producer_step ms r h e = absurd h

  -- The producer alone adds to the queue, and leaves the read index.
  pub producers_run :
      (s : Spsc A) (q : List A) (ms : List (Move A))
      → Agrees s q
      → AreProducers ms
      → (t : Spsc A) × (es : List (Event A)) × (added : List A) × (run_spsc s ms ≡ ok (t, es))
        × Agrees t (q ++ added)
        × (t.read_index ≡ s.read_index)
        × (t.capacity ≡ s.capacity)
  unfolding run_spsc
  producers_run s q [] a h = (s, [], [], refl, subst (Agrees s) (sym (append-nil q)) a, refl, refl)
  producers_run s q (m ∷ ms) a h =
      let (r, did, (q1, allowed, b)) = step-Fits s q a m in
      let (rest, same, put) = producer_moves s m ms r h did in
      let (first, e) = Allows-IsPut _ q r.1 q1 allowed put in
      let (t, es, others, ran, c, still, size) = producers_run r.0 q1 ms b rest in
      (
        t,
        r.1 ∷ es,
        first ++ others,
        rw (did, ran),
        subst (Agrees t) (ap (λ l. l ++ others) e ∙ append_assoc q first others) c,
        still ∙ same,
        size ∙ capacity-step s m r did,
      )

  -- The consumer alone takes from the queue, and leaves the write index.
  pub consumers_run :
      (s : Spsc A) (q : List A) (ms : List (Move A))
      → Agrees s q
      → AreConsumers ms
      → (t : Spsc A) × (es : List (Event A)) × (taken : List A) × (left : List A) × (run_spsc s ms
          ≡ ok (t, es))
        × (q ≡ taken ++ left)
        × Agrees t left
        × (t.write_index ≡ s.write_index)
        × (t.capacity ≡ s.capacity)
  unfolding run_spsc
  consumers_run s q [] a h = (s, [], [], q, refl, refl, a, refl, refl)
  consumers_run s q (m ∷ ms) a h =
      let (r, did, (q1, allowed, b)) = step-Fits s q a m in
      let (rest, same, got) = consumer_moves s m ms r h did in
      let (first, e) = Allows-IsGet _ q r.1 q1 allowed got in
      let (t, es, others, left, ran, f, c, still, size) = consumers_run r.0 q1 ms b rest in
      (
        t,
        r.1 ∷ es,
        first ++ others,
        left,
        rw (did, ran),
        e ∙ ap (λ l. first ++ l) f ∙ sym (append_assoc first others left),
        c,
        still ∙ same,
        size ∙ capacity-step s m r did,
      )
