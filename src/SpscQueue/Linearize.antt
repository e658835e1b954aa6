-- ===== src/SpscQueue/Linearize.antt =====
-- Every interleaving of SpscQueueByFolly's two threads behaves as one queue.
use mathlib.Core.Path.{ap₂}
use cpp_base.Prelude.{
  ℕ, ◌-◌, ◌≤◌, ◌<◌, ◌≡◌, refl, sym, ap, ◌∙◌, none, List, [], ◌∷◌, ◌++◌, length, length-append,
  replicate, window, offset-zero, arith, Outcome, ok, subst, le→leb, length-replicate,
  get_or-replicate, append_assoc, append-nil, next, zero, suc,
}
use cpp_base.SpscQueue.{
  Spsc, Producer, Consumer, resting, writing, publishing, waiting, reading, copied, releasing,
  Event, silent, was_full, was_empty, pushed, popped, Move, call_put, call_get, producer_step,
  consumer_step, create_spsc, step_put, step_get, advance_put, advance_get, step, run_spsc,
  begin_put, begin_get,
}
use cpp_base.SpscQueue.Agree.{Agrees, Allows, AllowsAll}
use cpp_base.SpscQueue.Put.{put_begins, construct_lem, publish_lem}
use cpp_base.SpscQueue.Get.{get_begins, copy_lem, destroy_lem, release_lem}

module _ {ℓ} {A : Type ℓ} (s : Spsc A) (q : List A) (a : Agrees s q) where
  -- The step is defined, its event is one that the queue allows, and the queue goes on.
  abbrev pub Fits : Outcome (Spsc A × Event A) → Type ℓ
  Fits o =
      (r : Spsc A × Event A) × (o ≡ ok r)
      × ((q' : List A) × Allows (s.capacity - 1) q r.1 q' × Agrees r.0 q')

  stays : Fits (ok (s, silent))
  stays = ((s, silent), refl, (q, refl, a))

  put-Fits : (x : A) (p : Producer A) → s.producer ≡ p → Fits (ok (step_put s x p))
  unfolding step_put
  put-Fits x resting e = (begin_put s x, refl, put_begins s q a x e)
  put-Fits x (writing y w f) e = stays
  put-Fits x (publishing y f) e = stays

  get-Fits : (c : Consumer A) → s.consumer ≡ c → Fits (ok (step_get s c))
  unfolding step_get
  get-Fits waiting e = (begin_get s, refl, get_begins s q a e)
  get-Fits (reading r f) e = stays
  get-Fits (copied x r f) e = stays
  get-Fits (releasing x f) e = stays

  producer-Fits : (p : Producer A) → s.producer ≡ p → Fits (advance_put s p)
  unfolding advance_put
  producer-Fits resting e = stays
  producer-Fits (writing x w f) e =
      let (made, next_agrees) = construct_lem s q a x w f e in
      rw made (_, refl, (q, refl, next_agrees))
  producer-Fits (publishing x f) e = (_, refl, publish_lem s q a x f e)

  consumer-Fits : (c : Consumer A) → s.consumer ≡ c → Fits (advance_get s c)
  unfolding advance_get
  consumer-Fits waiting e = stays
  consumer-Fits (reading r f) e =
      let (x, made, next_agrees) = copy_lem s q a r f e in rw made (_, refl, (q, refl, next_agrees))
  consumer-Fits (copied x r f) e =
      let (made, next_agrees) = destroy_lem s q a x r f e in
      rw made (_, refl, (q, refl, next_agrees))
  consumer-Fits (releasing x f) e = (_, refl, release_lem s q a x f e)

  pub step-Fits : (m : Move A) → Fits (step s m)
  unfolding step
  step-Fits (call_put x) = put-Fits x s.producer refl
  step-Fits call_get = get-Fits s.consumer refl
  step-Fits producer_step = producer-Fits s.producer refl
  step-Fits consumer_step = consumer-Fits s.consumer refl

module _ {ℓ} {A : Type ℓ} where
  capacity-step_put :
      (s : Spsc A) (x : A) (p : Producer A) → (step_put s x p).0.capacity ≡ s.capacity
  unfolding step_put
  capacity-step_put s x resting = ground arith
  capacity-step_put s x (writing y w f) = refl
  capacity-step_put s x (publishing y f) = refl

  capacity-step_get : (s : Spsc A) (c : Consumer A) → (step_get s c).0.capacity ≡ s.capacity
  unfolding step_get
  capacity-step_get s waiting = ground arith
  capacity-step_get s (reading r f) = refl
  capacity-step_get s (copied x r f) = refl
  capacity-step_get s (releasing x f) = refl

  capacity-advance_put :
      (s : Spsc A) (p : Producer A) (r : Spsc A × Event A)
      → advance_put s p ≡ ok r
      → r.0.capacity ≡ s.capacity
  unfolding advance_put
  capacity-advance_put s resting r e = ground arith
  capacity-advance_put s (writing x w f) r e = ground arith
  capacity-advance_put s (publishing x f) r e = ground arith

  capacity-advance_get :
      (s : Spsc A) (c : Consumer A) (r : Spsc A × Event A)
      → advance_get s c ≡ ok r
      → r.0.capacity ≡ s.capacity
  unfolding advance_get
  capacity-advance_get s waiting r e = ground arith
  capacity-advance_get s (reading i f) r e = ground arith
  capacity-advance_get s (copied x i f) r e = ground arith
  capacity-advance_get s (releasing x f) r e = ground arith

  pub capacity-step :
      (s : Spsc A) (m : Move A) (r : Spsc A × Event A) → step s m ≡ ok r → r.0.capacity ≡ s.capacity
  unfolding step
  capacity-step s (call_put x) r e = ground (arith, capacity-step_put s x s.producer)
  capacity-step s call_get r e = ground (arith, capacity-step_get s s.consumer)
  capacity-step s producer_step r e = capacity-advance_put s s.producer r e
  capacity-step s consumer_step r e = capacity-advance_get s s.consumer r e

  run-Agrees :
      (limit : ℕ) (s : Spsc A) (q : List A) (ms : List (Move A))
      → s.capacity - 1 ≡ limit
      → Agrees s q
      → (t : Spsc A) × (es : List (Event A)) × (q' : List A) × (run_spsc s ms ≡ ok (t, es))
        × AllowsAll limit q es q'
        × Agrees t q'
  unfolding run_spsc
  run-Agrees limit s q [] e a = (s, [], q, refl, refl, a)
  run-Agrees limit s q (m ∷ ms) e a =
      let (r, did, (q1, allowed, b)) = step-Fits s q a m in
      let (t, es, q2, ran, rest, c) =
        run-Agrees limit r.0 q1 ms (ap (λ k. k - 1) (capacity-step s m r did) ∙ e) b in
      (t, r.1 ∷ es, q2, rw (did, ran), (q1, subst (λ k. Allows k q r.1 q1) e allowed, rest), c)

  window-replicate : (size m h n : ℕ) (d : A) → window size d (replicate m d) h n ≡ replicate n d
  window-replicate size m h zero d = refl
  window-replicate size m h (suc n) d =
      ap₂ ◌∷◌ (get_or-replicate m h d) (window-replicate size m (next size h) n d)

  abbrev pub fresh : ℕ → Spsc A
  fresh size = record {
    capacity = size;
    records = replicate size none;
    read_index = 0;
    write_index = 0;
    producer = resting;
    consumer = waiting;
  }

module _ {ℓ} {A : Type ℓ} where
  pub fresh-Agrees : (size : ℕ) → 2 ≤ size → Agrees {A = A} (fresh size) []
  fresh-Agrees size h = record {
    free = size;
    large = h;
    storage = length-replicate size none;
    read_in = omega arith;
    write_at = sym (offset-zero size 0 (omega arith));
    room = omega arith;
    sizes = omega arith;
    circle = window-replicate size size 0 size none;
    producer_at = tt;
    consumer_at = tt;
  }

  -- From the constructor on, whatever the interleaving of the two threads: no move leaves the
  -- defined behaviour (no record is read or destroyed that is not there, none is constructed over),
  -- and the calls return what a queue of at most `size - 1` elements allows, each at the moment of
  -- one of its own accesses: TryPut fails exactly on a full queue, TryGet on an empty one.
  pub linearizable :
      (size : ℕ) (ms : List (Move A))
      → 2 ≤ size
      → (s : Spsc A) × (t : Spsc A) × (es : List (Event A)) × (q : List A) × (create_spsc size
          ≡ ok s)
        × (run_spsc s ms ≡ ok (t, es))
        × AllowsAll (size - 1) [] es q
        × Agrees t q
  unfolding create_spsc
  linearizable size ms h =
      let (t, es, q, ran, allowed, a) =
        run-Agrees (size - 1) (fresh size) [] ms refl (fresh-Agrees size h) in
      (fresh size, t, es, q, rw (le→leb 2 size h), ran, allowed, a)

  abbrev pub pushes : List (Event A) → List A
  pushes [] = []
  pushes (pushed x ∷ es) = x ∷ pushes es
  pushes (_ ∷ es) = pushes es

  abbrev pub pops : List (Event A) → List A
  pops [] = []
  pops (popped x ∷ es) = x ∷ pops es
  pops (_ ∷ es) = pops es

  pushes-eq-pops :
      (limit : ℕ) (q : List A) (es : List (Event A)) (q' : List A)
      → AllowsAll limit q es q'
      → q ++ pushes es ≡ pops es ++ q'
  pushes-eq-pops limit q [] q' h = append-nil q ∙ sym h
  pushes-eq-pops limit q (silent ∷ es) q' (m, e, h) =
      ap (λ l. l ++ pushes es) (sym e) ∙ pushes-eq-pops limit m es q' h
  pushes-eq-pops limit q (was_full x ∷ es) q' (m, e, h) =
      ap (λ l. l ++ pushes es) (sym e.1) ∙ pushes-eq-pops limit m es q' h
  pushes-eq-pops limit q (was_empty ∷ es) q' (m, e, h) =
      ap (λ l. l ++ pushes es) (sym e.1) ∙ pushes-eq-pops limit m es q' h
  pushes-eq-pops limit q (pushed x ∷ es) q' (m, e, h) =
      sym (append_assoc q (x ∷ []) (pushes es))
      ∙ ap (λ l. l ++ pushes es) (sym e.1)
      ∙ pushes-eq-pops limit m es q' h
  pushes-eq-pops limit q (popped x ∷ es) q' (m, e, h) =
      ap (λ l. l ++ pushes es) e ∙ ap (◌∷◌ x) (pushes-eq-pops limit m es q' h)

  length-allowed :
      (limit : ℕ) (q : List A) (es : List (Event A)) (q' : List A)
      → length q ≤ limit
      → AllowsAll limit q es q'
      → length q' ≤ limit
  length-allowed limit q [] q' l h = omega (arith, ap length h)
  length-allowed limit q (silent ∷ es) q' l (m, e, h) =
      length-allowed limit m es q' (omega (arith, ap length e)) h
  length-allowed limit q (was_full x ∷ es) q' l (m, e, h) =
      length-allowed limit m es q' (omega (arith, ap length e.1)) h
  length-allowed limit q (was_empty ∷ es) q' l (m, e, h) =
      length-allowed limit m es q' (omega (arith, ap length e.1)) h
  length-allowed limit q (pushed x ∷ es) q' l (m, e, h) =
      length-allowed limit m es q' (omega (arith, e.0, ap length e.1, length-append q (x ∷ []))) h
  length-allowed limit q (popped x ∷ es) q' l (m, e, h) =
      length-allowed limit m es q' (omega (arith, ap length e)) h

  -- In every run from the constructor, the elements put are the elements got, in the same order,
  -- followed by fewer than `size` that are still queued.
  pub fifo :
      (size : ℕ) (ms : List (Move A)) {s t : Spsc A} {es : List (Event A)}
      → 2 ≤ size
      → create_spsc size ≡ ok s
      → run_spsc s ms ≡ ok (t, es)
      → (q : List A) × (pushes es ≡ pops es ++ q) × (length q < size)
  fifo size ms {s} {t} {es} h made ran =
      let (s', t', es', q, made', ran', allowed, a) = linearizable size ms h in
      let e : es' ≡ es = cc in
      (
        q,
        subst (λ l. pushes l ≡ pops l ++ q) e (pushes-eq-pops (size - 1) [] es' q allowed),
        omega (arith, length-allowed (size - 1) [] es' q (omega arith) allowed),
      )
