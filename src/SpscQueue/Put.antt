-- ===== src/SpscQueue/Put.antt =====
-- Each access of SpscQueueByFolly's TryPut to the shared memory keeps the agreement with the queue.
use cpp_base.Prelude.{
  ℕ, suc, ◌+◌, ◌-◌, ◌<◌, ◌≡◌, refl, sym, none, some, List, [], ◌∷◌, ◌++◌, length, replicate, window,
  offset, next, arith, get_or, set, ap, append_assoc, ◌∙◌, set-append, get_or-append, length-append,
  length-set, offset-lt, next-offset, get_elem?-eq-get_or, ok, subst, ◌==◌, Bool-cases, inl, inr,
}
use mathlib.Core.List.{map-append}
use native.Mathlib.Decide.{dec_lt}
use cpp_base.SpscQueue.{
  Spsc, Consumer, resting, writing, publishing, waiting, reading, copied, releasing, next_record,
  Event, pushed, begin_put, construct,
}
use cpp_base.SpscQueue.Circle.{window-set, get_or-window}
use cpp_base.SpscQueue.Agree.{Agrees, ProducerAt, ConsumerAt, front, back, Allows, length-front}

pub next_record-eq-next : (size h : ℕ) → next_record size h ≡ next size h
unfolding next_record next
next_record-eq-next size h = refl

module _ {ℓ} {A : Type ℓ} (s : Spsc A) (q : List A) (x : A) where
  front-snoc :
      (c : Consumer A) → ConsumerAt s q c → front c (q ++ (x ∷ [])) ≡ front c q ++ (some x ∷ [])
  front-snoc waiting h = map-append some q (x ∷ [])
  front-snoc (reading r f) h = map-append some q (x ∷ [])
  front-snoc (copied y r f) h = map-append some q (x ∷ [])
  front-snoc (releasing y f) h = rw h.1.1 (ap (◌∷◌ none) (map-append some h.1.0 (x ∷ [])))

  consumer-snoc : (c : Consumer A) → ConsumerAt s q c → ConsumerAt s (q ++ (x ∷ [])) c
  consumer-snoc waiting h = tt
  consumer-snoc (reading r f) h = (h.0, h.1, (h.2.0, h.2.1 ++ (x ∷ []), rw h.2.2))
  consumer-snoc (copied y r f) h = (h.0, h.1, (h.2.0 ++ (x ∷ []), rw h.2.1))
  consumer-snoc (releasing y f) h = (h.0, (h.1.0 ++ (x ∷ []), rw h.1.1))

module _ {ℓ} {A : Type ℓ} (s : Spsc A) (q : List A) (a : Agrees s q) where
  -- One place past the queue lies the read index exactly if the queue has `capacity - 1` elements.
  pub full_iff :
      ((next_record s.capacity s.write_index ≡ s.read_index) → suc (length q) ≡ s.capacity)
      × (suc (length q) ≡ s.capacity → next_record s.capacity s.write_index ≡ s.read_index)
  unfolding next_record offset
  full_iff = (λ e. ground (arith, a.write_at), λ e. ground (arith, a.write_at))

  not_full : ¬ (next_record s.capacity s.write_index ≡ s.read_index) → suc (length q) < s.capacity
  not_full h = elim (dec_lt (suc (length q)) s.capacity) [
    | yes p ↦ p
    | no p ↦ absurd (h (full_iff.1 (omega (arith, a.room))))
  ]

  abbrev pub Keeps : Spsc A × Event A → Type ℓ
  Keeps r = (q' : List A) × Allows (s.capacity - 1) q r.1 q' × Agrees r.0 q'

  pub put_begins : (x : A) → s.producer ≡ resting → Keeps (begin_put s x)
  unfolding begin_put
  put_begins x e = elim (Bool-cases (next_record s.capacity s.write_index == s.read_index)) [
    | inl full ↦ rw full (q, (omega (arith, full_iff.0 (ground arith), a.large), refl), a)
    | inr more ↦ rw more (
      q,
      refl,
      record {
        free = a.free;
        large = a.large;
        storage = a.storage;
        read_in = a.read_in;
        write_at = a.write_at;
        room = a.room;
        sizes = subst (λ p. length q + length (back p) + a.free ≡ s.capacity) e a.sizes;
        circle =
            subst
              (λ p.
                window s.capacity none s.records s.read_index s.capacity
                ≡ front s.consumer q ++ (back p ++ replicate a.free none))
              e a.circle;
        producer_at = (refl, refl, omega (arith, not_full (λ h. ground arith)));
        consumer_at = a.consumer_at;
      },
    )
  ]

  -- The circle, where the producer has constructed nothing and a record is free.
  circle_free :
      back s.producer ≡ []
      → 0 < a.free
      → window s.capacity none s.records s.read_index s.capacity
        ≡ front s.consumer q ++ (none ∷ replicate (a.free - 1) none)
  circle_free b h =
      a.circle
      ∙ ap (λ l. front s.consumer q ++ (l ++ replicate a.free none)) b
      ∙ ap (λ k. front s.consumer q ++ replicate k none) {x = a.free} {y = suc (a.free - 1)}
          (omega arith)

  write_slot : back s.producer ≡ [] → 0 < a.free → get_or s.records s.write_index none ≡ none
  write_slot b h = rw a.write_at (
      sym (
        get_or-window s.capacity none s.records s.read_index s.capacity (length q) a.read_in
          (omega arith) a.room)
      ∙ ap (λ l. get_or l (length q) none) (circle_free b h)
      ∙ ap (λ k. get_or (front s.consumer q ++ (none ∷ replicate (a.free - 1) none)) k none)
          (sym (length-front s.consumer q))
      ∙ get_or-append (front s.consumer q) none none (replicate (a.free - 1) none))

  circle_written :
      (x : A)
      → back s.producer ≡ []
      → 0 < a.free
      → window s.capacity none (set s.records s.write_index (some x)) s.read_index s.capacity
        ≡ front s.consumer q ++ (some x ∷ replicate (a.free - 1) none)
  circle_written x b h = rw a.write_at (
      window-set s.capacity none s.records s.read_index s.capacity (length q) (some x) a.read_in
        (omega arith) a.room (omega (arith, a.storage))
      ∙ ap (λ l. set l (length q) (some x)) (circle_free b h)
      ∙ ap (λ k. set (front s.consumer q ++ (none ∷ replicate (a.free - 1) none)) k (some x))
          (sym (length-front s.consumer q))
      ∙ set-append (front s.consumer q) none (some x) (replicate (a.free - 1) none))

  pub construct_lem :
      (x : A) (w f : ℕ)
      → s.producer ≡ writing x w f
      → (construct s.records w x ≡ ok (set s.records s.write_index (some x)))
        × Agrees
            (record s { records = set s.records s.write_index (some x); producer = publishing x f })
            q
  unfolding construct
  construct_lem x w f e =
      let pa : ProducerAt s q (writing x w f) = subst (ProducerAt s q) e a.producer_at in
      let b : back s.producer ≡ [] = ap back e in
      let h : 0 < a.free = omega (arith, ap length b, a.sizes) in
      (
        ground (
          arith,
          write_slot b h,
          get_elem?-eq-get_or s.records w none,
          offset-lt s.capacity s.read_index (length q) a.read_in,
        ),
        record {
          free = a.free - 1;
          large = a.large;
          storage = length-set s.records s.write_index (some x) ∙ a.storage;
          read_in = a.read_in;
          write_at = a.write_at;
          room = a.room;
          sizes = omega (arith, ap length b, a.sizes);
          circle = circle_written x b h;
          producer_at = (pa.1 ∙ ap (next_record s.capacity) pa.0, pa.2);
          consumer_at = a.consumer_at;
        },
      )

  -- The store of writeIndex_ adds the element to the queue.
  pub publish_lem :
      (x : A) (f : ℕ)
      → s.producer ≡ publishing x f
      → Keeps (record s { write_index = f; producer = resting }, pushed x)
  publish_lem x f e =
      let pa : ProducerAt s q (publishing x f) = subst (ProducerAt s q) e a.producer_at in
      (
        q ++ (x ∷ []),
        (omega (arith, a.room, pa.1), refl),
        record {
          free = a.free;
          large = a.large;
          storage = a.storage;
          read_in = a.read_in;
          write_at =
              pa.0
              ∙ next_record-eq-next s.capacity s.write_index
              ∙ ap (next s.capacity) a.write_at
              ∙ next-offset s.capacity s.read_index (length q) a.read_in (omega (arith, pa.1))
              ∙ ap (offset s.capacity s.read_index) (omega (arith, length-append q (x ∷ [])));
          room = omega (arith, pa.1, length-append q (x ∷ []));
          sizes = omega (arith, a.sizes, ap length (ap back e), length-append q (x ∷ []));
          circle =
              a.circle
              ∙ ap (λ p. front s.consumer q ++ (back p ++ replicate a.free none)) e
              ∙ sym (append_assoc (front s.consumer q) (some x ∷ []) (replicate a.free none))
              ∙ ap (λ l. l ++ replicate a.free none)
                  (sym (front-snoc s q x s.consumer a.consumer_at));
          producer_at = tt;
          consumer_at = consumer-snoc s q x s.consumer a.consumer_at;
        },
      )
