-- ===== src/SpscQueue/Get.antt =====
-- Each access of SpscQueueByFolly's TryGet to the shared memory keeps the agreement with the queue.
use native.Mathlib.Decide.{dec_lt}
use cpp_base.Prelude.{
  ℕ, suc, ◌<◌, ◌≡◌, refl, sym, none, some, List, [], ◌∷◌, ◌++◌, map, length, replicate, window,
  offset, next, arith, get_or, set, ap, append_assoc, ◌∙◌, replicate-snoc, length-set, next-lt,
  offset-next, offset-zero, get_elem?-eq-get_or, ok, subst, ◌==◌, Bool-cases, inl, inr,
}
use cpp_base.SpscQueue.{
  Spsc, Producer, resting, writing, publishing, waiting, reading, copied, releasing, next_record,
  popped, begin_get, object_at,
}
use cpp_base.SpscQueue.Circle.{window-set, get_or-window, window_turn}
use cpp_base.SpscQueue.Put.{next_record-eq-next, Keeps}
use cpp_base.SpscQueue.Agree.{Agrees, ProducerAt, ConsumerAt, front, back}

nonempty {ℓ} : {A : Type ℓ} (q : List A) → 0 < length q → (x : A) × (t : List A) × (q ≡ x ∷ t)
nonempty [] h = absurd (omega arith)
nonempty (x ∷ t) h = (x, t, refl)

empty {ℓ} : {A : Type ℓ} (q : List A) → length q ≡ 0 → q ≡ []
empty [] h = refl
empty (x ∷ t) h = absurd (omega arith)

producer-tail {ℓ} :
    {A : Type ℓ} (s : Spsc A) (x : A) (t : List A) (p : Producer A)
    → ProducerAt s (x ∷ t) p
    → ProducerAt s t p
producer-tail s x t resting h = tt
producer-tail s x t (writing y w f) h = (h.0, h.1, omega arith)
producer-tail s x t (publishing y f) h = (h.0, omega arith)

module _ {ℓ} {A : Type ℓ} (s : Spsc A) (q : List A) (a : Agrees s q) where
  pub empty_iff :
      ((s.read_index ≡ s.write_index) → length q ≡ 0)
      × (length q ≡ 0 → s.read_index ≡ s.write_index)
  unfolding offset
  empty_iff = (λ e. ground (arith, a.write_at), λ e. ground (arith, a.write_at))

  not_empty : ¬ (s.read_index ≡ s.write_index) → 0 < length q
  not_empty h = elim (dec_lt 0 (length q)) [
    | yes p ↦ p
    | no p ↦ absurd (h (empty_iff.1 (omega arith)))
  ]

  pub begin_reading :
      s.consumer ≡ waiting
      → (x : A) (t : List A) → q ≡ x ∷ t
      → Agrees
          (record s { consumer = reading s.read_index (next_record s.capacity s.read_index) })
          q
  begin_reading e x t h = record {
    free = a.free;
    large = a.large;
    storage = a.storage;
    read_in = a.read_in;
    write_at = a.write_at;
    room = a.room;
    sizes = a.sizes;
    circle =
        subst
          (λ c.
            window s.capacity none s.records s.read_index s.capacity
            ≡ front c q ++ (back s.producer ++ replicate a.free none))
          e a.circle;
    producer_at = a.producer_at;
    consumer_at = (refl, refl, (x, t, h));
  }

  pub get_begins : s.consumer ≡ waiting → Keeps s q a (begin_get s)
  unfolding begin_get
  get_begins e = elim (Bool-cases (s.read_index == s.write_index)) [
    | inl none_left ↦ rw none_left (q, (empty q (empty_iff.0 (ground arith)), refl), a)
    | inr more ↦
        let (x, t, h) = nonempty q (not_empty (λ h. ground arith)) in
        rw more (q, refl, begin_reading e x t h)
  ]

  -- The record at the read index holds the first element until the consumer destroys it.
  pub read_slot :
      (x : A) (t : List A)
      → q ≡ x ∷ t
      → front s.consumer q ≡ map some q
      → get_or s.records s.read_index none ≡ some x
  read_slot x t e f =
      ap (λ i. get_or s.records i none) (sym (offset-zero s.capacity s.read_index a.read_in))
      ∙ sym (
          get_or-window s.capacity none s.records s.read_index s.capacity 0 a.read_in (omega arith)
            (omega (arith, a.large)))
      ∙ ap (λ l. get_or l 0 none) a.circle
      ∙ ap (λ l. get_or (l ++ (back s.producer ++ replicate a.free none)) 0 none) f
      ∙ ap (λ l. get_or (map some l ++ (back s.producer ++ replicate a.free none)) 0 none) e

  pub copy_lem :
      (r f : ℕ)
      → s.consumer ≡ reading r f
      → (x : A) × (object_at s.records r ≡ ok x) × Agrees (record s { consumer = copied x r f }) q
  unfolding object_at
  copy_lem r f e =
      let ca : ConsumerAt s q (reading r f) = subst (ConsumerAt s q) e a.consumer_at in
      let x = ca.2.0 in
      (
        x,
        ground (
          arith,
          read_slot x ca.2.1 ca.2.2 (ap (λ c. front c q) e),
          get_elem?-eq-get_or s.records r none,
          a.read_in,
          a.storage,
        ),
        record {
          free = a.free;
          large = a.large;
          storage = a.storage;
          read_in = a.read_in;
          write_at = a.write_at;
          room = a.room;
          sizes = a.sizes;
          circle = a.circle ∙ ap (λ c. front c q ++ (back s.producer ++ replicate a.free none)) e;
          producer_at = a.producer_at;
          consumer_at = (ca.0, ca.1, (ca.2.1, ca.2.2));
        },
      )

  circle_destroyed :
      (x : A) (t : List A)
      → q ≡ x ∷ t
      → front s.consumer q ≡ map some q
      → window s.capacity none (set s.records s.read_index none) s.read_index s.capacity
        ≡ none ∷ (map some t ++ (back s.producer ++ replicate a.free none))
  circle_destroyed x t e f =
      subst
        (λ i.
          window s.capacity none (set s.records i none) s.read_index s.capacity
          ≡ none ∷ (map some t ++ (back s.producer ++ replicate a.free none)))
        (offset-zero s.capacity s.read_index a.read_in)
        (window-set s.capacity none s.records s.read_index s.capacity 0 none a.read_in (omega arith)
            (omega (arith, a.large)) (omega (arith, a.storage))
          ∙ ap (λ l. set l 0 none)
              (a.circle
                ∙ ap (λ l. l ++ (back s.producer ++ replicate a.free none)) (f ∙ ap (map some) e)))

  pub destroy_lem :
      (x : A) (r f : ℕ)
      → s.consumer ≡ copied x r f
      → (object_at s.records r ≡ ok x)
        × Agrees (record s { records = set s.records r none; consumer = releasing x f }) q
  unfolding object_at
  destroy_lem x r f e =
      let ca : ConsumerAt s q (copied x r f) = subst (ConsumerAt s q) e a.consumer_at in
      let t = ca.2.0 in
      (
        ground (
          arith,
          read_slot x t ca.2.1 (ap (λ c. front c q) e),
          get_elem?-eq-get_or s.records r none,
          a.read_in,
          a.storage,
        ),
        record {
          free = a.free;
          large = a.large;
          storage = length-set s.records r none ∙ a.storage;
          read_in = a.read_in;
          write_at = a.write_at;
          room = a.room;
          sizes = a.sizes;
          circle =
              ap (λ i. window s.capacity none (set s.records i none) s.read_index s.capacity) ca.0
              ∙ circle_destroyed x t ca.2.1 (ap (λ c. front c q) e)
              ∙ ap (λ l. front (releasing x f) l ++ (back s.producer ++ replicate a.free none))
                  (sym ca.2.1);
          producer_at = a.producer_at;
          consumer_at = (ca.1 ∙ ap (next_record s.capacity) ca.0, (t, ca.2.1));
        },
      )

  circle_released :
      (t : List A)
      → window s.capacity none s.records s.read_index s.capacity
        ≡ none ∷ (map some t ++ (back s.producer ++ replicate a.free none))
      → window s.capacity none s.records (next s.capacity s.read_index) s.capacity
        ≡ map some t ++ (back s.producer ++ replicate (suc a.free) none)
  circle_released t e =
      window_turn s.capacity none s.records s.read_index s.capacity none
        (map some t ++ (back s.producer ++ replicate a.free none)) a.read_in refl e
      ∙ append_assoc (map some t) (back s.producer ++ replicate a.free none) (none ∷ [])
      ∙ ap (λ l. map some t ++ l)
          (append_assoc (back s.producer) (replicate a.free none) (none ∷ [])
            ∙ ap (λ l. back s.producer ++ l) (replicate-snoc a.free none))

  -- The store of readIndex_ takes the element off the queue.
  pub release_lem :
      (x : A) (f : ℕ)
      → s.consumer ≡ releasing x f
      → Keeps s q a (record s { read_index = f; consumer = waiting }, popped x)
  release_lem x f e =
      let ca : ConsumerAt s q (releasing x f) = subst (ConsumerAt s q) e a.consumer_at in
      let t = ca.1.0 in
      let n : length q ≡ suc (length t) = ap length ca.1.1 in
      let g : f ≡ next s.capacity s.read_index =
        ca.0 ∙ next_record-eq-next s.capacity s.read_index in
      (
        t,
        ca.1.1,
        record {
          free = suc a.free;
          large = a.large;
          storage = a.storage;
          read_in = rw g (next-lt s.capacity s.read_index a.read_in);
          write_at =
              a.write_at
              ∙ ap (offset s.capacity s.read_index) n
              ∙ sym
                  (offset-next s.capacity s.read_index (length t) a.read_in (omega (arith, a.room)))
              ∙ ap (λ i. offset s.capacity i (length t)) (sym g);
          room = omega (arith, a.room);
          sizes = omega (arith, a.sizes);
          circle =
              ap (λ i. window s.capacity none s.records i s.capacity) g
              ∙ circle_released t (
                  a.circle
                  ∙ ap (λ l. l ++ (back s.producer ++ replicate a.free none))
                      (ap (λ c. front c q) e ∙ ap (front (releasing x f)) ca.1.1));
          producer_at =
              producer-tail s x t s.producer
                (subst (λ l. ProducerAt s l s.producer) ca.1.1 a.producer_at);
          consumer_at = tt;
        },
      )
