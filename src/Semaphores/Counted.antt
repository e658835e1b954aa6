-- ===== src/Semaphores/Counted.antt =====
-- The tokens of the two semaphores of BlockingQueueBySemaphore are never lost nor doubled.
use cpp_base.Prelude.{
  ℕ, zero, suc, ◌+◌, ◌-◌, ◌≤◌, ◌<◌, ◌≡◌, refl, ap, ◌∙◌, sym, arith, none, some, List, [], ◌∷◌, ◌++◌,
  length, get_elem?, ltb, if◌then◌else◌, ok, fatal, ◌>>=◌, ◌>>◌, check, Bool-cases, Option-cases,
  ltb→lt, inl, inr, length-append, append_assoc,
}
use cpp_base.Fifo.{get, put_room}
use cpp_base.Semaphores.{
  Blocking, Action, begin_put, call_put, end_put, begin_get, call_get, end_get, remove_at,
  put_checked, get_checked, act, run_blocking,
}

module _ {ℓ} {A : Type ℓ} where
  length-remove_at :
      (xs : List A) (i : ℕ) (x : A)
      → get_elem? xs i ≡ some x
      → length (remove_at xs i) + 1 ≡ length xs
  length-remove_at [] i x h = absurd (cc h)
  length-remove_at (y ∷ xs) zero x h = omega arith
  length-remove_at (y ∷ xs) (suc i) x h = omega (arith, length-remove_at xs i x h)

  -- The tokens of the two semaphores, held by the threads within their calls or free.
  pub record IsCounted (capacity : ℕ) (b : Blocking A) : Type ℓ where
    pub room_is : b.empty + length b.putting + length b.queue + b.freeing + 1 ≡ capacity
    pub filled_is : b.full + b.posting + b.taking ≡ length b.queue
    pub order_is : b.put_log ≡ b.got_log ++ b.queue

  abbrev after_put : ℕ → A → Blocking A → List A → Blocking A
  after_put i x b q = record b {
    queue = q;
    putting = remove_at b.putting i;
    posting = b.posting + 1;
    put_log = b.put_log ++ (x ∷ []);
  }

  abbrev after_get : A → Blocking A → List A → Blocking A
  after_get x b q = record b {
    queue = q;
    taking = b.taking - 1;
    freeing = b.freeing + 1;
    got_log = b.got_log ++ (x ∷ []);
  }

  first_of : (q : List A) → 0 < length q → (x : A) × (rest : List A) × (q ≡ x ∷ rest)
  first_of [] h = absurd (omega arith)
  first_of (x ∷ rest) h = (x, rest, refl)

  put_checked-IsCounted :
      (capacity limit i : ℕ) (x : A) (b : Blocking A)
      → capacity ≤ limit + 1
      → IsCounted capacity b
      → get_elem? b.putting i ≡ some x
      → (b' : Blocking A) × (put_checked limit i x b ≡ ok b') × IsCounted capacity b'
  unfolding put_checked
  put_checked-IsCounted capacity limit i x b hl h e =
      let fewer = length-remove_at b.putting i x e in
      let room : length b.queue < limit = omega (arith, h.room_is, fewer, hl) in
      let longer = length-append b.queue (x ∷ []) in
      (
        after_put i x b (b.queue ++ (x ∷ [])),
        ap (λ p. check p.1 >> ok (after_put i x b p.0)) (put_room limit b.queue x room),
        record {
          room_is = omega (arith, h.room_is, fewer, longer);
          filled_is = omega (arith, h.filled_is, longer);
          order_is = ap (λ l. l ++ (x ∷ [])) h.order_is ∙ append_assoc b.got_log b.queue (x ∷ []);
        },
      )

  get_checked-IsCounted :
      (capacity : ℕ) (b : Blocking A)
      → IsCounted capacity b
      → 0 < b.taking
      → (b' : Blocking A) × (get_checked b ≡ ok b') × IsCounted capacity b'
  unfolding get_checked get
  get_checked-IsCounted capacity b h t =
      let (x, rest, e) = first_of b.queue (omega (arith, h.filled_is, t)) in
      let longer : length b.queue ≡ suc (length rest) = ap length e in
      (
        after_get x b rest,
        ap (λ q. elim (get q).1 [ none ↦ fatal | some y ↦ ok (after_get y b (get q).0) ]) e,
        record {
          room_is = omega (arith, h.room_is, longer);
          filled_is = omega (arith, h.filled_is, longer, t);
          order_is =
              h.order_is ∙ ap (◌++◌ b.got_log) e ∙ sym (append_assoc b.got_log (x ∷ []) rest);
        },
      )

  act-IsCounted :
      (capacity limit : ℕ) (a : Action A) (b : Blocking A)
      → capacity ≤ limit + 1
      → IsCounted capacity b
      → (b' : Blocking A) × (act limit a b ≡ ok b') × IsCounted capacity b'
  unfolding act
  act-IsCounted capacity limit (begin_put x) b hl h = elim (Bool-cases (ltb 0 b.empty)) [
    | inl f ↦ (
      record b { empty = b.empty - 1; putting = x ∷ b.putting },
      ap (λ t. ok (if t then record b { empty = b.empty - 1; putting = x ∷ b.putting } else b)) f,
      record {
        room_is = ground (arith, f, h.room_is);
        filled_is = h.filled_is;
        order_is = h.order_is;
      },
    )
    | inr f ↦ (
      b,
      ap (λ t. ok (if t then record b { empty = b.empty - 1; putting = x ∷ b.putting } else b)) f,
      h,
    )
  ]
  act-IsCounted capacity limit (call_put i) b hl h = elim (Option-cases (get_elem? b.putting i)) [
    | inl e ↦ (b, ap (λ o. elim o [ none ↦ ok b | some x ↦ put_checked limit i x b ]) e, h)
    | inr (x, e) ↦
        let (b', f, h') = put_checked-IsCounted capacity limit i x b hl h e in
        (b', ap (λ o. elim o [ none ↦ ok b | some x ↦ put_checked limit i x b ]) e ∙ f, h')
  ]
  act-IsCounted capacity limit end_put b hl h = elim (Bool-cases (ltb 0 b.posting)) [
    | inl f ↦ (
      record b { posting = b.posting - 1; full = b.full + 1 },
      ap (λ t. ok (if t then record b { posting = b.posting - 1; full = b.full + 1 } else b)) f,
      record {
        room_is = h.room_is;
        filled_is = ground (arith, f, h.filled_is);
        order_is = h.order_is;
      },
    )
    | inr f ↦ (
      b,
      ap (λ t. ok (if t then record b { posting = b.posting - 1; full = b.full + 1 } else b)) f,
      h,
    )
  ]
  act-IsCounted capacity limit begin_get b hl h = elim (Bool-cases (ltb 0 b.full)) [
    | inl f ↦ (
      record b { full = b.full - 1; taking = b.taking + 1 },
      ap (λ t. ok (if t then record b { full = b.full - 1; taking = b.taking + 1 } else b)) f,
      record {
        room_is = h.room_is;
        filled_is = ground (arith, f, h.filled_is);
        order_is = h.order_is;
      },
    )
    | inr f ↦ (
      b,
      ap (λ t. ok (if t then record b { full = b.full - 1; taking = b.taking + 1 } else b)) f,
      h,
    )
  ]
  act-IsCounted capacity limit call_get b hl h = elim (Bool-cases (ltb 0 b.taking)) [
    | inl f ↦
        let (b', g, h') = get_checked-IsCounted capacity b h (ltb→lt _ _ f) in
        (b', ap (λ t. if t then get_checked b else ok b) f ∙ g, h')
    | inr f ↦ (b, ap (λ t. if t then get_checked b else ok b) f, h)
  ]
  act-IsCounted capacity limit end_get b hl h = elim (Bool-cases (ltb 0 b.freeing)) [
    | inl f ↦ (
      record b { freeing = b.freeing - 1; empty = b.empty + 1 },
      ap (λ t. ok (if t then record b { freeing = b.freeing - 1; empty = b.empty + 1 } else b)) f,
      record {
        room_is = ground (arith, f, h.room_is);
        filled_is = h.filled_is;
        order_is = h.order_is;
      },
    )
    | inr f ↦ (
      b,
      ap (λ t. ok (if t then record b { freeing = b.freeing - 1; empty = b.empty + 1 } else b)) f,
      h,
    )
  ]

  pub run-IsCounted :
      (capacity limit : ℕ) (actions : List (Action A)) (b : Blocking A)
      → capacity ≤ limit + 1
      → IsCounted capacity b
      → (b' : Blocking A) × (run_blocking limit actions b ≡ ok b') × IsCounted capacity b'
  unfolding run_blocking
  run-IsCounted capacity limit [] b hl h = (b, refl, h)
  run-IsCounted capacity limit (a ∷ actions) b hl h =
      let (b1, e1, h1) = act-IsCounted capacity limit a b hl h in
      let (b2, e2, h2) = run-IsCounted capacity limit actions b1 hl h1 in
      (b2, ap (λ o. o >>= λ b'. run_blocking limit actions b') e1 ∙ e2, h2)
