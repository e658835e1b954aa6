-- ===== src/Numbers/ShortLoop.antt =====
-- The loop of safe_strtoIntType_base_internal (string/numbers.cc) over few digits: Duff's device is a
-- loop over all digits, and no value overflows.
use native.Mathlib.Nat.{mul-le-mul_left, mul-le-mul_right, one-le-pow, pow-suc}
use cpp_base.Prelude.{
  ℕ, zero, suc, ◌+◌, ◌-◌, ◌*◌, ◌/◌, ◌%◌, ◌^◌, ◌<◌, ◌≤◌, ◌≡◌, refl, ap, ◌∙◌, sym, arith, Bool, true,
  false, Option, none, some, [], ◌∷◌, length, All, leb, if◌then◌else◌, Outcome, ok, fatal, thrown,
  undefined, ◌>>=◌, leb→le, Bool-cases, inl, inr,
}
use cpp_base.Bytes.{Bytes}
use cpp_base.Numbers.Parse.{digit_of, extend, digit_steps, duff_loop, parse_short}
use cpp_base.Numbers.Digits.{
  IsAscii, digit_value, value_of, step_cases, value_of_bad, value_of_good,
}
use cpp_base.Numbers.LongLoop.{extend_fits}

abbrev Steps : Type 0
Steps = Outcome (Option (ℕ × Bytes))

-- What follows on the steps that succeed.
abbrev then_steps {ℓ} : {A : Type ℓ} → Steps → (ℕ → Bytes → Outcome (Option A)) → Outcome (Option A)
then_steps o k = o >>= λ r. elim r [ none ↦ ok none | some (v, s) ↦ k v s ]

abbrev values : Steps → Outcome (Option ℕ)
values o = then_steps o (λ v s. ok (some v))

then_steps_congr {ℓ} :
    {A : Type ℓ} (o : Steps) {k l : ℕ → Bytes → Outcome (Option A)}
    → ((v : ℕ) (s : Bytes) → o ≡ ok (some (v, s)) → k v s ≡ l v s)
    → then_steps o k ≡ then_steps o l
then_steps_congr (ok none) f = refl
then_steps_congr (ok (some (v, s))) f = f v s refl
then_steps_congr fatal f = refl
then_steps_congr thrown f = refl
then_steps_congr undefined f = refl

values-then_steps :
    (o : Steps) (k : ℕ → Bytes → Steps)
    → then_steps o (λ v s. values (k v s)) ≡ values (then_steps o k)
values-then_steps (ok none) k = refl
values-then_steps (ok (some (v, s))) k = refl
values-then_steps fatal k = refl
values-then_steps thrown k = refl
values-then_steps undefined k = refl

-- One digit, before what is done with the value.
step_then :
    (b : Bool) (o : Outcome ℕ) (f g : ℕ → Steps) (l : ℕ → Bytes → Steps)
    → ((v : ℕ) → f v ≡ then_steps (g v) l)
    → (if b then ok none else (o >>= f)) ≡ then_steps (if b then ok none else (o >>= g)) l
step_then true o f g l e = refl
step_then false (ok v) f g l e = e v
step_then false fatal f g l e = refl
step_then false thrown f g l e = refl
step_then false undefined f g l e = refl

digit_then :
    (o : Outcome ℕ) (f g : ℕ → Steps) (l : ℕ → Bytes → Steps)
    → ((d : ℕ) → f d ≡ then_steps (g d) l)
    → (o >>= f) ≡ then_steps (o >>= g) l
digit_then o f g l e = step_then false o f g l e

-- A step that succeeds went on with some value.
step_on :
    (b : Bool) (o : Outcome ℕ) (f : ℕ → Steps) (r : ℕ × Bytes)
    → (if b then ok none else (o >>= f)) ≡ ok (some r)
    → (v : ℕ) × (f v ≡ ok (some r))
step_on true o f r e = absurd (cc e)
step_on false (ok v) f r e = (v, e)
step_on false fatal f r e = absurd (cc e)
step_on false thrown f r e = absurd (cc e)
step_on false undefined f r e = absurd (cc e)

shuffle : (v b p : ℕ) → (v + 1) * (p * b) ≡ (v + 1) * b * p
shuffle v b p = grind arith

-- The bound on what the digits denote, after one more of them.
bound_step :
    (limit base value digit n : ℕ)
    → digit < base
    → (value + 1) * base ^ suc n ≤ limit
    → (value * base + digit + 1) * base ^ n ≤ limit
bound_step limit base value digit n hd h =
    let less : value * base + digit + 1 ≤ (value + 1) * base = grind arith in
    omega (
      arith,
      mul-le-mul_right (base ^ n) less,
      shuffle value base (base ^ n),
      ap (◌*◌ (value + 1)) (pow-suc base n),
    )

bound_fits : (limit base value n : ℕ) → 1 ≤ base → (value + 1) * base ^ n ≤ limit → value < limit
bound_fits limit base value n hb h =
    omega (arith, mul-le-mul_left (value + 1) (one-le-pow n base hb))

pub value_of_less :
    (limit base value : ℕ) (s : Bytes) (n : ℕ)
    → 1 ≤ base
    → (value + 1) * base ^ length s ≤ limit
    → value_of base value s ≡ some n
    → n < limit
unfolding value_of
value_of_less limit base value [] n hb h e =
    let same : value ≡ n = ground (arith, e) in
    omega (arith, same, bound_fits limit base value 0 hb h)
value_of_less limit base value (c ∷ s) n hb h e = elim (Bool-cases (leb base (digit_value c))) [
  | inl f ↦ absurd (cc (e, value_of_bad base value c s (leb→le _ _ f)))
  | inr f ↦
      value_of_less limit base (value * base + digit_value c) s n hb
        (bound_step limit base value (digit_value c) (length s) (ground arith) h)
        (sym (value_of_good base value c s (ground arith)) ∙ e)
]

module _ (limit base : ℕ) where
  -- Steps in two runs.
  digit_steps_add :
      (j k value : ℕ) (s : Bytes)
      → digit_steps limit base (j + k) value s
        ≡ then_steps (digit_steps limit base j value s) (λ v t. digit_steps limit base k v t)
  unfolding digit_steps
  digit_steps_add zero k value s =
      ap (λ i. digit_steps limit base i value s) {x = zero + k} {y = k} (omega arith)
  digit_steps_add (suc j) k value [] =
      ap (λ i. digit_steps limit base i value []) {x = suc j + k} {y = suc (j + k)} (omega arith)
  digit_steps_add (suc j) k value (c ∷ s) =
      ap (λ i. digit_steps limit base i value (c ∷ s)) {x = suc j + k} {y = suc (j + k)}
        (omega arith)
      ∙ digit_then (digit_of c) _ _ (λ v t. digit_steps limit base k v t)
          (λ d.
            step_then (leb base d) (extend limit base value d) _ _
              (λ v t. digit_steps limit base k v t) (λ v. digit_steps_add j k v s))

  -- Without overflow, steps over a whole text give its value.
  digit_steps-value_of :
      (value : ℕ) (s : Bytes)
      → All IsAscii s
      → 1 ≤ base
      → (value + 1) * base ^ length s ≤ limit
      → values (digit_steps limit base (length s) value s) ≡ ok (value_of base value s)
  unfolding digit_steps value_of
  digit_steps-value_of value [] a hb h = refl
  digit_steps-value_of value (c ∷ s) (hc, a) hb h = elim (Bool-cases (leb base (digit_value c))) [
    | inl f ↦
        ap values (
          step_cases c base
            (λ d. extend limit base value d >>= λ v. digit_steps limit base (length s) v s)
            {z = ok none} hc (λ bad. refl) (λ good. absurd (ground (arith, f))))
        ∙ ap ok (sym (value_of_bad base value c s (leb→le _ _ f)))
    | inr f ↦
        let good : digit_value c < base = ground arith in
        let bound = bound_step limit base value (digit_value c) (length s) good h in
        let fits = bound_fits limit base (value * base + digit_value c) (length s) hb bound in
        ap values (
          step_cases c base
            (λ d. extend limit base value d >>= λ v. digit_steps limit base (length s) v s) hc
            (λ bad. absurd (omega arith))
            (λ _.
              ap (λ o. o >>= λ v. digit_steps limit base (length s) v s)
                (extend_fits limit base value (digit_value c) fits)))
        ∙ digit_steps-value_of (value * base + digit_value c) s a hb bound
        ∙ ap ok (sym (value_of_good base value c s good))
  ]

  -- What is left of a text behind steps.
  length-digit_steps :
      (k value : ℕ) (s : Bytes) (v : ℕ) (t : Bytes)
      → digit_steps limit base k value s ≡ ok (some (v, t))
      → length t + k ≡ length s
  unfolding digit_steps
  length-digit_steps zero value s v t e = ground (arith, e)
  length-digit_steps (suc k) value [] v t e = absurd (cc e)
  length-digit_steps (suc k) value (c ∷ s) v t e =
      let (d, e') =
        step_on false (digit_of c)
          (λ d.
            if leb base d
            then ok none
            else (extend limit base value d >>= λ v'. digit_steps limit base k v' s))
          (v, t) e in
      let (v', e'') =
        step_on (leb base d) (extend limit base value d) (λ v'. digit_steps limit base k v' s)
          (v, t) e' in
      omega (arith, length-digit_steps k v' s v t e'')

  -- The rounds of eight are the plain loop.
  duff_loop-digit_steps :
      (m fuel value : ℕ) (s : Bytes)
      → length s ≡ 8 * m
      → m ≤ fuel
      → duff_loop limit base fuel value s ≡ values (digit_steps limit base (length s) value s)
  unfolding duff_loop
  duff_loop-digit_steps m fuel value [] h l = unfold digit_steps in refl
  duff_loop-digit_steps zero fuel value (c ∷ s) h l = absurd (omega arith)
  duff_loop-digit_steps (suc m) zero value (c ∷ s) h l = absurd (omega arith)
  duff_loop-digit_steps (suc m) (suc fuel) value (c ∷ s) h l =
      then_steps_congr (digit_steps limit base 8 value (c ∷ s)) (λ v t e.
        let left = length-digit_steps 8 value (c ∷ s) v t e in
        duff_loop-digit_steps m fuel v t (omega arith) (omega arith)
        ∙ ap (λ k. values (digit_steps limit base k v t)) {x = length t} {y = 8 * m} (omega arith))
      ∙ values-then_steps (digit_steps limit base 8 value (c ∷ s))
          (λ v t. digit_steps limit base (8 * m) v t)
      ∙ ap values (sym (digit_steps_add 8 (8 * m) value (c ∷ s)))
      ∙ ap (λ k. values (digit_steps limit base k value (c ∷ s))) {x = 8 + 8 * m}
          {y = suc (length s)} (omega arith)

  -- Duff's device is the plain loop, and gives the value of few enough digits.
  pub parse_short-value_of :
      (s : Bytes)
      → All IsAscii s
      → 1 ≤ base
      → base ^ length s ≤ limit
      → parse_short limit base s ≡ ok (value_of base 0 s)
  unfolding parse_short
  parse_short-value_of s a hb h =
      then_steps_congr (digit_steps limit base (length s % 8) 0 s) (λ v t e.
        let left = length-digit_steps (length s % 8) 0 s v t e in
        duff_loop-digit_steps (length s / 8) (length s) v t (omega arith) (omega arith)
        ∙ ap (λ k. values (digit_steps limit base k v t)) {x = length t}
            {y = length s - length s % 8} (omega arith))
      ∙ values-then_steps (digit_steps limit base (length s % 8) 0 s)
          (λ v t. digit_steps limit base (length s - length s % 8) v t)
      ∙ ap values (sym (digit_steps_add (length s % 8) (length s - length s % 8) 0 s))
      ∙ ap (λ k. values (digit_steps limit base k 0 s))
          {x = length s % 8 + (length s - length s % 8)} {y = length s} (omega arith)
      ∙ digit_steps-value_of 0 s a hb (omega arith)
