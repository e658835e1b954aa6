-- ===== src/SpscQueue/Circle.antt =====
-- Facts about the circle of records of SpscQueueByFolly: all records, from the read index on.
use mathlib.Core.Path.{ap₂}
use cpp_base.Prelude.{
  ℕ, zero, suc, ◌-◌, ◌≤◌, ◌<◌, ◌≡◌, refl, sym, ap, ◌∙◌, subst, List, [], ◌∷◌, ◌++◌, arith, length,
  get_or, set, get_or-set_self, get_or-set_ne, window, next, offset, next-lt, offset-zero,
  offset-next,
}
use cpp_base.Prelude.{offset-ne, offset-last, window-set_past}

module _ {ℓ} {A : Type ℓ} (size : ℕ) (d : A) where
  -- A write `k` places after the start is a write at place `k` of the window.
  pub window-set :
      (xs : List A) (h n k : ℕ) (x : A)
      → h < size
      → n ≤ size
      → k < size
      → size ≤ length xs
      → window size d (set xs (offset size h k) x) h n ≡ set (window size d xs h n) k x
  window-set xs h zero k x p q r s = refl
  window-set xs h (suc n) zero x p q r s =
      ap₂ ◌∷◌ (rw (offset-zero size h p) (get_or-set_self xs h x d (omega arith))) (
        subst (λ j. window size d (set xs j x) (next size h) n ≡ window size d xs (next size h) n)
          (offset-last size h p ∙ sym (offset-zero size h p))
          (window-set_past size d xs (next size h) n (size - 1) x (next-lt size h p) (omega arith)
            (omega arith)))
  window-set xs h (suc n) (suc k) x p q r s =
      ap₂ ◌∷◌ (get_or-set_ne xs (offset size h (suc k)) h x d (offset-ne size h k p r)) (
        subst
          (λ j.
            window size d (set xs j x) (next size h) n ≡ set (window size d xs (next size h) n) k x)
          (offset-next size h k p (omega arith))
          (window-set xs (next size h) n k x (next-lt size h p) (omega arith) (omega arith) s))

  window-snoc :
      (xs : List A) (h n : ℕ)
      → h < size
      → n < size
      → window size d xs h (suc n) ≡ window size d xs h n ++ (get_or xs (offset size h n) d ∷ [])
  window-snoc xs h zero p q = ap (λ i. get_or xs i d ∷ []) (sym (offset-zero size h p))
  window-snoc xs h (suc n) p q = ap (◌∷◌ (get_or xs h d)) (
      subst
        (λ j.
          window size d xs (next size h) (suc n)
          ≡ window size d xs (next size h) n ++ (get_or xs j d ∷ []))
        (offset-next size h n p (omega arith))
        (window-snoc xs (next size h) n (next-lt size h p) (omega arith)))

  pub get_or-window :
      (xs : List A) (h n k : ℕ)
      → h < size
      → n ≤ size
      → k < n
      → get_or (window size d xs h n) k d ≡ get_or xs (offset size h k) d
  get_or-window xs h zero k p q r = absurd (omega arith)
  get_or-window xs h (suc n) zero p q r = ap (λ i. get_or xs i d) (sym (offset-zero size h p))
  get_or-window xs h (suc n) (suc k) p q r =
      get_or-window xs (next size h) n k (next-lt size h p) (omega arith) (omega arith)
      ∙ ap (λ i. get_or xs i d) (offset-next size h k p (omega arith))

  -- From the next slot on, the whole circle is the same one turned by a place.
  pub window_turn :
      (xs : List A) (h n : ℕ) (x : A) (ys : List A)
      → h < size
      → n ≡ size
      → window size d xs h n ≡ x ∷ ys
      → window size d xs (next size h) n ≡ ys ++ (x ∷ [])
  window_turn xs h zero x ys p q e = absurd (omega arith)
  window_turn xs h (suc n) x ys p q e =
      window-snoc xs (next size h) n (next-lt size h p) (omega arith)
      ∙ ap₂ (λ l z. l ++ (z ∷ [])) (cc)
          (ap (λ i. get_or xs i d)
              (ap (offset size (next size h)) {x = n} {y = size - 1} (omega arith)
                ∙ offset-last size h p)
            ∙ cc)
