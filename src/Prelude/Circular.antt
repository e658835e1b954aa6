-- ===== src/Prelude/Circular.antt =====
-- Arrays that are used in a circle: the elements from a start on, going round at the size.
use Prim.Native.Nat.{ℕ, zero, suc, ◌+◌, ◌-◌, ◌%◌, ◌≤◌, ◌<◌}
use mathlib.Core.Path.{◌≡◌, refl, ap, ap₂, subst}
use mathlib.Core.List.{List, [], ◌∷◌, ◌++◌}
use native.Mathlib.Nat.{mod-eq_of_lt, mod-eq-sub-mod}
use native.Mathlib.Decide.{dec_lt}
use native.Mathlib.Omega.{arith}
use cpp_base.Prelude.Tests.{ltb, ◌==◌, if◌then◌else◌}
use cpp_base.Prelude.Lists.{length, get_or, set, get_or-set_self, get_or-set_ne}

-- The slot that is `k` places after the slot `h`, for `h` below and `k` up to the size.
unfoldable pub offset : ℕ → ℕ → ℕ → ℕ
offset size h k = if ltb (h + k) size then h + k else h + k - size

unfoldable pub next : ℕ → ℕ → ℕ
next size h = if h + 1 == size then 0 else h + 1

pub mod-eq-offset : (size h k : ℕ) → h < size → k ≤ size → (h + k) % size ≡ offset size h k
unfolding offset
mod-eq-offset size h k p q = elim (dec_lt (h + k) size) [
  | yes r ↦ ground (arith, mod-eq_of_lt r)
  | no r ↦ ground (
    arith,
    mod-eq-sub-mod {n = h + k} {m = size} (omega arith),
    mod-eq_of_lt {n = h + k - size} {m = size} (omega arith),
  )
]

pub next-lt : (size h : ℕ) → h < size → next size h < size
unfolding next
next-lt size h p = ground arith

pub mod-eq-next : (size h : ℕ) → h < size → (h + 1) % size ≡ next size h
unfolding offset next
mod-eq-next size h p = ground (arith, mod-eq-offset size h 1 p (omega arith))

pub offset-lt : (size h k : ℕ) → h < size → k ≤ size → offset size h k < size
unfolding offset
offset-lt size h k p q = ground arith

pub offset-zero : (size h : ℕ) → h < size → offset size h 0 ≡ h
unfolding offset
offset-zero size h p = ground arith

pub offset-ne : (size h k : ℕ) → h < size → suc k < size → offset size h (suc k) ≡ h → ⊥
unfolding offset
offset-ne size h k p q e = ground arith

pub offset-next :
    (size h k : ℕ) → h < size → suc k ≤ size → offset size (next size h) k ≡ offset size h (suc k)
unfolding offset next
offset-next size h k p q = ground arith

pub offset-last : (size h : ℕ) → h < size → offset size (next size h) (size - 1) ≡ h
unfolding offset next
offset-last size h p = ground arith

pub next-offset :
    (size h k : ℕ) → h < size → suc k ≤ size → next size (offset size h k) ≡ offset size h (suc k)
unfolding offset next
next-offset size h k p q = ground arith

module _ {ℓ} {A : Type ℓ} (size : ℕ) (d : A) where
  -- The `n` elements from the slot `h` on.
  abbrev pub window : List A → ℕ → ℕ → List A
  window xs h zero = []
  window xs h (suc n) = get_or xs h d ∷ window xs (next size h) n

  pub length-window : (xs : List A) (h n : ℕ) → length (window xs h n) ≡ n
  length-window xs h zero = refl
  length-window xs h (suc n) = ap suc (length-window xs (next size h) n)

  -- A write past the window does not show in it.
  pub window-set_past :
      (xs : List A) (h n k : ℕ) (x : A)
      → h < size
      → n ≤ k
      → k < size
      → window (set xs (offset size h k) x) h n ≡ window xs h n
  window-set_past xs h zero k x p q r = refl
  window-set_past xs h (suc n) zero x p q r = absurd (omega arith)
  window-set_past xs h (suc n) (suc k) x p q r =
      ap₂ ◌∷◌ (get_or-set_ne xs (offset size h (suc k)) h x d (offset-ne size h k p r)) (
        subst (λ j. window (set xs j x) (next size h) n ≡ window xs (next size h) n)
          (offset-next size h k p (omega arith))
          (window-set_past xs (next size h) n k x (next-lt size h p) (omega arith) (omega arith)))

  -- A write to the slot just past the window extends it by that element.
  pub window-set_end :
      (xs : List A) (h n : ℕ) (x : A)
      → h < size
      → n < size
      → size ≤ length xs
      → window (set xs (offset size h n) x) h (suc n) ≡ window xs h n ++ (x ∷ [])
  window-set_end xs h zero x p q r =
      rw (offset-zero size h p) (ap (λ y. y ∷ []) (get_or-set_self xs h x d (omega arith)))
  window-set_end xs h (suc n) x p q r =
      ap₂ ◌∷◌ (get_or-set_ne xs (offset size h (suc n)) h x d (offset-ne size h n p q)) (
        subst
          (λ j. window (set xs j x) (next size h) (suc n) ≡ window xs (next size h) n ++ (x ∷ []))
          (offset-next size h n p (omega arith))
          (window-set_end xs (next size h) n x (next-lt size h p) (omega arith) r))
