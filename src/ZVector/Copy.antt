-- ===== src/ZVector/Copy.antt =====
-- Cells copied into a block, as memcpy does in Reserve of data-struct/zvector.h.
use cpp_base.Prelude.{
  ℕ, zero, suc, ◌+◌, ◌≤◌, ◌<◌, ◌≡◌, refl, ap, ◌∙◌, arith, List, [], ◌∷◌, ◌++◌, length, take, drop,
  get_or, length-take, length-drop, length-append,
}

module _ {ℓ} {A : Type ℓ} where
  get_or_behind :
      (xs ys : List A) (n k : ℕ) (d : A)
      → length xs ≡ n
      → get_or (xs ++ ys) (n + k) d ≡ get_or ys k d
  get_or_behind [] ys n k d h = ap (λ m. get_or ys m d) {x = n + k} {y = k} (omega arith)
  get_or_behind (x ∷ xs) ys zero k d h = absurd (omega arith)
  get_or_behind (x ∷ xs) ys (suc n) k d h =
      ap (λ m. get_or (x ∷ xs ++ ys) m d) {x = suc n + k} {y = suc (n + k)} (omega arith)
      ∙ get_or_behind xs ys n k d (omega arith)

  get_or_taken :
      (n : ℕ) (xs ys : List A) (k : ℕ) (d : A)
      → k < n
      → n ≤ length xs
      → get_or (take n xs ++ ys) k d ≡ get_or xs k d
  get_or_taken zero xs ys k d h l = absurd (omega arith)
  get_or_taken (suc n) [] ys k d h l = absurd (omega arith)
  get_or_taken (suc n) (x ∷ xs) ys zero d h l = refl
  get_or_taken (suc n) (x ∷ xs) ys (suc k) d h l =
      get_or_taken n xs ys k d (omega arith) (omega arith)

  abbrev pub copied : List A → ℕ → List A → ℕ → List A
  copied target place source size =
      take place target ++ (take size source ++ drop (place + size) target)

  pub length-copied :
      (target source : List A) (place size : ℕ)
      → size ≤ length source
      → place + size ≤ length target
      → length (copied target place source size) ≡ length target
  length-copied target source place size h l = omega (
    arith,
    length-append (take place target) (take size source ++ drop (place + size) target),
    length-append (take size source) (drop (place + size) target),
    length-take place target (omega arith),
    length-take size source h,
    length-drop (place + size) target,
  )

  pub get_or-copied :
      (target source : List A) (place size k : ℕ) (d : A)
      → size ≤ length source
      → place + size ≤ length target
      → k < size
      → get_or (copied target place source size) (place + k) d ≡ get_or source k d
  get_or-copied target source place size k d h l j =
      get_or_behind (take place target) (take size source ++ drop (place + size) target) place k d
        (length-take place target (omega arith))
      ∙ get_or_taken size source (drop (place + size) target) k d j h
