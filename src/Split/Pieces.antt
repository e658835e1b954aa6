-- ===== src/Split/Pieces.antt =====
-- The two loops of InternalSplitStringUsing in string/split.cc agree.
use cpp_base.Prelude.{
  ℕ, zero, suc, ◌+◌, ◌-◌, ◌≤◌, ◌≡◌, refl, ap, ◌∙◌, sym, arith, Bool, true, false, not, Option, none,
  some, List, [], ◌∷◌, ◌++◌, length, take, drop, ◌==◌, if◌then◌else◌, drop-append, append_assoc,
  length-append, take-append, Bool-cases, inl, inr,
}
use cpp_base.Bytes.{Bytes}
use cpp_base.Split.{
  is_delimiter, find_from, find_first_of, find_first_not_of, split_char, split_loop, split_any,
}

-- One delimiter.
one_delimiter : (c x : ℕ) → is_delimiter (c ∷ []) x ≡ (x == c)
unfolding is_delimiter
one_delimiter c x = ground arith

module _ (c : ℕ) (full : Bytes) where
  abbrev wanted : ℕ → Bool
  wanted x = not (is_delimiter (c ∷ []) x)

  -- What the general loop does with an open piece that begins at `i`, from `j` on.
  abbrev rest_of_loop : ℕ → ℕ → Option ℕ → List Bytes
  rest_of_loop fuel i found = elim found [
    | none ↦ take (length full - i) (drop i full) ∷ []
    | some end ↦
        take (end - i) (drop i full)
        ∷ split_loop fuel full (c ∷ []) (find_from wanted end (drop end full))
  ]

  -- The place behind one more character.
  next_place :
      (pre : Bytes) (x : ℕ) (s : Bytes) → full ≡ pre ++ (x ∷ s) → full ≡ (pre ++ (x ∷ [])) ++ s
  next_place pre x s e = e ∙ sym (append_assoc pre (x ∷ []) s)

  piece_taken :
      (pre piece s : Bytes) (n : ℕ)
      → full ≡ pre ++ (piece ++ s)
      → length piece ≡ n
      → take n (drop (length pre) full) ≡ piece
  piece_taken pre piece s n e h =
      ap (λ t. take n (drop (length pre) t)) e
      ∙ ap (take n) (drop-append pre (piece ++ s) (length pre) refl)
      ∙ take-append piece s n h

  left_at : (pre s : Bytes) (n : ℕ) → full ≡ pre ++ s → length pre ≡ n → drop n full ≡ s
  left_at pre s n e h = ap (drop n) e ∙ drop-append pre s n h

  -- The general loop at the first character of a piece.
  open_step :
      (fuel : ℕ) (pre : Bytes) (x : ℕ) (s : Bytes)
      → full ≡ pre ++ (x ∷ s)
      → x == c ≡ false
      → split_loop (suc fuel) full (c ∷ []) (some (length pre))
        ≡ rest_of_loop fuel (length pre) (find_from (is_delimiter (c ∷ [])) (length pre + 1) s)
  unfolding split_loop find_from find_first_of find_first_not_of
  open_step fuel pre x s e f =
      ap (λ t. rest_of_loop fuel (length pre) (find_from (is_delimiter (c ∷ [])) (length pre) t))
        (left_at pre (x ∷ s) (length pre) e refl)
      ∙ ap
          (λ b.
            rest_of_loop fuel (length pre) (
              if b
              then some (length pre)
              else find_from (is_delimiter (c ∷ [])) (length pre + 1) s))
          (one_delimiter c x ∙ f)

  -- The search for the next piece at a delimiter.
  skip_step :
      (i : ℕ) (x : ℕ) (s : Bytes)
      → x == c ≡ true
      → find_from wanted i (x ∷ s) ≡ find_from wanted (i + 1) s
  unfolding find_from
  skip_step i x s f =
      ap (λ b. if not b then some i else find_from wanted (i + 1) s) (one_delimiter c x ∙ f)

  mutual
    unfolding split_loop split_char find_from find_first_of find_first_not_of

    loops_between :
        (fuel : ℕ) (pre s : Bytes)
        → length s ≤ fuel
        → full ≡ pre ++ s
        → split_loop fuel full (c ∷ []) (find_from wanted (length pre) s) ≡ split_char c none s
    loops_between fuel pre [] h e = refl
    loops_between zero pre (x ∷ s) h e = absurd (omega arith)
    loops_between (suc fuel) pre (x ∷ s) h e = elim (Bool-cases (x == c)) [
      | inl f ↦
          ap (split_loop (suc fuel) full (c ∷ [])) (skip_step (length pre) x s f)
          ∙ ap (λ i. split_loop (suc fuel) full (c ∷ []) (find_from wanted i s))
              {x = length pre + 1} {y = length (pre ++ (x ∷ []))}
              (omega (arith, length-append pre (x ∷ [])))
          ∙ loops_between (suc fuel) (pre ++ (x ∷ [])) s (omega arith) (next_place pre x s e)
          ∙ ap (λ b. if b then split_char c none s else split_char c (some (x ∷ [])) s) (sym f)
      | inr f ↦
          ap
            (λ b.
              split_loop (suc fuel) full (c ∷ [])
                (if not b then some (length pre) else find_from wanted (length pre + 1) s))
            (one_delimiter c x ∙ f)
          ∙ open_step fuel pre x s e f
          ∙ loops_within fuel pre (x ∷ []) s (omega arith) e
          ∙ ap (λ b. if b then split_char c none s else split_char c (some (x ∷ [])) s) (sym f)
    ]

    loops_within :
        (fuel : ℕ) (pre piece s : Bytes)
        → length s ≤ fuel
        → full ≡ pre ++ (piece ++ s)
        → rest_of_loop fuel
            (length pre)
            (find_from (is_delimiter (c ∷ [])) (length pre + length piece) s)
          ≡ split_char c (some piece) s
    loops_within fuel pre piece [] h e =
        ap (λ t. t ∷ [])
          (piece_taken pre piece [] (length full - length pre) e
            (omega (arith, ap length e, length-append pre (piece ++ []), length-append piece [])))
    loops_within fuel pre piece (x ∷ s) h e = elim (Bool-cases (x == c)) [
      | inl f ↦
          let place = length pre + length piece in
          let before : full ≡ (pre ++ piece) ++ (x ∷ s) =
            e ∙ sym (append_assoc pre piece (x ∷ s)) in
          ap
            (λ b.
              rest_of_loop fuel (length pre)
                (if b then some place else find_from (is_delimiter (c ∷ [])) (place + 1) s))
            (one_delimiter c x ∙ f)
          ∙ ap (λ t. t ∷ split_loop fuel full (c ∷ []) (find_from wanted place (drop place full)))
              (piece_taken pre piece (x ∷ s) (place - length pre) e (omega arith))
          ∙ ap (λ t. piece ∷ split_loop fuel full (c ∷ []) (find_from wanted place t))
              (left_at (pre ++ piece) (x ∷ s) place before (length-append pre piece))
          ∙ ap (λ t. piece ∷ split_loop fuel full (c ∷ []) t) (skip_step place x s f)
          ∙ ap (λ i. piece ∷ split_loop fuel full (c ∷ []) (find_from wanted i s)) {x = place + 1}
              {y = length ((pre ++ piece) ++ (x ∷ []))}
              (omega (arith, length-append (pre ++ piece) (x ∷ []), length-append pre piece))
          ∙ ap (◌∷◌ piece) (
              loops_between fuel ((pre ++ piece) ++ (x ∷ [])) s (omega arith)
                (next_place (pre ++ piece) x s before))
          ∙ ap
              (λ b.
                if b
                then piece ∷ split_char c none s
                else split_char c (some (piece ++ (x ∷ []))) s)
              (sym f)
      | inr f ↦
          ap
            (λ b. rest_of_loop fuel (length pre) (
              if b
              then some (length pre + length piece)
              else find_from (is_delimiter (c ∷ [])) (length pre + length piece + 1) s))
            (one_delimiter c x ∙ f)
          ∙ ap (λ i. rest_of_loop fuel (length pre) (find_from (is_delimiter (c ∷ [])) i s))
              {x = length pre + length piece + 1} {y = length pre + length (piece ++ (x ∷ []))}
              (omega (arith, length-append piece (x ∷ [])))
          ∙ loops_within fuel pre (piece ++ (x ∷ [])) s (omega arith)
              (e ∙ ap (◌++◌ pre) (sym (append_assoc piece (x ∷ []) s)))
          ∙ ap
              (λ b.
                if b
                then piece ∷ split_char c none s
                else split_char c (some (piece ++ (x ∷ []))) s)
              (sym f)
    ]

-- For a single delimiter the loop that is written for that case gives the pieces that the loop for
-- any delimiters gives, on every text.
pub split_any-split_char : (c : ℕ) (full : Bytes) → split_any full (c ∷ []) ≡ split_char c none full
unfolding split_any find_first_not_of
split_any-split_char c full = loops_between c full (length full) [] full (omega arith) refl
