-- ===== src/Split/Joined.antt =====
-- The pieces of a text of string/split.cc, of which the text was put together.
use cpp_base.Prelude.{
  ℕ, ◌≡◌, ap, ◌∙◌, sym, false, none, some, List, [], ◌∷◌, ◌++◌, All, ◌==◌, ==_refl, append-nil,
  append_assoc,
}
use cpp_base.Bytes.{Bytes}
use cpp_base.Split.{split_char, internal_split_string_using}

-- The pieces, each with the delimiter behind it but for the last.
unfoldable pub joined_by : ℕ → Bytes → List Bytes → Bytes
joined_by c p [] = p
joined_by c p (q ∷ pieces) = p ++ (c ∷ joined_by c q pieces)

abbrev pub Without : ℕ → Bytes → Type 0
Without c = All (λ x. (x == c) ≡ false)

-- A piece: not empty, and without the delimiter.
abbrev pub IsPieceOf : ℕ → Bytes → Type 0
IsPieceOf c [] = ⊥
IsPieceOf c (x ∷ s) = Without c (x ∷ s)

-- The characters of a piece are collected.
within_piece :
    (c : ℕ) (start w s : Bytes)
    → Without c w
    → split_char c (some start) (w ++ s) ≡ split_char c (some (start ++ w)) s
unfolding split_char
within_piece c start [] s a = ap (λ t. split_char c (some t) s) (sym (append-nil start))
within_piece c start (x ∷ w) s (h, a) = rw h (
    within_piece c (start ++ (x ∷ [])) w s a
    ∙ ap (λ t. split_char c (some t) s) (append_assoc start (x ∷ []) w))

at_piece :
    (c : ℕ) (p s : Bytes) → IsPieceOf c p → split_char c none (p ++ s) ≡ split_char c (some p) s
unfolding split_char
at_piece c [] s h = absurd h
at_piece c (x ∷ w) s (h, a) = rw h (within_piece c (x ∷ []) w s a)

-- Split at a single delimiter gives back the pieces of which a text was put together, where none is
-- empty and none holds the delimiter.
pub split_joined :
    (c : ℕ) (p : Bytes) (pieces : List Bytes)
    → IsPieceOf c p
    → All (IsPieceOf c) pieces
    → internal_split_string_using (joined_by c p pieces) (c ∷ []) ≡ p ∷ pieces
unfolding internal_split_string_using joined_by split_char
split_joined c p [] h a = ap (split_char c none) (sym (append-nil p)) ∙ at_piece c p [] h
split_joined c p (q ∷ pieces) h (k, a) =
    at_piece c p (c ∷ joined_by c q pieces) h
    ∙ rw (==_refl c) (ap (◌∷◌ p) (split_joined c q pieces k a))
