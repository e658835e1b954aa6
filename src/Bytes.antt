-- ===== src/Bytes.antt =====
-- Texts of the program as lists of their bytes.
use cpp_base.Prelude.{
  ℕ, ◌≡◌, ◌↔◌, refl, Bool, true, false, List, [], ◌∷◌, ◌&&◌, ◌==◌, ==_iff, arith,
}

abbrev pub Bytes : Type 0
Bytes = List ℕ

unfoldable pub bytes_eq : Bytes → Bytes → Bool
bytes_eq [] [] = true
bytes_eq [] (b ∷ t) = false
bytes_eq (a ∷ s) [] = false
bytes_eq (a ∷ s) (b ∷ t) = a == b && bytes_eq s t

bytes_eq_to : (s t : Bytes) → bytes_eq s t ≡ true → s ≡ t
unfolding bytes_eq
bytes_eq_to [] [] h = refl
bytes_eq_to [] (b ∷ t) h = cc
bytes_eq_to (a ∷ s) [] h = cc
bytes_eq_to (a ∷ s) (b ∷ t) h = ground (arith, ==_iff a b, bytes_eq_to s t)

pub bytes_eq_refl : (s : Bytes) → bytes_eq s s ≡ true
unfolding bytes_eq
bytes_eq_refl [] = refl
bytes_eq_refl (a ∷ s) = ground (arith, bytes_eq_refl s)

pub bytes_eq_iff : (s t : Bytes) → (bytes_eq s t ≡ true) ↔ (s ≡ t)
bytes_eq_iff s t = (bytes_eq_to s t, λ e. rw e (bytes_eq_refl t))
