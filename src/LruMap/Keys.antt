-- ===== src/LruMap/Keys.antt =====
-- Where the keys of LruMap's list are, and what the list operations do to that.
use mathlib.Core.Logic.{ite, if_pos, if_neg}
use cpp_base.Prelude.{
  ℕ, ◌≡◌, refl, true, false, Option, none, some, List, [], ◌∷◌, arith, ◌==◌, ap, ==_iff, Bool-cases,
  inl, inr,
}
use cpp_base.LruMap.{Node, at_node, erase_node, last?, drop_last}
use cpp_base.LruMap.Order.{value_of, without}
use cpp_base.LruMap.Nodes.{entries, IdsDistinct}

module _ {ℓ} {K V : Type ℓ} (dec : Discrete K) where
  -- The identity of the first node with the key: what map_ must hold for it.
  unfoldable pub locate : K → List (Node K V) → Option ℕ
  locate k [] = none
  locate k ((i, j, v) ∷ l) = ite (dec j k) (some i) (locate k l)

  unfoldable pub KeysDistinct : List (Node K V) → Type ℓ
  KeysDistinct [] = Unit
  KeysDistinct ((i, k, v) ∷ l) = (locate k l ≡ none) × KeysDistinct l

  pub value_of-absent :
      (k : K) (l : List (Node K V)) → locate k l ≡ none → value_of dec k (entries l) ≡ none
  unfolding locate value_of entries
  value_of-absent k [] h = refl
  value_of-absent k ((i, j, v) ∷ l) h = elim (dec j k) [
    | yes p ↦ let found : some i ≡ none = rw (if_pos _ p) at h in cc
    | no p ↦ rw (if_neg _ p) (value_of-absent k l (rw (if_neg _ p) at h))
  ]

  locate-ne :
      (k : K) (i j : ℕ) (l : List (Node K V))
      → locate k l ≡ some i
      → at_node j l ≡ none
      → (j == i) ≡ false
  unfolding locate at_node
  locate-ne k i j [] h f = cc
  locate-ne k i j ((m, q, v) ∷ l) h f = ground (arith, ==_iff m j, ==_iff j i, locate-ne k i j l)

  -- The node that is found holds the key, its value is the map's, and it is what `without` removes.
  pub locate_found :
      (k : K) (i : ℕ) (l : List (Node K V))
      → locate k l ≡ some i
      → IdsDistinct l
      → (v : V) × (at_node i l ≡ some (k, v))
        × (value_of dec k (entries l) ≡ some v)
        × (entries (erase_node i l) ≡ without dec k (entries l))
  unfolding locate at_node IdsDistinct value_of without entries erase_node
  locate_found k i [] h d = cc
  locate_found k i ((j, q, v) ∷ l) h d = elim (dec q k) [
    | yes p ↦
        let here : some j ≡ some i = rw (if_pos _ p) at h in
        let e : (j == i) ≡ true = (==_iff j i).1 (cc) in
        (v, rw e (ap (λ x. some (x, v)) p), (rw (if_pos _ p)), rw e (rw (if_pos _ p)))
    | no p ↦
        let rest : locate k l ≡ some i = rw (if_neg _ p) at h in
        let (w, at, value, gone) = locate_found k i l rest d.1 in
        let e : (j == i) ≡ false = locate-ne k i j l rest d.0 in
        (w, rw e at, rw (if_neg _ p) value, rw (e, if_neg _ p) (ap (◌∷◌ (q, v)) gone))
  ]

  locate-erase_absent :
      (q : K) (i : ℕ) (l : List (Node K V)) → locate q l ≡ none → locate q (erase_node i l) ≡ none
  unfolding locate erase_node
  locate-erase_absent q i [] h = refl
  locate-erase_absent q i ((j, k, v) ∷ l) h = ground (arith, locate-erase_absent q i l)

  pub KeysDistinct-erase_node :
      (i : ℕ) (l : List (Node K V)) → KeysDistinct l → KeysDistinct (erase_node i l)
  unfolding KeysDistinct erase_node
  KeysDistinct-erase_node i [] h = tt
  KeysDistinct-erase_node i ((j, k, v) ∷ l) h = elim (Bool-cases (j == i)) [
    | inl e ↦ rw (e, KeysDistinct) h.1
    | inr e ↦ rw (e, KeysDistinct) (locate-erase_absent k i l h.0, KeysDistinct-erase_node i l h.1)
  ]

  -- Erasing the node of a key takes that key out, and no other.
  pub locate-erase_node :
      (k q : K) (i : ℕ) (l : List (Node K V))
      → locate k l ≡ some i
      → IdsDistinct l
      → KeysDistinct l
      → locate q (erase_node i l) ≡ ite (dec k q) none (locate q l)
  unfolding locate IdsDistinct KeysDistinct erase_node
  locate-erase_node k q i [] h d u = cc
  locate-erase_node k q i ((j, p, v) ∷ l) h d u =
      ground (arith, ==_iff j i, locate-ne k i j l, locate-erase_node k q i l)

  locate-drop_last_absent :
      (q : K) (l : List (Node K V)) → locate q l ≡ none → locate q (drop_last l) ≡ none
  unfolding locate drop_last
  locate-drop_last_absent q [] h = refl
  locate-drop_last_absent q (e ∷ []) h = refl
  locate-drop_last_absent q ((i, k, v) ∷ f ∷ l) h =
      ground (arith, locate-drop_last_absent q (f ∷ l))

  pub KeysDistinct-drop_last : (l : List (Node K V)) → KeysDistinct l → KeysDistinct (drop_last l)
  unfolding KeysDistinct drop_last
  KeysDistinct-drop_last [] h = tt
  KeysDistinct-drop_last (e ∷ []) h = tt
  KeysDistinct-drop_last ((i, k, v) ∷ f ∷ l) h =
      (locate-drop_last_absent k (f ∷ l) h.0, KeysDistinct-drop_last (f ∷ l) h.1)

  pub locate-last :
      (i : ℕ) (k : K) (v : V) (l : List (Node K V))
      → last? l ≡ some (i, k, v)
      → (j : ℕ) × (locate k l ≡ some j)
  unfolding locate last?
  locate-last i k v [] h = cc
  locate-last i k v ((j, q, w) ∷ []) h = let p : q ≡ k = cc in (j, rw (if_pos _ p))
  locate-last i k v ((j, q, w) ∷ f ∷ l) h = elim (dec q k) [
    | yes p ↦ (j, rw (if_pos _ p))
    | no p ↦ let (m, e) = locate-last i k v (f ∷ l) h in (m, rw (if_neg _ p) e)
  ]

  -- Dropping the last node takes its key out, and no other.
  pub locate-drop_last :
      (i : ℕ) (k q : K) (v : V) (l : List (Node K V))
      → last? l ≡ some (i, k, v)
      → KeysDistinct l
      → locate q (drop_last l) ≡ ite (dec k q) none (locate q l)
  unfolding locate KeysDistinct drop_last last?
  locate-drop_last i k q v [] h u = cc
  locate-drop_last i k q v ((j, p, w) ∷ []) h u = ground arith
  locate-drop_last i k q v ((j, p, w) ∷ f ∷ l) h u =
      let (m, there) = locate-last i k v (f ∷ l) h in
      ground (arith, there, u.0, locate-drop_last i k q v (f ∷ l) h u.1)
