-- ===== src/LruMap/Nodes.antt =====
-- Facts about the nodes of LruMap's list (data-struct/lru_map.h) and where the keys are in it.
use cpp_base.Prelude.{
  ℕ, ◌+◌, ◌<◌, ◌≡◌, refl, none, some, List, [], ◌∷◌, arith, length, ◌==◌, ap, suc, ==_iff,
  Bool-cases, inl, inr,
}
use cpp_base.LruMap.{Node, at_node, erase_node, last?, drop_last}
use cpp_base.LruMap.Order.{newest, oldest}

module _ {ℓ} {K V : Type ℓ} where
  unfoldable pub entries : List (Node K V) → List (K × V)
  entries [] = []
  entries ((j, k, v) ∷ l) = (k, v) ∷ entries l

  unfoldable pub IdsDistinct : List (Node K V) → Type ℓ
  IdsDistinct [] = Unit
  IdsDistinct ((j, k, v) ∷ l) = (at_node j l ≡ none) × IdsDistinct l

  -- Every identity is below `n`.
  unfoldable pub IdsBelow : ℕ → List (Node K V) → Type 0
  IdsBelow n [] = Unit
  IdsBelow n ((j, k, v) ∷ l) = (j < n) × IdsBelow n l

  pub length-entries : (l : List (Node K V)) → length (entries l) ≡ length l
  unfolding entries
  length-entries [] = refl
  length-entries ((j, k, v) ∷ l) = ap suc (length-entries l)

  pub at_node_fresh : (n : ℕ) (l : List (Node K V)) → IdsBelow n l → at_node n l ≡ none
  unfolding at_node IdsBelow
  at_node_fresh n [] h = refl
  at_node_fresh n ((j, k, v) ∷ l) h = ground (arith, at_node_fresh n l h.1)

  pub IdsBelow-suc : (n : ℕ) (l : List (Node K V)) → IdsBelow n l → IdsBelow (n + 1) l
  unfolding IdsBelow
  IdsBelow-suc n [] h = tt
  IdsBelow-suc n ((j, k, v) ∷ l) h = (omega (arith, h.0), IdsBelow-suc n l h.1)

  pub IdsBelow-at_node :
      (n i : ℕ) (l : List (Node K V)) (e : K × V) → IdsBelow n l → at_node i l ≡ some e → i < n
  unfolding at_node IdsBelow
  IdsBelow-at_node n i [] e h f = cc
  IdsBelow-at_node n i ((j, k, v) ∷ l) e h f = ground (arith, h.0, IdsBelow-at_node n i l e h.1)

  pub IdsBelow-erase_node :
      (n i : ℕ) (l : List (Node K V)) → IdsBelow n l → IdsBelow n (erase_node i l)
  unfolding erase_node IdsBelow
  IdsBelow-erase_node n i [] h = tt
  IdsBelow-erase_node n i ((j, k, v) ∷ l) h = elim (Bool-cases (j == i)) [
    | inl e ↦ rw (e, IdsBelow) h.1
    | inr e ↦ rw (e, IdsBelow) (h.0, IdsBelow-erase_node n i l h.1)
  ]

  pub IdsBelow-drop_last : (n : ℕ) (l : List (Node K V)) → IdsBelow n l → IdsBelow n (drop_last l)
  unfolding drop_last IdsBelow
  IdsBelow-drop_last n [] h = tt
  IdsBelow-drop_last n (e ∷ []) h = tt
  IdsBelow-drop_last n ((j, k, v) ∷ f ∷ l) h = (h.0, IdsBelow-drop_last n (f ∷ l) h.1)

  at_node-erase_node :
      (j i : ℕ) (l : List (Node K V)) → at_node j l ≡ none → at_node j (erase_node i l) ≡ none
  unfolding at_node erase_node
  at_node-erase_node j i [] h = refl
  at_node-erase_node j i ((m, k, v) ∷ l) h = ground (arith, at_node-erase_node j i l)

  pub at_node-erase_node_self :
      (i : ℕ) (l : List (Node K V)) → IdsDistinct l → at_node i (erase_node i l) ≡ none
  unfolding at_node erase_node IdsDistinct
  at_node-erase_node_self i [] h = refl
  at_node-erase_node_self i ((m, k, v) ∷ l) h =
      ground (arith, ==_iff m i, h.0, at_node-erase_node_self i l h.1)

  pub IdsDistinct-erase_node :
      (i : ℕ) (l : List (Node K V)) → IdsDistinct l → IdsDistinct (erase_node i l)
  unfolding erase_node IdsDistinct
  IdsDistinct-erase_node i [] h = tt
  IdsDistinct-erase_node i ((j, k, v) ∷ l) h = elim (Bool-cases (j == i)) [
    | inl e ↦ rw (e, IdsDistinct) h.1
    | inr e ↦ rw (e, IdsDistinct) (at_node-erase_node j i l h.0, IdsDistinct-erase_node i l h.1)
  ]

  at_node-drop_last :
      (j : ℕ) (l : List (Node K V)) → at_node j l ≡ none → at_node j (drop_last l) ≡ none
  unfolding at_node drop_last
  at_node-drop_last j [] h = refl
  at_node-drop_last j (e ∷ []) h = refl
  at_node-drop_last j ((m, k, v) ∷ f ∷ l) h = ground (arith, at_node-drop_last j (f ∷ l))

  pub IdsDistinct-drop_last : (l : List (Node K V)) → IdsDistinct l → IdsDistinct (drop_last l)
  unfolding drop_last IdsDistinct
  IdsDistinct-drop_last [] h = tt
  IdsDistinct-drop_last (e ∷ []) h = tt
  IdsDistinct-drop_last ((j, k, v) ∷ f ∷ l) h =
      (at_node-drop_last j (f ∷ l) h.0, IdsDistinct-drop_last (f ∷ l) h.1)

  pub length-drop_last : (l : List (Node K V)) → 0 < length l → length (drop_last l) + 1 ≡ length l
  unfolding drop_last
  length-drop_last [] h = absurd (omega arith)
  length-drop_last (e ∷ []) h = omega arith
  length-drop_last (e ∷ f ∷ l) h = omega (arith, length-drop_last (f ∷ l) (omega arith))

  pub entries-drop_last : (l : List (Node K V)) → entries (drop_last l) ≡ newest (entries l)
  unfolding entries drop_last newest
  entries-drop_last [] = refl
  entries-drop_last (e ∷ []) = refl
  entries-drop_last ((j, k, v) ∷ (j', k', v') ∷ l) =
      ap (◌∷◌ (k, v)) (entries-drop_last ((j', k', v') ∷ l))

  pub oldest-entries :
      (l : List (Node K V))
      → oldest (entries l) ≡ elim (last? l) [ none ↦ none | some (_, k, v) ↦ some (k, v) ]
  unfolding entries last? oldest
  oldest-entries [] = refl
  oldest-entries ((j, k, v) ∷ []) = refl
  oldest-entries ((j, k, v) ∷ (j', k', v') ∷ l) = oldest-entries ((j', k', v') ∷ l)
