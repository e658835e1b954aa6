-- ===== src/VectorMap/Add.antt =====
-- Add, Index and Element of a VectorMap (data-struct/vector_map.h).
use mathlib.Core.Logic.{ite, if_pos, if_neg}
use cpp_base.Prelude.{
  ℕ, zero, suc, ◌+◌, ◌<◌, ◌≡◌, ◌⊎◌, ◌^◌, refl, arith, ap, ◌∙◌, sym, true, Option, none, some, List,
  [], ◌∷◌, ◌++◌, length, length-append, get_elem?, ok, load, lt→ltb, ◌==◌, ==_iff, ℤ, pos, negsuc,
  int_limit, Option-cases, inl, inr,
}
use cpp_base.VectorMap.{VectorMap, empty_map, index_of, element_at, vector_add}

absent_not {ℓ} : {A : Type ℓ} (a : A) → none ≡ some a → ⊥
absent_not a e = cc

option_of : ℤ → Option ℕ
option_of (pos i) = some i
option_of (negsuc n) = none

module _ {ℓ} {T : Type ℓ} where
  -- The map gives the places of the vector.
  pub record IsVectorMap (v : VectorMap T) : Type ℓ where
    pub placed : (x : T) (i : ℕ) → v.map x ≡ some i → get_elem? v.list i ≡ some x
    pub mapped : (x : T) (i : ℕ) → get_elem? v.list i ≡ some x → v.map x ≡ some i
    pub sized : v.map_size ≡ length v.list

  get_elem?-lt : (l : List T) (i : ℕ) (x : T) → get_elem? l i ≡ some x → i < length l
  get_elem?-lt [] i x h = cc
  get_elem?-lt (y ∷ l) zero x h = omega arith
  get_elem?-lt (y ∷ l) (suc i) x h = omega (arith, get_elem?-lt l i x h)

  get_elem?-append :
      (l : List T) (i : ℕ) (x y : T) → get_elem? l i ≡ some x → get_elem? (l ++ (y ∷ [])) i ≡ some x
  get_elem?-append [] i x y h = cc
  get_elem?-append (z ∷ l) zero x y h = h
  get_elem?-append (z ∷ l) (suc i) x y h = get_elem?-append l i x y h

  get_elem?-last : (l : List T) (y : T) → get_elem? (l ++ (y ∷ [])) (length l) ≡ some y
  get_elem?-last [] y = refl
  get_elem?-last (z ∷ l) y = get_elem?-last l y

  -- A place of the longer list is an old one or the last.
  get_elem?-back :
      (l : List T) (i : ℕ) (x y : T)
      → get_elem? (l ++ (y ∷ [])) i ≡ some x
      → (get_elem? l i ≡ some x) ⊎ ((i ≡ length l) × (y ≡ x))
  get_elem?-back [] zero x y h = inr (refl, cc)
  get_elem?-back [] (suc i) x y h = cc
  get_elem?-back (z ∷ l) zero x y h = inl h
  get_elem?-back (z ∷ l) (suc i) x y h = elim (get_elem?-back l i x y h) [
    | inl e ↦ inl e
    | inr (e, f) ↦ inr (ap suc e, f)
  ]

  element_at-placed :
      (v : VectorMap T) (i : ℕ) (x : T) → get_elem? v.list i ≡ some x → element_at v (pos i) ≡ ok x
  unfolding element_at
  element_at-placed v i x h =
      rw (lt→ltb i (length v.list) (get_elem?-lt v.list i x h), load, h) refl

  -- The vector and the map after a new element is added.
  unfoldable pub with_element : Discrete T → VectorMap T → T → VectorMap T
  with_element dec v x = record {
    list = v.list ++ (x ∷ []);
    map = λ other. ite (dec x other) (some (length v.list)) (v.map other);
    map_size = v.map_size + 1;
  }

  with_element_self :
      (dec : Discrete T) (v : VectorMap T) (x : T)
      → (with_element dec v x).map x ≡ some (length v.list)
  unfolding with_element
  with_element_self dec v x = if_pos (dec x x) refl _ _

  with_element_ne :
      (dec : Discrete T) (v : VectorMap T) (x y : T)
      → (x ≡ y → ⊥)
      → (with_element dec v x).map y ≡ v.map y
  unfolding with_element
  with_element_ne dec v x y n = if_neg (dec x y) n _ _

  with_element-IsVectorMap :
      (dec : Discrete T) (v : VectorMap T) (x : T)
      → IsVectorMap v
      → v.map x ≡ none
      → IsVectorMap (with_element dec v x)
  unfolding with_element
  with_element-IsVectorMap dec v x h e = record {
    placed = λ y i f. elim (dec x y) [
      | yes p ↦
          let at : some (length v.list) ≡ some i =
            sym (with_element_self dec v x) ∙ ap (with_element dec v x).map p ∙ f in
          let last = get_elem?-last v.list x in
          let same : length v.list ≡ i = cc in
          ap (get_elem? (v.list ++ (x ∷ []))) (sym same) ∙ last ∙ ap some p
      | no n ↦ get_elem?-append v.list i y x (h.placed y i (sym (with_element_ne dec v x y n) ∙ f))
    ];
    mapped = λ y i f. elim (get_elem?-back v.list i y x f) [
      | inl g ↦
          let old = h.mapped y i g in
          with_element_ne dec v x y (λ p. absent_not i (sym e ∙ ap v.map p ∙ old)) ∙ old
      | inr (a, p) ↦
          ap (with_element dec v x).map (sym p) ∙ with_element_self dec v x ∙ ap some (sym a)
    ];
    sized = omega (arith, h.sized, length-append v.list (x ∷ []));
  }

  option_of-index_of : (v : VectorMap T) (x : T) → option_of (index_of v x) ≡ v.map x
  unfolding option_of index_of
  option_of-index_of v x = elim (Option-cases (v.map x)) [
    | inl e ↦ rw (e, index_of) refl
    | inr (i, e) ↦ rw (e, index_of) refl
  ]

  -- Add succeeds while there are fewer than 2 ^ 31 elements, and keeps the vector and the map in
  -- agreement. Index then gives the index that it returned, Element gives the element there, and
  -- every element keeps the index it had.
  pub vector_add_lem :
      (dec : Discrete T) (v : VectorMap T) (x : T)
      → IsVectorMap v
      → length v.list < 2 ^ 31
      → (v' : VectorMap T) × (i : ℕ) × (vector_add dec v x ≡ ok (v', i))
        × IsVectorMap v'
        × (index_of v' x ≡ pos i)
        × (element_at v' (pos i) ≡ ok x)
        × ((y : T) (j : ℕ) → index_of v y ≡ pos j → index_of v' y ≡ pos j)
  unfolding vector_add index_of option_of
  vector_add_lem dec v x h b = elim (Option-cases (v.map x)) [
    | inr (i, e) ↦ (
      v,
      i,
      rw (e, vector_add) refl,
      h,
      rw (e, index_of) refl,
      element_at-placed v i x (h.placed x i e),
      λ y j g. g,
    )
    | inl e ↦
        let n = length v.list in
        let v' = with_element dec v x in
        let good = with_element-IsVectorMap dec v x h e in
        let last = get_elem?-last v.list x in
        let sizes : (n == v.map_size) ≡ true = (==_iff n v.map_size).1 (sym h.sized) in
        (
          v',
          n,
          unfold with_element in rw (e, vector_add, lt→ltb n int_limit b, sizes) refl,
          good,
          rw (with_element_self dec v x, index_of) refl,
          unfold with_element in element_at-placed v' n x last,
          λ y j g.
              let before : v.map y ≡ some j = sym (option_of-index_of v y) ∙ ap option_of g in
              let there = get_elem?-append v.list j y x (h.placed y j before) in
              rw (good.mapped y j (unfold with_element in there), index_of) refl,
        )
  ]

pub empty_map-IsVectorMap {ℓ} : {T : Type ℓ} → IsVectorMap (empty_map {T = T})
unfolding empty_map
empty_map-IsVectorMap = record {
  placed = λ x i h. absurd (absent_not i h);
  mapped = λ x i h. absurd (absent_not x h);
  sized = refl;
}
