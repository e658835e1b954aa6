-- ===== src/VectorMap/Tests.antt =====
-- Runs of the vector map, and each theorem at an input.
use native.Mathlib.Decide.{ℕ_discrete}
use cpp_base.Prelude.{ℕ, ◌≡◌, refl, arith, false, [], ◌∷◌, ok, fatal, ◌>>=◌, pos}
use cpp_base.VectorMap.{
  VectorMap, empty_map, index_of, vector_contains, element_at, vector_add, vector_add_all,
}
use cpp_base.VectorMap.Add.{IsVectorMap, vector_add_lem, empty_map-IsVectorMap}

abbrev none_yet : VectorMap ℕ
none_yet = empty_map

added :
    (vector_add_all ℕ_discrete none_yet (7 ∷ 9 ∷ 7 ∷ []) >>= λ v. ok (index_of v 9)) ≡ ok (pos 1)
unfolding vector_add_all empty_map index_of ℕ_discrete
added = refl

known : (vector_add_all ℕ_discrete none_yet (7 ∷ []) >>= λ v. ok (vector_contains v 8)) ≡ ok false
unfolding vector_add_all empty_map vector_contains ℕ_discrete
known = refl

past_end :
    (vector_add_all ℕ_discrete none_yet (7 ∷ 9 ∷ 7 ∷ []) >>= λ v. element_at v (pos 2)) ≡ fatal
unfolding vector_add_all empty_map element_at ℕ_discrete
past_end = refl

vector_add_lem_example :
    (v' : VectorMap ℕ) × (i : ℕ) × (vector_add ℕ_discrete none_yet 5 ≡ ok (v', i))
    × IsVectorMap v'
    × (index_of v' 5 ≡ pos i)
    × (element_at v' (pos i) ≡ ok 5)
    × ((y : ℕ) (j : ℕ) → index_of none_yet y ≡ pos j → index_of v' y ≡ pos j)
unfolding empty_map
vector_add_lem_example = vector_add_lem ℕ_discrete none_yet 5 empty_map-IsVectorMap (omega arith)
