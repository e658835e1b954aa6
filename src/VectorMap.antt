-- ===== src/VectorMap.antt =====
-- The vector of distinct elements with a map to their indices of data-struct/vector_map.h. The hash
-- map is a function beside its size.
pub mod Add
mod Tests
use mathlib.Core.Logic.{ite}
use cpp_base.Prelude.{
  ℕ, ◌+◌, Bool, true, false, Option, none, some, List, [], ◌∷◌, ◌++◌, length, get_elem?, Outcome,
  ok, fatal, ◌>>=◌, ◌>>◌, check, load, ltb, leb, ◌==◌, if◌then◌else◌, ℤ, pos, negsuc, int_limit,
}

pub record VectorMap {ℓ} (T : Type ℓ) : Type ℓ where
  pub list : List T
  pub map : T → Option ℕ
  pub map_size : ℕ

module _ {ℓ} {T : Type ℓ} where
  unfoldable pub empty_map : VectorMap T
  empty_map = record { list = []; map = λ x. none; map_size = 0 }

  -- FindWithDefault with -1.
  unfoldable pub index_of : VectorMap T → T → ℤ
  index_of v element = elim (v.map element) [ none ↦ negsuc 0 | some i ↦ pos i ]

  unfoldable pub vector_contains : VectorMap T → T → Bool
  vector_contains v element = elim (v.map element) [ none ↦ false | some i ↦ true ]

  unfoldable pub element_at : VectorMap T → ℤ → Outcome T
  element_at v (negsuc n) = fatal
  element_at v (pos i) = check (ltb i (length v.list)) >>= λ u. load v.list i

-- From 2 ^ 31 elements on, the `int` index is negative and the CHECK of the sizes fails.
unfoldable pub vector_add {ℓ} :
    {T : Type ℓ} → Discrete T → VectorMap T → T → Outcome (VectorMap T × ℕ)
vector_add dec v element = elim (v.map element) [
  | some i ↦ ok (v, i)
  | none ↦ do
    let index = length v.list
    check (ltb index int_limit)
    check (index == v.map_size)
    ok (
      record {
        list = v.list ++ (element ∷ []);
        map = λ other. ite (dec element other) (some index) (v.map other);
        map_size = v.map_size + 1;
      },
      index,
    )
]

-- Add of a vector of elements.
unfoldable pub vector_add_all {ℓ} :
    {T : Type ℓ} → Discrete T → VectorMap T → List T → Outcome (VectorMap T)
unfolding vector_add
vector_add_all dec v [] = ok v
vector_add_all dec v (element ∷ elements) =
    vector_add dec v element >>= λ r. vector_add_all dec r.0 elements
