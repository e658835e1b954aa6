-- ===== src/ZVector/Tests.antt =====
-- Runs of ZVector, and the theorems on it at inputs.
use cpp_base.Prelude.{
  ℕ, ◌+◌, ◌-◌, ◌≡◌, refl, arith, Bool, true, some, [], ◌∷◌, inl, ok, Outcome, ◌>>=◌,
}
use cpp_base.ZVector.{
  Storage, ZVector, zero_index, empty_zvector, value, set_value, set_all, reserve,
}
use cpp_base.ZVector.Access.{IsWithin, value-set_value}
use cpp_base.ZVector.Grants.{Grants}
use cpp_base.ZVector.Kept.{reserve_keeps, reserve_twice}

abbrev enough : ℕ → Bool
enough n = true

abbrev block : Storage ℕ
block = record { origin = zero_index; cells = some 5 ∷ some 6 ∷ some 7 ∷ [] }

-- The indices 0 to 2.
abbrev three : ZVector ℕ
three = record {
  min_index = zero_index;
  max_index = zero_index + 2;
  size = 3;
  storage = some block;
}

three-IsWithin : IsWithin three block
three-IsWithin = record {
  storage_is = refl;
  origin_le = omega arith;
  ordered = omega arith;
  size_is = refl;
  max_lt = omega arith;
}

-- The constructor, SetAll, and a read.
abbrev filled : Outcome ℕ
filled = reserve {A = ℕ} enough empty_zvector (zero_index - 1) (zero_index + 1) >>= λ r.
    set_all r.1 9 >>= λ z. value z (zero_index - 1)

filled_value : filled ≡ ok 9
unfolding reserve empty_zvector set_all value
filled_value = refl

value-set_value_example :
    (z' : ZVector ℕ) × (s' : Storage ℕ) × (set_value three zero_index 8 ≡ ok z')
    × IsWithin z' s'
    × (value z' zero_index ≡ ok 8)
    × (value z' (zero_index + 1) ≡ value three (zero_index + 1))
value-set_value_example =
    value-set_value three block zero_index (zero_index + 1) 8 three-IsWithin (omega arith)
      (omega arith) (omega arith) (omega arith) (omega arith)

reserve_keeps_example :
    (z' : ZVector ℕ) × (reserve enough three (zero_index - 4) (zero_index + 4) ≡ ok (true, z'))
    × (value z' (zero_index + 1) ≡ value three (zero_index + 1))
reserve_keeps_example =
    reserve_keeps enough three block (zero_index - 4) (zero_index + 4) (zero_index + 1)
      three-IsWithin refl (omega arith) (omega arith) (inl (omega arith)) (omega arith) refl
      (omega arith) (omega arith)

reserve_twice_example :
    (z1 : ZVector ℕ) × (z2 : ZVector ℕ) × (reserve enough three (zero_index + 1) (zero_index + 2)
      ≡ ok (true, z1))
    × (reserve enough z1 zero_index (zero_index + 2) ≡ ok (true, z2))
    × (value z1 (zero_index + 1 + 0) ≡ value three (zero_index + 1 + 0))
    × (value z2 (zero_index + 1 + 0) ≡ value three (zero_index + 0))
reserve_twice_example =
    reserve_twice enough three block (zero_index + 1) zero_index (zero_index + 2) 0 three-IsWithin
      refl (omega arith) (omega arith) (omega arith) (inl (omega arith)) (omega arith) refl
      (omega arith)
