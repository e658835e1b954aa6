-- ===== src/Hash/Tests.antt =====
-- Runs of the hashes, and each theorem at an input.
use cpp_base.Prelude.{◌≡◌, refl, arith, [], ◌∷◌}
use cpp_base.Hash.{Triple, extend_char, hash_string}
use cpp_base.Hash.Mix.{mix64-injective}

-- "ab", by the djb2 recurrence: 97, then 33 * 97 with 98.
hash_ab : hash_string (b'a' ∷ b'b' ∷ []) ≡ 3299
unfolding hash_string
hash_ab = refl

extend_high : extend_char 255 ≡ 0xffffffffffffffff
unfolding extend_char
extend_high = refl

abbrev seven : Triple
seven = record { a = 7; b = 8; c = 9 }

mix64-injective_example : seven ≡ seven
mix64-injective_example =
    mix64-injective seven seven (omega arith, omega arith, omega arith)
      (omega arith, omega arith, omega arith) refl
