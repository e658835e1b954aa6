-- ===== src/Hash.antt =====
-- The mixing of three words and the hashes of numbers and texts of hash/hash.h.
pub mod Mix
mod Tests
use Prim.Native.Nat.{bit_xor}
use cpp_base.Prelude.{ℕ, ◌+◌, ◌-◌, ◌*◌, ◌%◌, ◌^◌, List, [], ◌∷◌, ltb, if◌then◌else◌}
use cpp_base.Words.{shr, shl, sub}
use cpp_base.Bytes.{Bytes}

pub record Triple : Type 0 where
  pub a : ℕ
  pub b : ℕ
  pub c : ℕ

-- Nine lines of `mix`, on words of `w` bits: `a` and `c` are mixed with a shift to the right, `b`
-- with one to the left.
unfoldable pub mix_round : ℕ → ℕ → ℕ → ℕ → Triple → Triple
mix_round w i j k t =
    let a' = bit_xor (sub w (sub w t.a t.b) t.c) (shr t.c i) in
    let b' = bit_xor (sub w (sub w t.b t.c) a') (shl w a' j) in
    let c' = bit_xor (sub w (sub w t.c a') b') (shr b' k) in record { a = a'; b = b'; c = c' }

unfoldable pub mix32 : Triple → Triple
unfolding mix_round
mix32 t = mix_round 32 3 10 15 (mix_round 32 12 16 5 (mix_round 32 13 8 13 t))

unfoldable pub mix64 : Triple → Triple
unfolding mix_round
mix64 t =
    mix_round 64 12 18 22 (mix_round 64 35 49 11 (mix_round 64 38 23 5 (mix_round 64 43 9 8 t)))

unfoldable pub hash32_num_with_seed : ℕ → ℕ → ℕ
unfolding mix32
hash32_num_with_seed num c = (mix32 (record { a = num; b = 0x9e3779b9; c = c })).c

unfoldable pub hash64_num_with_seed : ℕ → ℕ → ℕ
unfolding mix64
hash64_num_with_seed num c = (mix64 (record { a = num; b = 0xe08c1d668b756f82; c = c })).c

-- A byte from 128 on is a negative char, which is extended to 64 bits with ones. The text has no
-- zero byte.
unfoldable pub extend_char : ℕ → ℕ
extend_char c = if ltb c 128 then c else 2 ^ 64 - 256 + c

unfoldable pub hash_string_from : ℕ → Bytes → ℕ
unfolding extend_char
hash_string_from hash [] = hash
hash_string_from hash (c ∷ s) =
    hash_string_from (bit_xor ((shl 64 hash 5 + hash) % 2 ^ 64) (extend_char c)) s

unfoldable pub hash_string : Bytes → ℕ
unfolding hash_string_from
hash_string s = hash_string_from 0 s
