-- ===== src/Md5.antt =====
-- MD5 of hash/md5.cc: a message is taken in pieces, of which what does not fill a block of 64 bytes is
-- kept in a buffer.
pub mod Reference
pub mod Blocks
pub mod Update
pub mod Digest
mod Tests
use Prim.Native.Nat.{bit_and, bit_or, bit_xor}
use cpp_base.Prelude.{
  ℕ, zero, suc, ◌+◌, ◌-◌, ◌*◌, ◌/◌, ◌%◌, ◌^◌, Bool, true, false, List, [], ◌∷◌, ◌++◌, length,
  get_or, take, drop, replicate, Outcome, ok, undefined, ◌>>=◌, ltb, leb, if◌then◌else◌,
}
use cpp_base.Bytes.{Bytes}
use cpp_base.Words.{shr, shl}
use cpp_base.Uri.{hex_digit}

-- a, b, c and d of Transform, in the order in which the next line of it names them.
pub record Quad : Type 0 where
  pub a : ℕ
  pub b : ℕ
  pub c : ℕ
  pub d : ℕ

pub record Md5 : Type 0 where
  pub finalized : Bool
  pub buffer : Bytes
  -- the number of bits, low and high
  pub count0 : ℕ
  pub count1 : ℕ
  pub state : Quad
  pub digest : Bytes

abbrev pub word_limit : ℕ
word_limit = 2 ^ 32

abbrev complement : ℕ → ℕ
complement x = word_limit - 1 - x

unfoldable pub f_mix : ℕ → ℕ → ℕ → ℕ
f_mix x y z = bit_or (bit_and x y) (bit_and (complement x) z)

unfoldable pub g_mix : ℕ → ℕ → ℕ → ℕ
g_mix x y z = bit_or (bit_and x z) (bit_and y (complement z))

unfoldable pub h_mix : ℕ → ℕ → ℕ → ℕ
h_mix x y z = bit_xor (bit_xor x y) z

unfoldable pub i_mix : ℕ → ℕ → ℕ → ℕ
i_mix x y z = bit_xor y (bit_or x (complement z))

unfoldable pub rotate_left : ℕ → ℕ → ℕ
rotate_left x n = bit_or (shl 32 x n) (shr x (32 - n))

-- FF, GG, HH and II, by their mix: the first word is changed, and stands second on the next line.
unfoldable pub transform_step : (ℕ → ℕ → ℕ → ℕ) → ℕ → ℕ → ℕ → Quad → Quad
unfolding rotate_left
transform_step mix x s ac q = record {
  a = q.d;
  b = (rotate_left ((q.a + mix q.b q.c q.d + x + ac) % word_limit) s + q.b) % word_limit;
  c = q.b;
  d = q.c;
}

-- The lines of a round: which word of the block, the rotation, the constant.
unfoldable pub transform_round : (ℕ → ℕ → ℕ → ℕ) → List ℕ → List (ℕ × ℕ × ℕ) → Quad → Quad
unfolding transform_step
transform_round mix x [] q = q
transform_round mix x ((k, s, ac) ∷ lines) q =
    transform_round mix x lines (transform_step mix (get_or x k 0) s ac q)

unfoldable pub round1 : List (ℕ × ℕ × ℕ)
round1 =
    (0, 7, 0xd76aa478)
    ∷ (1, 12, 0xe8c7b756)
    ∷ (2, 17, 0x242070db)
    ∷ (3, 22, 0xc1bdceee)
    ∷ (4, 7, 0xf57c0faf)
    ∷ (5, 12, 0x4787c62a)
    ∷ (6, 17, 0xa8304613)
    ∷ (7, 22, 0xfd469501)
    ∷ (8, 7, 0x698098d8)
    ∷ (9, 12, 0x8b44f7af)
    ∷ (10, 17, 0xffff5bb1)
    ∷ (11, 22, 0x895cd7be)
    ∷ (12, 7, 0x6b901122)
    ∷ (13, 12, 0xfd987193)
    ∷ (14, 17, 0xa679438e)
    ∷ (15, 22, 0x49b40821)
    ∷ []

unfoldable pub round2 : List (ℕ × ℕ × ℕ)
round2 =
    (1, 5, 0xf61e2562)
    ∷ (6, 9, 0xc040b340)
    ∷ (11, 14, 0x265e5a51)
    ∷ (0, 20, 0xe9b6c7aa)
    ∷ (5, 5, 0xd62f105d)
    ∷ (10, 9, 0x2441453)
    ∷ (15, 14, 0xd8a1e681)
    ∷ (4, 20, 0xe7d3fbc8)
    ∷ (9, 5, 0x21e1cde6)
    ∷ (14, 9, 0xc33707d6)
    ∷ (3, 14, 0xf4d50d87)
    ∷ (8, 20, 0x455a14ed)
    ∷ (13, 5, 0xa9e3e905)
    ∷ (2, 9, 0xfcefa3f8)
    ∷ (7, 14, 0x676f02d9)
    ∷ (12, 20, 0x8d2a4c8a)
    ∷ []

unfoldable pub round3 : List (ℕ × ℕ × ℕ)
round3 =
    (5, 4, 0xfffa3942)
    ∷ (8, 11, 0x8771f681)
    ∷ (11, 16, 0x6d9d6122)
    ∷ (14, 23, 0xfde5380c)
    ∷ (1, 4, 0xa4beea44)
    ∷ (4, 11, 0x4bdecfa9)
    ∷ (7, 16, 0xf6bb4b60)
    ∷ (10, 23, 0xbebfbc70)
    ∷ (13, 4, 0x289b7ec6)
    ∷ (0, 11, 0xeaa127fa)
    ∷ (3, 16, 0xd4ef3085)
    ∷ (6, 23, 0x4881d05)
    ∷ (9, 4, 0xd9d4d039)
    ∷ (12, 11, 0xe6db99e5)
    ∷ (15, 16, 0x1fa27cf8)
    ∷ (2, 23, 0xc4ac5665)
    ∷ []

unfoldable pub round4 : List (ℕ × ℕ × ℕ)
round4 =
    (0, 6, 0xf4292244)
    ∷ (7, 10, 0x432aff97)
    ∷ (14, 15, 0xab9423a7)
    ∷ (5, 21, 0xfc93a039)
    ∷ (12, 6, 0x655b59c3)
    ∷ (3, 10, 0x8f0ccc92)
    ∷ (10, 15, 0xffeff47d)
    ∷ (1, 21, 0x85845dd1)
    ∷ (8, 6, 0x6fa87e4f)
    ∷ (15, 10, 0xfe2ce6e0)
    ∷ (6, 15, 0xa3014314)
    ∷ (13, 21, 0x4e0811a1)
    ∷ (4, 6, 0xf7537e82)
    ∷ (11, 10, 0xbd3af235)
    ∷ (2, 15, 0x2ad7d2bb)
    ∷ (9, 21, 0xeb86d391)
    ∷ []

-- Four bytes for a word, the lowest first.
unfoldable pub decode : Bytes → List ℕ
decode (b0 ∷ b1 ∷ b2 ∷ b3 ∷ input) =
    bit_or (bit_or (bit_or b0 (shl 32 b1 8)) (shl 32 b2 16)) (shl 32 b3 24) ∷ decode input
decode input = []

unfoldable pub encode : List ℕ → Bytes
encode [] = []
encode (x ∷ input) =
    (x % 2 ^ 8) ∷ (shr x 8 % 2 ^ 8) ∷ (shr x 16 % 2 ^ 8) ∷ (shr x 24 % 2 ^ 8) ∷ encode input

unfoldable pub add_quads : Quad → Quad → Quad
add_quads p q = record {
  a = (p.a + q.a) % word_limit;
  b = (p.b + q.b) % word_limit;
  c = (p.c + q.c) % word_limit;
  d = (p.d + q.d) % word_limit;
}

-- After 16 lines the words are in their first order again.
unfoldable pub transform : Quad → Bytes → Quad
unfolding decode transform_round f_mix g_mix h_mix i_mix round1 round2 round3 round4 add_quads
transform q block =
    let x = decode block in
    add_quads q (
      transform_round i_mix x round4 (
        transform_round h_mix x round3
          (transform_round g_mix x round2 (transform_round f_mix x round1 q))))

unfoldable pub init_state : Quad
init_state = record { a = 0x67452301; b = 0xefcdab89; c = 0x98badcfe; d = 0x10325476 }

-- The constructor, from what the memory of the buffer and of the digest held before.
unfoldable pub init : Bytes → Bytes → Md5
unfolding init_state
init buffer digest = record {
  finalized = false;
  buffer = buffer;
  count0 = 0;
  count1 = 0;
  state = init_state;
  digest = digest;
}

unfoldable pub memcpy : Bytes → ℕ → Bytes → Bytes
memcpy buffer index bytes = take index buffer ++ (bytes ++ drop (index + length bytes) buffer)

-- The loop over whole blocks of the input, from a place on: the place where it ends and the state.
-- The place is a word of 32 bits; a block past the end of the input is undefined. Out of fuel:
-- undefined.
unfoldable pub transform_blocks : ℕ → Bytes → ℕ → Quad → Outcome (ℕ × Quad)
transform_blocks zero input i q = undefined
transform_blocks (suc fuel) input i q = elim (leb ((i + 64) % word_limit) (length input)) [
  | false ↦ ok (i, q)
  | true ↦ elim (leb (i + 64) (length input)) [
    | false ↦ undefined
    | true ↦
        transform_blocks fuel input ((i + 64) % word_limit) (transform q (take 64 (drop i input)))
  ]
]

-- `count[0] += length << 3` and what is carried to `count[1]`.
unfoldable pub add_count_bits : Md5 → ℕ → Md5
add_count_bits m n =
    let low = (m.count0 + shl 32 n 3) % word_limit in
    let carried = if ltb low (shl 32 n 3) then (m.count1 + 1) % word_limit else m.count1 in
    record m { count0 = low; count1 = (carried + shr n 29) % word_limit }

-- Update where it is not finalized. Each round of the loop takes 64 bytes, so the length is enough
-- fuel.
unfoldable pub update_open : Md5 → Bytes → Outcome Md5
unfolding memcpy transform transform_blocks add_count_bits
update_open m input =
    let index = m.count0 / 8 % 64 in
    let firstpart = 64 - index in
    let counted = add_count_bits m (length input) in
    if leb firstpart (length input)
    then (let filled = memcpy m.buffer index (take firstpart input) in
        transform_blocks (length input) input firstpart (transform m.state filled) >>= λ r.
        ok (record counted { state = r.1; buffer = memcpy filled 0 (drop r.0 input) }))
    else ok (record counted { buffer = memcpy m.buffer index input })

unfoldable pub md5_update : Md5 → Bytes → Outcome Md5
unfolding update_open
md5_update m input = if m.finalized then ok m else update_open m input

unfoldable pub quad_words : Quad → List ℕ
quad_words q = q.a ∷ q.b ∷ q.c ∷ q.d ∷ []

abbrev pub padding : Bytes
padding = 0x80 ∷ replicate 63 0

unfoldable pub pad_length : ℕ → ℕ
pad_length index = if ltb index 56 then 56 - index else 120 - index

unfoldable pub md5_finalize : Md5 → Outcome Md5
unfolding md5_update encode quad_words pad_length
md5_finalize m =
    if m.finalized
    then ok m
    else (md5_update m (take (pad_length (m.count0 / 8 % 64)) padding) >>= λ padded.
        md5_update padded (encode (m.count0 ∷ m.count1 ∷ [])) >>= λ whole. ok (record whole {
          digest = encode (quad_words whole.state);
          buffer = replicate 64 0;
          count0 = 0;
          count1 = 0;
          finalized = true;
        }))

unfoldable pub hex_byte : ℕ → Bytes
unfolding hex_digit
hex_byte x = hex_digit (x / 16) ∷ hex_digit (x % 16) ∷ []

unfoldable pub hex_bytes : Bytes → Bytes
unfolding hex_byte
hex_bytes [] = []
hex_bytes (x ∷ bytes) = hex_byte x ++ hex_bytes bytes

unfoldable pub as_hex_digest : Md5 → Bytes
unfolding hex_bytes
as_hex_digest m = if m.finalized then hex_bytes m.digest else []

-- Of a null pointer no text can be made.
unfoldable pub as_raw_byte_array : Md5 → Outcome Bytes
as_raw_byte_array m = if m.finalized then ok m.digest else undefined

-- A message in pieces.
unfoldable pub update_all : Md5 → List Bytes → Outcome Md5
unfolding md5_update
update_all m [] = ok m
update_all m (input ∷ inputs) = md5_update m input >>= λ n. update_all n inputs
