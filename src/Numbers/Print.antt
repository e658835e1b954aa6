-- ===== src/Numbers/Print.antt =====
-- The printers of string/numbers.cc. `out` is the text that is written in front of `buffer`; the
-- labels of FastUInt32ToBufferLeft are functions.
use Prim.Native.Nat.{bit_and}
use mathlib.Core.WellFounded.{Acc}
use mathlib.Core.Logic.{dite}
use native.Mathlib.Decide.{dec_lt}
use cpp_base.Prelude.{
  ℕ, zero, suc, ◌+◌, ◌-◌, ◌*◌, ◌/◌, ◌%◌, ◌^◌, ◌<◌, arith, [], ◌∷◌, ◌++◌, length, ltb, leb,
  if◌then◌else◌, Outcome, ok, undefined, ◌>>=◌, ◌>>◌, check, load, int_limit, ℤ, pos, negsuc,
  get_or,
}
use cpp_base.Prelude.{less_wf}
use cpp_base.Bytes.{Bytes}
use cpp_base.Numbers.Tables.{two_ascii_digits}

-- `int` multiplication of numbers that are not negative.
abbrev pub mul_int : ℕ → ℕ → Outcome ℕ
mul_int a b = if ltb (a * b) int_limit then ok (a * b) else undefined

-- `u -= digits * unit` of a word of 32 bits.
unfoldable pub sub_digits : ℕ → ℕ → ℕ → Outcome ℕ
sub_digits u digits unit = mul_int digits unit >>= λ product. ok ((u + 2 ^ 32 - product) % 2 ^ 32)

-- The two digits of a number below 100.
unfoldable pub put_two : ℕ → Bytes → Outcome Bytes
unfolding two_ascii_digits
put_two digits out = load two_ascii_digits digits >>= λ p. ok (out ++ (p.0 ∷ p.1 ∷ []))

-- `'0' + digits`
unfoldable pub put_one : ℕ → Bytes → Bytes
put_one digits out = out ++ ((48 + digits) ∷ [])

unfoldable pub lt100 : ℕ → Bytes → Outcome Bytes
unfolding put_two
lt100 u out = put_two u out

unfoldable pub sublt100 : ℕ → ℕ → Bytes → Outcome Bytes
unfolding sub_digits lt100
sublt100 digits u out = sub_digits u digits 100 >>= λ u'. lt100 u' out

unfoldable pub lt10_000 : ℕ → Bytes → Outcome Bytes
unfolding put_two sublt100
lt10_000 u out = put_two (u / 100) out >>= λ out'. sublt100 (u / 100) u out'

unfoldable pub sublt10_000 : ℕ → ℕ → Bytes → Outcome Bytes
unfolding sub_digits lt10_000
sublt10_000 digits u out = sub_digits u digits 10000 >>= λ u'. lt10_000 u' out

unfoldable pub lt1_000_000 : ℕ → Bytes → Outcome Bytes
unfolding put_two sublt10_000
lt1_000_000 u out = put_two (u / 10000) out >>= λ out'. sublt10_000 (u / 10000) u out'

unfoldable pub sublt1_000_000 : ℕ → ℕ → Bytes → Outcome Bytes
unfolding sub_digits lt1_000_000
sublt1_000_000 digits u out = sub_digits u digits 1000000 >>= λ u'. lt1_000_000 u' out

unfoldable pub lt100_000_000 : ℕ → Bytes → Outcome Bytes
unfolding put_two sublt1_000_000
lt100_000_000 u out = put_two (u / 1000000) out >>= λ out'. sublt1_000_000 (u / 1000000) u out'

unfoldable pub sublt100_000_000 : ℕ → ℕ → Bytes → Outcome Bytes
unfolding sub_digits lt100_000_000
sublt100_000_000 digits u out = sub_digits u digits 100000000 >>= λ u'. lt100_000_000 u' out

unfoldable pub fast_uint32_to_buffer_left : ℕ → Bytes → Outcome Bytes
unfolding put_two put_one lt100 sublt100 lt10_000 sublt10_000 lt1_000_000 sublt1_000_000
    lt100_000_000 sublt100_000_000
fast_uint32_to_buffer_left u out =
    if leb 1000000000 u
    then (put_two (u / 100000000) out >>= λ out'. sublt100_000_000 (u / 100000000) u out')
    else if ltb u 100
    then (if leb 10 u then lt100 u out else ok (put_one u out))
    else if ltb u 10000
    then (if leb 1000 u then lt10_000 u out else sublt100 (u / 100) u (put_one (u / 100) out))
    else if ltb u 1000000
    then (if leb 100000 u
        then lt1_000_000 u out
        else sublt10_000 (u / 10000) u (put_one (u / 10000) out))
    else if ltb u 100000000
    then (if leb 10000000 u
        then lt100_000_000 u out
        else sublt1_000_000 (u / 1000000) u (put_one (u / 1000000) out))
    else sublt100_000_000 (u / 100000000) u (put_one (u / 100000000) out)

unfoldable pub fast_int32_to_buffer_left : ℤ → Bytes → Outcome Bytes
unfolding fast_uint32_to_buffer_left
fast_int32_to_buffer_left (pos n) out = fast_uint32_to_buffer_left n out
fast_int32_to_buffer_left (negsuc n) out =
    if ltb (n + 1) int_limit
    then fast_uint32_to_buffer_left (n + 1) (out ++ (b'-' ∷ []))
    else undefined

-- The last nine digits, of a number below 10 ^ 9.
unfoldable pub put_nine : ℕ → Bytes → Outcome Bytes
unfolding put_two put_one sub_digits
put_nine u out =
    check (ltb (u / 10000000) 100)
    >> (put_two (u / 10000000) out >>= λ out1. sub_digits u (u / 10000000) 10000000 >>= λ u1.
        put_two (u1 / 100000) out1 >>= λ out2. sub_digits u1 (u1 / 100000) 100000 >>= λ u2.
        put_two (u2 / 1000) out2 >>= λ out3. sub_digits u2 (u2 / 1000) 1000 >>= λ u3.
        put_two (u3 / 10) out3 >>= λ out4.
        sub_digits u3 (u3 / 10) 10 >>= λ u4. ok (put_one u4 out4))

unfoldable pub uint64_loop : (u : ℕ) → Acc ◌<◌ u → Bytes → Outcome Bytes
unfolding fast_uint32_to_buffer_left put_nine
uint64_loop u (Acc.intro _ smaller) out =
    dite (dec_lt u (2 ^ 32)) (λ _. fast_uint32_to_buffer_left u out)
      (λ big. uint64_loop (u / 1000000000) (smaller _ (omega arith)) out >>= λ out'.
        put_nine ((u - u / 1000000000 * 1000000000) % 2 ^ 32) out')

unfoldable pub fast_uint64_to_buffer_left : ℕ → Bytes → Outcome Bytes
unfolding uint64_loop less_wf
fast_uint64_to_buffer_left u out = uint64_loop u (less_wf u) out

unfoldable pub fast_int64_to_buffer_left : ℤ → Bytes → Outcome Bytes
unfolding fast_uint64_to_buffer_left
fast_int64_to_buffer_left (pos n) out = fast_uint64_to_buffer_left n out
fast_int64_to_buffer_left (negsuc n) out =
    if ltb (n + 1) (2 ^ 63)
    then fast_uint64_to_buffer_left (n + 1) (out ++ (b'-' ∷ []))
    else undefined

-- `char buf[size]` with the text and the null character behind it.
unfoldable pub basic_itoa : ℕ → Outcome Bytes → Outcome Bytes
basic_itoa size written = written >>= λ text. if ltb (length text) size then ok text else undefined

unfoldable pub simple_itoa_int32 : ℤ → Outcome Bytes
unfolding basic_itoa fast_int32_to_buffer_left
simple_itoa_int32 i = basic_itoa 16 (fast_int32_to_buffer_left i [])

unfoldable pub simple_itoa_uint32 : ℕ → Outcome Bytes
unfolding basic_itoa fast_uint32_to_buffer_left
simple_itoa_uint32 u = basic_itoa 16 (fast_uint32_to_buffer_left u [])

unfoldable pub simple_itoa_int64 : ℤ → Outcome Bytes
unfolding basic_itoa fast_int64_to_buffer_left
simple_itoa_int64 i = basic_itoa 32 (fast_int64_to_buffer_left i [])

unfoldable pub simple_itoa_uint64 : ℕ → Outcome Bytes
unfolding basic_itoa fast_uint64_to_buffer_left
simple_itoa_uint64 u = basic_itoa 32 (fast_uint64_to_buffer_left u [])

-- `hexdigits[i]`
abbrev hex_text : Bytes
hex_text =
    b'0' ∷ b'1' ∷ b'2' ∷ b'3' ∷ b'4' ∷ b'5' ∷ b'6' ∷ b'7' ∷ b'8' ∷ b'9' ∷ b'a' ∷ b'b' ∷ b'c' ∷ b'd'
    ∷ b'e' ∷ b'f' ∷ []

-- The loop of InternalFastHexToBuffer fills its buffer from the end.
unfoldable pub internal_fast_hex_to_buffer : ℕ → ℕ → Bytes
internal_fast_hex_to_buffer value zero = []
internal_fast_hex_to_buffer value (suc num_byte) =
    internal_fast_hex_to_buffer (value / 2 ^ 4) num_byte
    ++ (get_or hex_text (bit_and (value % 2 ^ 32) 0xf) 0 ∷ [])

unfoldable pub fast_hex64_to_buffer : ℕ → Bytes
unfolding internal_fast_hex_to_buffer
fast_hex64_to_buffer value = internal_fast_hex_to_buffer value 16

unfoldable pub fast_hex32_to_buffer : ℕ → Bytes
unfolding internal_fast_hex_to_buffer
fast_hex32_to_buffer value = internal_fast_hex_to_buffer value 8
