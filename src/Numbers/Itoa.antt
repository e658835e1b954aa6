-- ===== src/Numbers/Itoa.antt =====
-- SimpleItoa of string/numbers.h.
use cpp_base.Prelude.{
  ℕ, suc, ◌+◌, ◌^◌, ◌<◌, ◌≤◌, ◌≡◌, refl, ap, ◌∙◌, sym, arith, [], ◌∷◌, length, ltb, if◌then◌else◌,
  Outcome, ok, undefined, ◌>>=◌, if_split, lt→ltb, ℤ, pos, negsuc,
}
use cpp_base.Bytes.{Bytes}
use cpp_base.Numbers.Print.{
  fast_int32_to_buffer_left, fast_int64_to_buffer_left, basic_itoa, simple_itoa_int32,
  simple_itoa_int64,
}
use cpp_base.Numbers.Decimal.{signed_decimal, length-decimal}
use cpp_base.Numbers.Word.{fast_uint32-decimal}
use cpp_base.Numbers.Long.{is_printable, fast_uint64_lem}

-- A text that fits its buffer is the result.
basic_itoa_fits :
    (size : ℕ) (text : Bytes) {written : Outcome Bytes}
    → length text < size
    → written ≡ ok text
    → basic_itoa size written ≡ ok text
unfolding basic_itoa
basic_itoa_fits size text h e =
    ap (λ o. o >>= λ t. if ltb (length t) size then ok t else undefined) e
    ∙ rw (lt→ltb (length text) size h) refl

abbrev pub magnitude : ℤ → ℕ
magnitude (pos n) = n
magnitude (negsuc n) = n + 1

length-signed_decimal :
    (n : ℕ) (i : ℤ) → n < 20 → magnitude i < 10 ^ suc n → length (signed_decimal i) ≤ n + 2
unfolding signed_decimal
length-signed_decimal n (pos v) h l = omega (arith, length-decimal n v h l)
length-signed_decimal n (negsuc v) h l = omega (arith, length-decimal n (v + 1) h l)

fast_int32-signed_decimal :
    (i : ℤ) → magnitude i < 2 ^ 31 → fast_int32_to_buffer_left i [] ≡ ok (signed_decimal i)
unfolding fast_int32_to_buffer_left signed_decimal
fast_int32-signed_decimal (pos n) h = fast_uint32-decimal n [] (omega arith)
fast_int32-signed_decimal (negsuc n) h =
    rw (lt→ltb (n + 1) (2 ^ 31) h) (fast_uint32-decimal (n + 1) (b'-' ∷ []) (omega arith))

fast_int64-signed_decimal :
    (i : ℤ)
    → magnitude i < 2 ^ 63
    → fast_int64_to_buffer_left i []
      ≡ (if is_printable (magnitude i) then ok (signed_decimal i) else undefined)
unfolding fast_int64_to_buffer_left signed_decimal
fast_int64-signed_decimal (pos n) h = fast_uint64_lem n [] (omega arith)
fast_int64-signed_decimal (negsuc n) h =
    rw (lt→ltb (n + 1) (2 ^ 63) h) (fast_uint64_lem (n + 1) (b'-' ∷ []) (omega arith))

-- SimpleItoa gives the decimal numeral of every int32 but the least one, and the text fits the buffer.
pub simple_itoa_int32-signed_decimal :
    (i : ℤ) → magnitude i < 2 ^ 31 → simple_itoa_int32 i ≡ ok (signed_decimal i)
unfolding simple_itoa_int32
simple_itoa_int32-signed_decimal i h =
    basic_itoa_fits 16 (signed_decimal i)
      (omega (arith, length-signed_decimal 9 i (omega arith) (omega arith)))
      (fast_int32-signed_decimal i h)

-- SimpleItoa of an int64 other than the least one gives its decimal numeral, which fits the buffer,
-- exactly where the number is printable; on every other one an int overflows.
pub simple_itoa_int64-signed_decimal :
    (i : ℤ)
    → magnitude i < 2 ^ 63
    → simple_itoa_int64 i
      ≡ (if is_printable (magnitude i) then ok (signed_decimal i) else undefined)
unfolding simple_itoa_int64 basic_itoa
simple_itoa_int64-signed_decimal i h = sym (
    if_split (is_printable (magnitude i))
      (λ e. sym (
        basic_itoa_fits 32 (signed_decimal i)
          (omega (arith, length-signed_decimal 18 i (omega arith) (omega arith)))
          (fast_int64-signed_decimal i h
            ∙ ap (λ t. if t then ok (signed_decimal i) else undefined) e)))
      (λ e. sym (
        ap (basic_itoa 32) (
          fast_int64-signed_decimal i h
          ∙ ap (λ t. if t then ok (signed_decimal i) else undefined) e))))
